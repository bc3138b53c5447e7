-- ===== src/Deadlines/Tests.antt =====
-- The sweep on a session that ended with an attempt still open.
use ambatucode.Official.{claim_official_if_unset}
use ambatucode.Attempts.Dispatch.{dispatch_submission}
use ambatucode.Common.{◌≡◌, refl, Bool, true, false, List, [], ◌∷◌, map, arith}
use ambatucode.Domain.{SessionStatus, is_in_progress}
use ambatucode.Store.{World}
use ambatucode.Attempts.Close.{auto_submit_attempt, submit_draft}
use ambatucode.Sample.{sample_world, sample_attempt, busy}
use ambatucode.Deadlines.{sweep, close_attempts}
use ambatucode.Deadlines.Sweeping.{stranded_closed}
use ambatucode.Attempts.Close.{AutoReason}
use ambatucode.Attempts.Invariant.{Valid}
use ambatucode.Sessions.Closing.{Shut}
use ambatucode.Sample.{sample_session}

abbrev interrupted : World
interrupted = sample_world SessionStatus.ended (sample_attempt false ∷ [])

abbrev still_open : World → List Bool
still_open w = map (λ a. is_in_progress a.status) w.attempts

stranded_is_swept : still_open (sweep (λ _. true) (λ _. true) 9000 9001 interrupted) ≡ false ∷ []
unfolding sweep auto_submit_attempt submit_draft dispatch_submission claim_official_if_unset
stranded_is_swept = refl

-- An attempt in time is left alone.
in_time_is_left : still_open (sweep (λ _. true) (λ _. true) 9000 9001 busy) ≡ true ∷ []
unfolding sweep
in_time_is_left = refl

interrupted-Valid : Valid interrupted
interrupted-Valid = record {
  unique_ids = λ i. ground arith;
  unique_numbers = λ s u k. ground arith;
  one_official = λ s u. ground arith;
  rows_sound = ((omega arith, refl, λ _. refl), tt);
  one_submission = λ i. omega arith;
  subs_old = tt;
}

stranded_closed_example :
    Shut 5 6
      (close_attempts
        (λ _. true)
        (λ _. true)
        AutoReason.session_ended
        (sample_attempt false ∷ [])
        9001
        interrupted).attempts
stranded_closed_example =
    stranded_closed (λ _. true) (λ _. true) (sample_attempt false ∷ []) 9001 5 6 interrupted
      interrupted-Valid (sample_session SessionStatus.ended, refl, refl) refl
