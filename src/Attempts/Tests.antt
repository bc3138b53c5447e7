-- ===== src/Attempts/Tests.antt =====
-- Attempts on concrete worlds.
use ambatucode.Common.{
  All, Error, err, arith, some, ◌≡◌, refl, ◌↔◌, Bool, true, false, [], ◌∷◌, Error, ok, err,
}
use ambatucode.Domain.{is_in_progress, SessionStatus}
use ambatucode.Clock.{is_attempt_overdue, attempt_activity_problem}
use ambatucode.Store.{has_id, World, ExecutionJob}
use ambatucode.Access.{scope_for_own_attempt}
use ambatucode.Attempts.Activity.{assert_active, assert_language_allowed}
use ambatucode.Attempts.Admission.{admit-keeps_eligibility}
use ambatucode.Domain.{ExecutionMode, SessionAccess}
use ambatucode.Access.{session_eligibility}
use ambatucode.Attempts.Start.{admit}
use ambatucode.Attempts.Final.{reach-Settled}
use ambatucode.Attempts.Once.{Settled}
use ambatucode.Attempts.Dispatch.{dispatch_submission, is_language}
use ambatucode.Official.{claim_official_if_unset}
use ambatucode.Attempts.Submit.{hand_in, submit_attempt}
use ambatucode.Attempts.Close.{AutoReason, not_active, submitted, auto_submit_attempt, is_too_early}
use ambatucode.Attempts.History.{Reach, here, later, submits, resets}
use ambatucode.Attempts.Grades.{reset_attempt}
use ambatucode.Attempts.Invariant.{Valid}
use ambatucode.Attempts.History.{reach-Valid}
use ambatucode.Attempts.Outcomes.{
  submitted_for_good, closed_for_good, accepted_iff_not_due, retake_closed_while_accepted,
}
use ambatucode.Sample.{
  coder, owner, code, busy, busy-Valid, sample_world, sample_attempt, sample_session,
}

abbrev takes : ExecutionJob → Bool
takes _ = true

-- The Coder hands in, and the Architect then resets the attempt.
abbrev handed : World
handed = (submit_attempt takes coder 6 code 5000 busy).1

abbrev reset_after : World
reset_after = (reset_attempt owner 6 6000 handed).1

submit_runs : (submit_attempt takes coder 6 code 5000 busy).0 ≡ ok 10
unfolding submit_attempt scope_for_own_attempt assert_language_allowed assert_active
    attempt_activity_problem
submit_runs = refl

close_runs : (auto_submit_attempt takes 6 AutoReason.focus_loss 5000 busy).0 ≡ submitted 10
unfolding auto_submit_attempt
close_runs = refl

abbrev path : Reach takes busy reset_after
path = later (later (here busy) (submits coder 6 code 5000 busy)) (resets owner 6 6000 handed)

abbrev after_path : Reach takes handed reset_after
after_path = later (here handed) (resets owner 6 6000 handed)

reach-Valid_example : Valid reset_after
reach-Valid_example = reach-Valid path busy-Valid

submitted_for_good_example :
    (auto_submit_attempt takes 6 AutoReason.deadline 7000 reset_after ≡ (not_active, reset_after))
    × ((e : Error) × (submit_attempt takes coder 6 code 7000 reset_after ≡ (err e, reset_after)))
submitted_for_good_example =
    submitted_for_good takes coder coder 6 10 code code AutoReason.deadline 5000 7000 busy
      reset_after busy-Valid submit_runs after_path

abbrev closed : World
closed = (auto_submit_attempt takes 6 AutoReason.focus_loss 5000 busy).1

closed_for_good_example :
    (auto_submit_attempt takes 6 AutoReason.deadline 7000 closed ≡ (not_active, closed))
    × ((e : Error) × (submit_attempt takes coder 6 code 7000 closed ≡ (err e, closed)))
closed_for_good_example =
    closed_for_good takes coder 6 code AutoReason.focus_loss AutoReason.deadline 5000 7000 busy
      closed busy-Valid (rw close_runs refl) (here closed)

accepted_iff_not_due_example :
    (assert_active (sample_attempt false) (sample_session SessionStatus.running) 5000 ≡ ok tt) ↔ (
      is_too_early AutoReason.deadline
        (sample_attempt false)
        (sample_session SessionStatus.running)
        5000
      ≡ true)
accepted_iff_not_due_example =
    accepted_iff_not_due (sample_attempt false) (sample_session SessionStatus.running) 5000 refl
      refl

-- A retake in progress after its session has ended.
abbrev retaken : World
retaken = sample_world SessionStatus.ended (sample_attempt true ∷ [])

retaken-Valid : Valid retaken
retaken-Valid = record {
  unique_ids = λ i. ground arith;
  unique_numbers = λ s u k. ground arith;
  one_official = λ s u. ground arith;
  rows_sound = ((omega arith, refl, λ _. refl), tt);
  one_submission = λ i. omega arith;
  subs_old = tt;
}

abbrev swept : World
swept = (auto_submit_attempt takes 6 AutoReason.session_ended 5000 retaken).1

retake_closed_while_accepted_example :
    (assert_active (sample_attempt true) (sample_session SessionStatus.ended) 5000 ≡ ok tt)
    × All (λ b. has_id 6 b ≡ true → is_in_progress b.status ≡ false) swept.attempts
    × ((e : Error) × (submit_attempt takes coder 6 code 6000 swept ≡ (err e, swept)))
unfolding is_attempt_overdue
retake_closed_while_accepted_example =
    retake_closed_while_accepted takes coder 6 5000 6000 code retaken swept retaken-Valid refl refl
      refl refl refl refl (here swept)

admit-keeps_eligibility_example :
    session_eligibility 5 1
      (some ExecutionMode.individual)
      SessionAccess.listed
      false
      (admit 5 9 false busy.participants)
    ≡ session_eligibility 5 1
        (some ExecutionMode.individual)
        SessionAccess.listed
        false
        busy.participants
admit-keeps_eligibility_example =
    admit-keeps_eligibility 5 9 1 false (some ExecutionMode.individual) SessionAccess.listed false
      busy.participants

handed-Settled : Settled 6 handed
unfolding submit_attempt scope_for_own_attempt assert_language_allowed assert_active
    attempt_activity_problem hand_in dispatch_submission claim_official_if_unset is_language
handed-Settled = (omega arith, (λ e. refl, tt))

reach-Settled_example : Settled 6 reset_after
reach-Settled_example = reach-Settled 6 after_path handed-Settled
