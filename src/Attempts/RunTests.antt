-- ===== src/Attempts/RunTests.antt =====
-- Runs on a concrete world.
use ambatucode.Clock.{attempt_activity_problem}
use ambatucode.Common.{◌≤◌, ◌≡◌, refl, ◌⊎◌, true, false, none, some, [], ◌∷◌, map, Error, ok, err}
use ambatucode.Store.{
  Session, find_session, find_assessment, Assessment, Attempt, World, find_attempt,
}
use ambatucode.Domain.{AttemptStatus}
use ambatucode.Attempts.Running.{run_checks, RunJob}
use ambatucode.Common.{ℕ, Bool, Result}
use ambatucode.Access.{scope_for_own_attempt}
use ambatucode.Attempts.Activity.{assert_active, assert_language_allowed}
use ambatucode.Sample.{busy, coder, code}
use ambatucode.Attempts.Running.{run_checks, RunSetup, run_attempt, consume_rate_limit}
use ambatucode.Attempts.RunLaws.{run_leaves_no_history, IsRunJob, IsAfterRun}

abbrev sample_setup : Assessment → RunSetup
sample_setup _ = record {
  time_limit_ms = 2000;
  memory_limit_mb = 256;
  cases =
      record { id = 50; is_public = true; time_limit_ms = none }
      ∷ record { id = 51; is_public = false; time_limit_ms = some 9000 }
      ∷ [];
  scripts = [];
}

abbrev run_at : ℕ → Bool → Result ℕ × World
run_at count written =
    run_attempt (λ _. true) sample_setup written coder 6 77 code
      (record { count = count; ttl = none }) 5000 5001 busy

-- The hidden case stays behind, and the Run is counted and its code kept.
run_counted : map (λ a. a.run_count) (run_at 30 true).1.attempts ≡ 1 ∷ []
unfolding run_attempt scope_for_own_attempt assert_language_allowed assert_active
    attempt_activity_problem consume_rate_limit
run_counted = refl

run_kept :
    map (λ a. a.last_run) (run_at 30 true).1.attempts
    ≡ some (record { language = code.language; source_code = code.source_code; at = 5001 }) ∷ []
unfolding run_attempt scope_for_own_attempt assert_language_allowed assert_active
    attempt_activity_problem consume_rate_limit
run_kept = refl

-- A count that is not written costs nobody the Run.
run_not_counted : (run_at 30 false).0 ≡ ok 77
unfolding run_attempt scope_for_own_attempt assert_language_allowed assert_active
    attempt_activity_problem consume_rate_limit
run_not_counted = refl

run_limited : (run_at 31 true).0 ≡ err Error.rate_limited
unfolding run_attempt scope_for_own_attempt assert_language_allowed assert_active
    attempt_activity_problem consume_rate_limit
run_limited = refl

run_leaves_no_history_example :
    ((e : Error) × ((run_at 1 true).0 ≡ err e)
      × ((run_at 1 true).1 ≡ busy)
      × ((run_checks coder 6 code (record { count = 1; ttl = none }) 5000 busy ≡ err e)
          ⊎ ((r : RunJob) × (true ≡ false) × (e ≡ Error.internal))))
    ⊎ ((a : Attempt) × (s : Session) × (t : Assessment) × (r : RunJob) × ((run_at 1 true).0 ≡ ok 77)
        × (find_attempt 6 busy ≡ some a)
        × (find_session a.session_id busy ≡ some s)
        × (find_assessment s.assessment_id busy ≡ some t)
        × (a.user_id ≡ coder.id)
        × (a.status ≡ AttemptStatus.in_progress)
        × (1 ≤ 30)
        × (true ≡ true)
        × IsRunJob (sample_setup t) coder 77 code r
        × IsAfterRun 6 code true 5001 r.job a busy (run_at 1 true).1)
run_leaves_no_history_example =
    run_leaves_no_history (λ _. true) sample_setup true coder 6 77 code
      (record { count = 1; ttl = none }) 5000 5001 busy
