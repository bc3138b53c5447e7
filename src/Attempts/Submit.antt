-- ===== src/Attempts/Submit.antt =====
-- The Coder's one formal Submit: `submitAttempt`. The transaction holds the lock of the attempt row, so
-- it is one step.
use ambatucode.Common.{
  update_where, ℕ, suc, Bool, false, none, some, ◌∷◌, Result, ok, err, ◌>>=◌, ◌>>◌,
}
use ambatucode.Domain.{AttemptStatus, SubmissionStatus}
use ambatucode.Store.{
  World, Attempt, Submission, ExecutionJob, EventType, has_id, attempt_closed, attempt_deadline,
  cancel_deadline, publish, record_event,
}
use ambatucode.Official.{claim_official_if_unset}
use ambatucode.Access.{Actor, AttemptScope, scope_for_own_attempt}
use ambatucode.Attempts.Activity.{CodeInput, assert_active, assert_language_allowed}
use ambatucode.Attempts.Dispatch.{dispatch_submission}

abbrev pub with_status : AttemptStatus → Attempt → Attempt
with_status status a = record a { status = status }

abbrev pub new_submission : ℕ → Attempt → ℕ → CodeInput → Bool → ℕ → Submission
new_submission i a assessment input auto now = record {
  id = i;
  attempt_id = a.id;
  user_id = a.user_id;
  assessment_id = assessment;
  session_id = a.session_id;
  language = input.language;
  source_code = input.source_code;
  status = SubmissionStatus.queued;
  score = none;
  is_auto_submitted = auto;
  submitted_at = now;
  graded_at = none;
  job_id = none;
}

-- What both ways of handing in write: the Submission, the attempt's status, the official flag where
-- none is set, and the event.
unfoldable pub hand_in : Attempt → ℕ → CodeInput → Bool → EventType → ℕ → World → World
hand_in a assessment input auto type now w =
    record_event
      (record {
        session_id = a.session_id;
        type = type;
        user_id = some a.user_id;
        attempt_id = some a.id;
        occurred_at = now;
      })
      (record w {
        submissions = new_submission w.next_id a assessment input auto now ∷ w.submissions;
        attempts =
            claim_official_if_unset a.session_id a.user_id a.id
              (update_where (has_id a.id) (with_status AttemptStatus.submitted) w.attempts);
        next_id = suc w.next_id;
      })

unfoldable pub submit_checks : Actor → ℕ → CodeInput → ℕ → World → Result AttemptScope
submit_checks actor i input now w = do
  scope ← scope_for_own_attempt i actor.id w
  assert_language_allowed scope.assessment.allowed_languages input.language
  assert_active scope.attempt scope.session now
  ok scope

-- The id of the Submission.
unfoldable pub submit_attempt :
    (ExecutionJob → Bool) → Actor → ℕ → CodeInput → ℕ → World → Result ℕ × World
unfolding submit_checks hand_in
submit_attempt enqueue actor i input now w = elim (submit_checks actor i input now w) [
  | err e ↦ (err e, w)
  | ok scope ↦ (
    ok w.next_id,
    publish (attempt_closed actor.id i) (
        dispatch_submission enqueue w.next_id now (
          cancel_deadline (attempt_deadline i) (
            hand_in scope.attempt scope.assessment.id input false EventType.attempt_submitted now
              w))),
  )
]
