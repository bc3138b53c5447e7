-- ===== src/Attempts/Close.antt =====
-- Closing an attempt on the Coder's behalf: `autoSubmitAttempt`.
use ambatucode.Common.{
  if◌then◌else◌, find_first, update_where, ℕ, Bool, true, false, not, Option, none, some,
}
use ambatucode.Domain.{AttemptStatus, is_in_progress, is_running}
use ambatucode.Clock.{is_attempt_overdue, attempt_deadline_ms, is_individual}
use ambatucode.Store.{
  World, Session, Attempt, Draft, ExecutionJob, EventType, has_id, find_attempt, find_session,
  attempt_closed, attempt_deadline, cancel_deadline, schedule_deadline, publish, record_event,
  Message,
}
use ambatucode.Attempts.Activity.{CodeInput, clock_for, has_draft}
use ambatucode.Attempts.Dispatch.{dispatch_submission}
use ambatucode.Attempts.Submit.{hand_in, with_status}

pub data AutoReason : Type 0 where
  deadline focus_loss session_ended : AutoReason

pub data AutoOutcome : Type 0 where
  not_active not_due expired : AutoOutcome
  submitted : ℕ → AutoOutcome

abbrev pub code_of : Draft → CodeInput
code_of d = record { language = d.language; source_code = d.source_code }

-- Whether the reason holds by what the database says.
abbrev pub is_too_early : AutoReason → Attempt → Session → ℕ → Bool
is_too_early session_ended a s now = is_running s.status
is_too_early deadline a s now = not (is_attempt_overdue (clock_for a s) now)
is_too_early focus_loss a s now = false

-- An alarm that rang early is set again; a session's own alarm covers a Live attempt.
abbrev pub reschedule : AutoReason → Attempt → Session → World → World
reschedule deadline a s w =
    if is_individual s.execution_mode
    then (elim (attempt_deadline_ms (clock_for a s)) [
      | none ↦ w
      | some at ↦ schedule_deadline (attempt_deadline a.id) at w
    ])
    else w
reschedule _ a s w = w

unfoldable pub expire_attempt : Attempt → ℕ → World → World
expire_attempt a now w = publish (attempt_closed a.user_id a.id) (
    cancel_deadline (attempt_deadline a.id) (
      record_event
        (record {
          session_id = a.session_id;
          type = EventType.attempt_expired;
          user_id = some a.user_id;
          attempt_id = some a.id;
          occurred_at = now;
        })
        (record w {
          attempts = update_where (has_id a.id) (with_status AttemptStatus.expired) w.attempts;
        })))

unfoldable pub submit_draft : (ExecutionJob → Bool) → Attempt → Session → Draft → ℕ → World → World
unfolding hand_in
submit_draft enqueue a s d now w = publish (attempt_closed a.user_id a.id) (
    publish (Message.attempt_auto_submitted a.user_id a.id w.next_id) (
      dispatch_submission enqueue w.next_id now (
        cancel_deadline (attempt_deadline a.id)
          (hand_in a s.assessment_id (code_of d) true EventType.attempt_auto_submitted now w))))

abbrev pub close_due :
    (ExecutionJob → Bool) → Attempt → Session → Option Draft → ℕ → World → AutoOutcome × World
close_due enqueue a s none now w = (expired, expire_attempt a now w)
close_due enqueue a s (some d) now w = (submitted w.next_id, submit_draft enqueue a s d now w)

abbrev pub close_found :
    (ExecutionJob → Bool) → AutoReason → Attempt → ℕ → World → Option Session → AutoOutcome × World
close_found enqueue reason a now w none = (not_active, w)
close_found enqueue reason a now w (some s) =
    if not (is_in_progress a.status)
    then (not_active, w)
    else (if is_too_early reason a s now
        then (not_due, reschedule reason a s w)
        else close_due enqueue a s (find_first (has_draft a.id) w.drafts) now w)

-- An attempt always has its session, by the foreign key; without one nothing is active.
unfoldable pub auto_submit_attempt :
    (ExecutionJob → Bool) → ℕ → AutoReason → ℕ → World → AutoOutcome × World
unfolding expire_attempt submit_draft
auto_submit_attempt enqueue i reason now w = elim (find_attempt i w) [
  | none ↦ (not_active, w)
  | some a ↦ close_found enqueue reason a now w (find_session a.session_id w)
]
