-- ===== src/Attempts/Final.antt =====
-- Every request leaves a settled attempt settled: submitted, expired or reset, it stays one of the three.
use ambatucode.Common.{
  Bool-cases, Option-cases, any, find_first, ℕ, refl, inl, inr, Bool, true, false, Option, none,
  some, List, arith, Result-cases,
}
use ambatucode.Domain.{AttemptStatus, is_in_progress, is_not_started}
use ambatucode.Clock.{is_individual, attempt_deadline_ms}
use ambatucode.Store.{
  World, Attempt, Session, ExecutionJob, EventType, has_id, find_attempt, find_session, is_sibling,
}
use ambatucode.Official.{set_official_attempt, clear_official_attempts}
use ambatucode.Attempts.Activity.{save_draft, draft_checks, clock_for, has_draft}
use ambatucode.Attempts.Start.{
  start_commit, begin_attempt, create_first, start_waiting, is_waiting, is_numbered, with_start,
  announce_start,
}
use ambatucode.Attempts.Submit.{submit_attempt, submit_checks, with_status}
use ambatucode.Attempts.Close.{
  AutoReason, auto_submit_attempt, close_found, expire_attempt, submit_draft, is_too_early,
  reschedule, code_of,
}
use ambatucode.Attempts.Grades.{
  retake, reset_attempt, reset_checks, reset_commit, with_reset, set_attempt_official,
  official_checks, choose_official,
}
use ambatucode.Attempts.History.{
  Step, Reach, starts, saves, submits, closes, resets, chooses, here, later,
}
use ambatucode.Attempts.Once.{
  IsFinal, Settled, update-IsFinal, official-IsFinal, dispatch-Settled, hand_in-Settled,
}

announce-Settled :
    (i j s u now : ℕ) (deadline : Option ℕ) (w : World)
    → Settled i w
    → Settled i (announce_start j s u now deadline w)
announce-Settled i j s u now none w settled = settled
announce-Settled i j s u now (some at) w settled = settled

begin-Settled :
    (i : ℕ) (latest : Option Attempt) (s u now : ℕ) (deadline : Option ℕ) (w : World)
    → Settled i w
    → Settled i (begin_attempt latest s u now deadline w).1
unfolding create_first start_waiting
begin-Settled i none s u now deadline w (old, final) =
    elim (Bool-cases (any (is_numbered s u 1) w.attempts)) [
      | inl taken ↦ rw taken (old, final)
      | inr free ↦ rw free (
          announce-Settled i w.next_id s u now deadline _ (omega arith, (λ h. ground arith, final)))
    ]
begin-Settled i (some a) s u now deadline w (old, final) =
    elim (Bool-cases (is_not_started a.status)) [
      | inr begun ↦ rw begun (old, final)
      | inl waits ↦ elim (Bool-cases (any (is_waiting a.id) w.attempts)) [
        | inr other ↦ rw (waits, other) (old, final)
        | inl still ↦
            rw (waits, still)
              (announce-Settled i a.id s u now deadline _ (
                old,
                update-IsFinal i (is_waiting a.id) (with_start now deadline) w.attempts
                    (λ b e h same. ground (arith, same)) final,
              ))
      ]
    ]

reset-Settled :
    (i by : ℕ) (a : Attempt) (s : Session) (now : ℕ) (w : World)
    → Settled i w
    → Settled i (reset_commit by a s now w)
unfolding reset_commit retake clear_official_attempts
reset-Settled i by a s now w (old, final) = (
  omega arith,
  (
    λ h. ground arith,
    official-IsFinal i (is_sibling a.session_id a.user_id) false _
        (update-IsFinal i (has_id a.id) (with_reset by now) w.attempts (λ b e h same. refl) final),
  ),
)

choose-IsFinal :
    (i : ℕ) (a : Attempt) (chosen : Bool) (rows : List Attempt)
    → IsFinal i rows
    → IsFinal i (choose_official a chosen rows)
unfolding choose_official set_official_attempt
choose-IsFinal i a true rows final =
    official-IsFinal i (has_id a.id) true _ (official-IsFinal i _ false rows final)
choose-IsFinal i a false rows final = official-IsFinal i (has_id a.id) false rows final

expire-Settled :
    (i : ℕ) (a : Attempt) (now : ℕ) (w : World) → Settled i w → Settled i (expire_attempt a now w)
unfolding expire_attempt
expire-Settled i a now w (old, final) = (
  old,
  update-IsFinal i (has_id a.id) (with_status AttemptStatus.expired) w.attempts (λ b e h same. refl)
      final,
)

reschedule-Settled :
    (i : ℕ) (reason : AutoReason) (a : Attempt) (s : Session) (w : World)
    → Settled i w
    → Settled i (reschedule reason a s w)
reschedule-Settled i AutoReason.session_ended a s w settled = settled
reschedule-Settled i AutoReason.focus_loss a s w settled = settled
reschedule-Settled i AutoReason.deadline a s w settled =
    elim (Bool-cases (is_individual s.execution_mode)) [
      | inr shared ↦ rw shared settled
      | inl own ↦ elim (Option-cases (attempt_deadline_ms (clock_for a s))) [
        | inl unset ↦ rw (own, unset) settled
        | inr (at, set) ↦ rw (own, set) settled
      ]
    ]

close-Settled :
    (enqueue : ExecutionJob → Bool) (i : ℕ) (reason : AutoReason) (a : Attempt) (now : ℕ)
    (w : World) (session : Option Session)
    → Settled i w
    → Settled i (close_found enqueue reason a now w session).1
unfolding submit_draft
close-Settled enqueue i reason a now w none settled = settled
close-Settled enqueue i reason a now w (some s) settled =
    elim (Bool-cases (is_in_progress a.status)) [
      | inr closed ↦ rw closed settled
      | inl active ↦ elim (Bool-cases (is_too_early reason a s now)) [
        | inl early ↦ rw (active, early) (reschedule-Settled i reason a s w settled)
        | inr due ↦ elim (Option-cases (find_first (has_draft a.id) w.drafts)) [
          | inl missing ↦ rw (active, due, missing) (expire-Settled i a now w settled)
          | inr (d, saved) ↦
              rw (active, due, saved)
                (dispatch-Settled enqueue w.next_id now i _ (
                  hand_in-Settled i a s.assessment_id (code_of d) true
                    EventType.attempt_auto_submitted now w settled))
        ]
      ]
    ]

-- One request, by whichever Coder, Architect or alarm.
pub Step-Settled :
    {enqueue : ExecutionJob → Bool} (i : ℕ) {v w : World}
    → Step enqueue v w
    → Settled i v
    → Settled i w
unfolding start_commit submit_attempt save_draft auto_submit_attempt reset_attempt
    set_attempt_official
Step-Settled i (starts actor j now start w) settled =
    begin-Settled i start.latest j actor.id now start.deadline _ settled
Step-Settled i (saves actor j input now w) settled =
    elim (Result-cases (draft_checks actor j input now w)) [
      | inl (e, refused) ↦ rw (refused, save_draft) settled
      | inr (u, accepted) ↦ rw (accepted, save_draft) settled
    ]
Step-Settled {enqueue} i (submits actor j input now w) settled =
    elim (Result-cases (submit_checks actor j input now w)) [
      | inl (e, refused) ↦ rw (refused, submit_attempt) settled
      | inr (scope, accepted) ↦
          rw (accepted, submit_attempt)
            (dispatch-Settled enqueue w.next_id now i _ (
              hand_in-Settled i scope.attempt scope.assessment.id input false
                EventType.attempt_submitted now w settled))
    ]
Step-Settled {enqueue} i (closes j reason now w) settled = elim (Option-cases (find_attempt j w)) [
  | inl missing ↦ rw (missing, auto_submit_attempt) settled
  | inr (a, found) ↦
      rw (found, auto_submit_attempt)
        (close-Settled enqueue i reason a now w (find_session a.session_id w) settled)
]
Step-Settled i (resets actor j now w) settled = elim (Result-cases (reset_checks actor j w)) [
  | inl (e, refused) ↦ rw (refused, reset_attempt) settled
  | inr (scope, accepted) ↦
      rw (accepted, reset_attempt)
        (reset-Settled i actor.id scope.attempt scope.session now w settled)
]
Step-Settled i (chooses actor j chosen w) (old, final) =
    elim (Result-cases (official_checks actor j w)) [
      | inl (e, refused) ↦ rw (refused, set_attempt_official) (old, final)
      | inr (scope, accepted) ↦
          rw (accepted, set_attempt_official)
            (old, choose-IsFinal i scope.attempt chosen w.attempts final)
    ]

-- An attempt that is submitted, expired or reset has one of these three statuses after any sequence
-- of requests on attempts.
pub reach-Settled :
    {enqueue : ExecutionJob → Bool} (i : ℕ) {v w : World}
    → Reach enqueue v w
    → Settled i v
    → Settled i w
reach-Settled i (here w) settled = settled
reach-Settled i (later path step) settled = Step-Settled i step (reach-Settled i path settled)
