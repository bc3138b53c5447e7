-- ===== src/Attempts/Grades.antt =====
-- The Architect's operations on an attempt: `resetAttempt` and `setAttemptOfficial` of
-- apps/web/src/server/services/grades.ts. The leaderboard caches that they drop are not modelled.
use ambatucode.Common.{
  if◌then◌else◌, update_where, ℕ, suc, ◌+◌, Bool, true, false, not, ◌&&◌, none, some, List, ◌∷◌,
  Error, Result, ok, err, ◌>>=◌, ◌>>◌, refuse_if,
}
use ambatucode.Domain.{AttemptStatus, is_running}
use ambatucode.Clock.{is_live}
use ambatucode.Store.{
  World, Session, Attempt, EventType, has_id, attempt_closed, publish, record_event,
}
use ambatucode.Official.{set_official_attempt, clear_official_attempts, with_official}
use ambatucode.Access.{
  Actor, AttemptScope, assert_not_root, scope_for_attempt, require_module_owner,
}
use ambatucode.Attempts.Start.{latest_attempt, new_attempt}

abbrev pub is_reset : AttemptStatus → Bool
is_reset AttemptStatus.reset = true
is_reset _ = false

unfoldable pub reset_checks : Actor → ℕ → World → Result AttemptScope
reset_checks actor i w = do
  assert_not_root actor
  scope ← scope_for_attempt i w
  require_module_owner actor scope.assessment.module_id w
  refuse_if (is_reset scope.attempt.status) Error.conflict
  refuse_if (not (is_running scope.session.status) && is_live scope.session.execution_mode)
      Error.conflict
  ok scope

abbrev pub with_reset : ℕ → ℕ → Attempt → Attempt
with_reset by now a = record a {
  status = AttemptStatus.reset;
  reset_by = some by;
  reset_at = some now;
  is_official = false;
}

-- One more than the highest number of the Coder's attempts at the session.
abbrev pub next_number : Attempt → List Attempt → ℕ
next_number a attempts = elim (latest_attempt a.session_id a.user_id attempts) [
  | none ↦ a.attempt_number + 1
  | some b ↦ b.attempt_number + 1
]

unfoldable pub retake : ℕ → Attempt → Bool → List Attempt → Attempt
retake i a outside attempts =
    record (new_attempt i a.session_id a.user_id (next_number a attempts)) {
      granted_outside_session = outside;
    }

unfoldable pub reset_commit : ℕ → Attempt → Session → ℕ → World → World
unfolding retake
reset_commit by a s now w = publish (attempt_closed a.user_id a.id) (
    record_event
      (record {
        session_id = a.session_id;
        type = EventType.attempt_reset;
        user_id = some a.user_id;
        attempt_id = some a.id;
        occurred_at = now;
      })
      (record w {
        attempts =
            retake w.next_id a (not (is_running s.status)) w.attempts
            ∷ clear_official_attempts a.session_id a.user_id
                (update_where (has_id a.id) (with_reset by now) w.attempts);
        next_id = suc w.next_id;
      }))

-- The id of the new attempt. The source locks no row: this is the checks and the write with no other request
-- between them, and `reset_commit` is the write alone, of the attempt as it was read.
unfoldable pub reset_attempt : Actor → ℕ → ℕ → World → Result ℕ × World
unfolding reset_checks reset_commit
reset_attempt actor i now w = elim (reset_checks actor i w) [
  | err e ↦ (err e, w)
  | ok scope ↦ (ok w.next_id, reset_commit actor.id scope.attempt scope.session now w)
]

abbrev pub official_checks : Actor → ℕ → World → Result AttemptScope
official_checks actor i w = do
  assert_not_root actor
  scope ← scope_for_attempt i w
  require_module_owner actor scope.assessment.module_id w
  ok scope

unfoldable pub choose_official : Attempt → Bool → List Attempt → List Attempt
unfolding set_official_attempt
choose_official a chosen attempts =
    if chosen
    then set_official_attempt a.session_id a.user_id a.id attempts
    else update_where (has_id a.id) (with_official false) attempts

unfoldable pub set_attempt_official : Actor → ℕ → Bool → World → Result Bool × World
unfolding assert_not_root scope_for_attempt require_module_owner choose_official
set_attempt_official actor i chosen w = elim (official_checks actor i w) [
  | err e ↦ (err e, w)
  | ok scope ↦ (ok chosen, record w { attempts = choose_official scope.attempt chosen w.attempts })
]
