-- ===== src/Attempts/Activity.antt =====
-- Whether an attempt may still be worked on, and the autosaved draft.
use ambatucode.Common.{
  ◌==◌, if◌then◌else◌, any, update_where, ℕ, Bool, not, none, some, List, ◌∷◌, Error, Result, ok,
  err, ◌>>=◌, ◌>>◌, refuse_if,
}
use Prim.Native.String.{String}
use text.Mathlib.Text.{◌==◌ as str_eq}
use ambatucode.Domain.{SessionStatus}
use ambatucode.Clock.{
  SessionTiming, AttemptClock, Problem, attempt_activity_problem, attempt_already_submitted,
  attempt_expired, session_not_running,
}
use ambatucode.Store.{World, Session, Attempt, Draft}
use ambatucode.Access.{Actor, scope_for_own_attempt}

abbrev pub timing_of : Session → SessionTiming
timing_of s = record {
  execution_mode = s.execution_mode;
  duration_minutes = s.duration_minutes;
  ends_at_ms = s.ends_at;
}

abbrev pub clock_for : Attempt → Session → AttemptClock
clock_for a s = record {
  timing = timing_of s;
  individual_deadline_at_ms = a.individual_deadline_at;
  paused_at_ms = a.paused_at;
  consumed_ms = a.consumed_ms;
}

abbrev pub effective_session_status : Attempt → Session → SessionStatus
effective_session_status a s = if a.granted_outside_session then SessionStatus.running else s.status

abbrev pub error_of : Problem → Error
error_of attempt_already_submitted = Error.attempt_already_submitted
error_of attempt_expired = Error.attempt_expired
error_of session_not_running = Error.session_not_running

unfoldable pub assert_active : Attempt → Session → ℕ → Result (Unit {0})
assert_active a s now =
    elim (attempt_activity_problem a.status (effective_session_status a s) (clock_for a s) now) [
      | none ↦ ok tt
      | some p ↦ err (error_of p)
    ]

unfoldable pub assert_language_allowed : List String → String → Result (Unit {0})
assert_language_allowed allowed language =
    refuse_if (not (any (λ l. str_eq l language) allowed)) Error.language_not_allowed

pub record CodeInput : Type 0 where
  pub language : String
  pub source_code : String

abbrev pub has_draft : ℕ → Draft → Bool
has_draft i d = d.attempt_id == i

abbrev pub upsert_draft : Draft → List Draft → List Draft
upsert_draft d ds =
    if any (has_draft d.attempt_id) ds
    then update_where (has_draft d.attempt_id) (λ _. d) ds
    else d ∷ ds

abbrev pub draft_checks : Actor → ℕ → CodeInput → ℕ → World → Result (Unit {0})
draft_checks actor i input now w = do
  scope ← scope_for_own_attempt i actor.id w
  assert_active scope.attempt scope.session now
  assert_language_allowed scope.assessment.allowed_languages input.language

abbrev pub draft_of : ℕ → CodeInput → ℕ → Draft
draft_of i input now = record {
  attempt_id = i;
  language = input.language;
  source_code = input.source_code;
  saved_at = now;
}

unfoldable pub save_draft : Actor → ℕ → CodeInput → ℕ → World → Result ℕ × World
unfolding assert_active assert_language_allowed
save_draft actor i input now w = elim (draft_checks actor i input now w) [
  | err e ↦ (err e, w)
  | ok _ ↦ (ok now, record w { drafts = upsert_draft (draft_of i input now) w.drafts })
]
