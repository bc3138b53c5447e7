-- ===== src/Sessions/Setup.antt =====
-- Creating, changing and deleting a session. A session's name is not modelled, and a closing time is a
-- moment, so the text that is not a date does not arise.
use ambatucode.Common.{
  leb, ◌==◌, if◌then◌else◌, is_some, is_none, or_default, any, find_first, update_where, ℕ, suc,
  Bool, true, false, not, ◌&&◌, ◌||◌, Option, none, some, ◌∷◌, Error, Result, ok, err, ◌>>=◌, ◌>>◌,
  refuse_if, or_refuse,
}
use ambatucode.Domain.{SessionStatus, SessionAccess, ExecutionMode, TimeMode, is_editable}
use ambatucode.Clock.{is_live}
use ambatucode.Store.{World, Session, Assessment, find_assessment, publish, session_state}
use ambatucode.Access.{Actor, assert_not_root, require_module_owner, scope_for_session}

pub record SessionScope : Type 0 where
  pub session : Session
  pub assessment : Assessment

-- `assertCanWrite`
unfoldable pub assert_can_write : Actor → ℕ → World → Result (Unit {0})
unfolding assert_not_root require_module_owner
assert_can_write actor m w = do assert_not_root actor; owned ← require_module_owner actor m w; ok tt

unfoldable pub owned_session : Actor → ℕ → World → Result SessionScope
unfolding scope_for_session assert_can_write
owned_session actor i w = do
  (s, a) ← scope_for_session i w
  assert_can_write actor a.module_id w
  ok (record { session = s; assessment = a })

abbrev pub is_past : Option ℕ → Option ℕ → Bool
is_past (some at) (some now) = leb at now
is_past _ _ = false

-- Whether `sessionRuleProblem` names a problem.
unfoldable pub session_rule_problem : Option ExecutionMode → Option ℕ → Option ℕ → Bool
session_rule_problem mode closes_at now =
    (is_live mode && is_some closes_at) || is_past closes_at now

pub record CreateSession : Type 0 where
  pub execution_mode : Option ExecutionMode
  pub duration_minutes : Option ℕ
  pub access : Option SessionAccess
  pub closes_at : Option ℕ
  pub require_all_ready : Option Bool
  pub open_lobby : Option Bool

-- `left ?? right`
abbrev pub or_else {ℓ} : {A : Type ℓ} → Option A → Option A → Option A
or_else none b = b
or_else (some a) b = some a

abbrev pub is_untimed : TimeMode → Bool
is_untimed TimeMode.untimed = true
is_untimed TimeMode.timed = false

pub record Timing : Type 0 where
  pub execution_mode : Option ExecutionMode
  pub duration_minutes : Option ℕ

unfoldable pub session_timing : Assessment → CreateSession → Result Timing
session_timing a input =
    if is_untimed a.time_mode
    then (if is_some input.execution_mode || is_some input.duration_minutes
        then err Error.validation_failed
        else ok (record { execution_mode = none; duration_minutes = none }))
    else ok (record {
      execution_mode = or_else input.execution_mode a.execution_mode;
      duration_minutes = or_else input.duration_minutes a.duration_minutes;
    })

abbrev create_checks : Actor → ℕ → CreateSession → ℕ → World → Result Timing
create_checks actor i input now w = do
  a ← or_refuse (find_assessment i w) Error.not_found
  assert_can_write actor a.module_id w
  timing ← session_timing a input
  refuse_if (session_rule_problem timing.execution_mode input.closes_at (some now))
      Error.validation_failed
  ok timing

abbrev new_session : ℕ → ℕ → Timing → CreateSession → Session
new_session n i timing input = record {
  id = n;
  assessment_id = i;
  execution_mode = timing.execution_mode;
  duration_minutes = timing.duration_minutes;
  status = if or_default input.open_lobby false then SessionStatus.ready else SessionStatus.draft;
  access = or_default input.access SessionAccess.listed;
  is_open_access = false;
  started_at = none;
  ends_at = none;
  closes_at = input.closes_at;
  require_all_ready = or_default input.require_all_ready false;
  started_by = none;
  started_with_missing = false;
}

-- The id of the new session.
unfoldable pub create_session : Actor → ℕ → CreateSession → ℕ → World → Result ℕ × World
unfolding assert_can_write session_timing session_rule_problem
create_session actor i input now w = elim (create_checks actor i input now w) [
  | err e ↦ (err e, w)
  | ok timing ↦ (
    ok w.next_id,
    record w {
      sessions = new_session w.next_id i timing input ∷ w.sessions;
      next_id = suc w.next_id;
    },
  )
]

-- `EDITABLE_SESSION_STATUSES`
pub data EditableStatus : Type 0 where
  to_draft to_ready to_cancelled : EditableStatus

abbrev pub status_named : EditableStatus → SessionStatus
status_named to_draft = SessionStatus.draft
status_named to_ready = SessionStatus.ready
status_named to_cancelled = SessionStatus.cancelled

-- An absent field leaves the column alone; `closes_at` may also be set to null.
pub record UpdateSession : Type 0 where
  pub execution_mode : Option ExecutionMode
  pub duration_minutes : Option ℕ
  pub status : Option EditableStatus
  pub access : Option SessionAccess
  pub closes_at : Option (Option ℕ)
  pub require_all_ready : Option Bool

abbrev pub has_session_id : ℕ → Session → Bool
has_session_id i s = s.id == i

abbrev pub is_editable_session : ℕ → Session → Bool
is_editable_session i s = has_session_id i s && is_editable s.status

abbrev pub patch_session : UpdateSession → Session → Session
patch_session input s = record s {
  execution_mode = or_else input.execution_mode s.execution_mode;
  duration_minutes = or_else input.duration_minutes s.duration_minutes;
  status = elim input.status [ none ↦ s.status | some k ↦ status_named k ];
  access = or_default input.access s.access;
  closes_at = or_default input.closes_at s.closes_at;
  require_all_ready = or_default input.require_all_ready s.require_all_ready;
}

abbrev pub update_checks : Actor → ℕ → UpdateSession → ℕ → World → Result SessionScope
update_checks actor i input now w = do
  scope ← owned_session actor i w
  refuse_if (not (is_editable scope.session.status)) Error.conflict
  refuse_if
      ((is_some input.execution_mode || is_some input.duration_minutes)
        && is_none scope.session.execution_mode)
      Error.validation_failed
  refuse_if
      (session_rule_problem (or_else input.execution_mode scope.session.execution_mode)
        (or_default input.closes_at scope.session.closes_at)
        (elim input.closes_at [ none ↦ none | some c ↦ some now ]))
      Error.validation_failed
  refuse_if (not (any (is_editable_session i) w.sessions)) Error.conflict
  ok scope

-- `broadcastSessionState`: the state as it is when the message is made; the counts are left out.
abbrev pub broadcast_session_state : ℕ → World → World
broadcast_session_state i w = elim (find_first (has_session_id i) w.sessions) [
  | none ↦ w
  | some s ↦ publish (session_state i s.status s.ends_at) w
]

unfoldable pub update_session : Actor → ℕ → UpdateSession → ℕ → World → Result ℕ × World
unfolding owned_session session_rule_problem
update_session actor i input now w = elim (update_checks actor i input now w) [
  | err e ↦ (err e, w)
  | ok scope ↦
      let updated = record w {
        sessions = update_where (is_editable_session i) (patch_session input) w.sessions;
      } in
      (
        ok i,
        if is_some input.status || is_some input.access
            then broadcast_session_state i updated
            else updated,
      )
]
