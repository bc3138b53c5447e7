-- ===== src/Sessions/Lifecycle.antt =====
-- Starting a session, and ending it: by the Architect, by its deadline, or because its Assessment is no
-- longer open.
use ambatucode.Common.{
  ltb, ◌==◌, if◌then◌else◌, is_none, any, select, update_where, ℕ, suc, ◌+◌, ◌*◌, Bool, true, false,
  not, ◌&&◌, ◌||◌, Option, none, some, List, [], ◌∷◌, map, Error, Result, ok, err, ◌>>=◌, ◌>>◌,
  refuse_if,
}
use ambatucode.Domain.{SessionStatus, AttemptStatus, is_editable, is_running, is_in_progress}
use ambatucode.Clock.{is_live}
use ambatucode.Store.{
  World, Session, Attempt, Participant, ExecutionJob, EventType, Message, find_session, publish,
  record_event, schedule_deadline, cancel_deadline, session_deadline, is_sibling,
}
use ambatucode.Access.{Actor}
use ambatucode.Readiness.{
  SessionCounts, Readiness, RosterSource, from_none, readiness_for, everyone_ready,
}
use ambatucode.Attempts.Start.{new_attempt}
use ambatucode.Attempts.Close.{AutoReason, auto_submit_attempt}
use ambatucode.Sessions.Setup.{
  owned_session, is_editable_session, has_session_id, broadcast_session_state, is_past,
}

pub data StartOutcome : Type 0 where
  started : StartOutcome
  not_all_ready : SessionCounts → StartOutcome

abbrev pub is_from_none : RosterSource → Bool
is_from_none from_none = true
is_from_none _ = false

unfoldable pub session_start_checks :
    (ℕ → Bool) → Actor → ℕ → ℕ → World → Result (Session × Readiness)
unfolding owned_session readiness_for
session_start_checks online actor i now w = do
  scope ← owned_session actor i w
  refuse_if (not (is_editable scope.session.status)) Error.conflict
  refuse_if (not scope.assessment.is_published) Error.validation_failed
  refuse_if (scope.assessment.case_count + scope.assessment.script_count == 0)
      Error.validation_failed
  refuse_if (is_live scope.session.execution_mode && is_none scope.session.duration_minutes)
      Error.validation_failed
  refuse_if (is_past scope.session.closes_at (some now)) Error.validation_failed
  readiness ← readiness_for online i w
  refuse_if (is_from_none readiness.source) Error.validation_failed
  refuse_if (readiness.counts.total == 0) Error.validation_failed
  ok (scope.session, readiness)

-- `missing`: readiness gates this start, and somebody is not ready.
unfoldable pub is_missing : Session → SessionCounts → Bool
unfolding everyone_ready
is_missing s counts =
    (is_live s.execution_mode || s.require_all_ready) && not (everyone_ready counts)

unfoldable pub session_end : Session → ℕ → Option ℕ
session_end s now =
    if is_live s.execution_mode
    then (elim s.duration_minutes [ none ↦ none | some minutes ↦ some (now + minutes * 60000) ])
    else s.closes_at

abbrev pub with_session_start : ℕ → ℕ → Option ℕ → Bool → Session → Session
with_session_start by now ends_at missing s = record s {
  status = SessionStatus.running;
  started_at = some now;
  ends_at = ends_at;
  started_by = some by;
  started_with_missing = missing;
}

abbrev pub schedule_end : ℕ → Option ℕ → World → World
schedule_end i none w = w
schedule_end i (some at) w = schedule_deadline (session_deadline i) at w

abbrev pub start_rows : ℕ → ℕ → ℕ → Option ℕ → Bool → World → World
start_rows by i now ends_at missing w = publish (Message.session_started i ends_at) (
    schedule_end i ends_at (
      record_event
        (record {
          session_id = i;
          type = EventType.session_started;
          user_id = none;
          attempt_id = none;
          occurred_at = now;
        })
        (record w {
          sessions =
              update_where (is_editable_session i) (with_session_start by now ends_at missing)
                w.sessions;
        })))

-- What a start writes, if no other start has come first.
unfoldable pub session_start_commit :
    ℕ → ℕ → ℕ → Option ℕ → Bool → World → Result StartOutcome × World
session_start_commit by i now ends_at missing w =
    if any (is_editable_session i) w.sessions
    then (ok started, broadcast_session_state i (start_rows by i now ends_at missing w))
    else (err Error.conflict, w)

abbrev pub start_or_warn :
    ℕ → ℕ → Bool → ℕ → Session → SessionCounts → World → Result StartOutcome × World
start_or_warn by i force now s counts w =
    if is_missing s counts && not force
    then (ok (not_all_ready counts), w)
    else session_start_commit by i now (session_end s now) (is_missing s counts) w

unfoldable pub start_session :
    (ℕ → Bool) → Actor → ℕ → Bool → ℕ → World → Result StartOutcome × World
unfolding session_start_checks is_missing session_end session_start_commit
start_session online actor i force now w = elim (session_start_checks online actor i now w) [
  | err e ↦ (err e, w)
  | ok found ↦ start_or_warn actor.id i force now found.0 found.1.counts w
]

abbrev pub is_running_session : ℕ → Session → Bool
is_running_session i s = has_session_id i s && is_running s.status

abbrev pub with_ended : Session → Session
with_ended s = record s { status = SessionStatus.ended }

-- The flip of the status, first of all.
abbrev pub flip_rows : ℕ → Option ℕ → ℕ → World → World
flip_rows i by now w = cancel_deadline (session_deadline i) (
    record_event
      (record {
        session_id = i;
        type = EventType.session_ended;
        user_id = by;
        attempt_id = none;
        occurred_at = now;
      })
      (record w { sessions = update_where (is_running_session i) with_ended w.sessions }))

unfoldable pub flip_ended : ℕ → Option ℕ → ℕ → World → World
flip_ended i by now w = broadcast_session_state i (flip_rows i by now w)

abbrev pub is_open_attempt : ℕ → Attempt → Bool
is_open_attempt i a = a.session_id == i && is_in_progress a.status

abbrev pub open_attempts : ℕ → World → List ℕ
open_attempts i w = map (λ a. a.id) (select (is_open_attempt i) w.attempts)

-- `for (const attempt of open) await autoSubmitAttempt(attempt.id, { reason: "SESSION_ENDED" })`
abbrev pub close_each : (ExecutionJob → Bool) → ℕ → List ℕ → World → World
close_each enqueue now [] w = w
close_each enqueue now (k ∷ ks) w =
    close_each enqueue now ks (auto_submit_attempt enqueue k AutoReason.session_ended now w).1

abbrev pub is_no_show : ℕ → World → Participant → Bool
is_no_show i w p = p.session_id == i && p.is_listed && not (any (is_sibling i p.user_id) w.attempts)

abbrev pub no_show_attempt : ℕ → ℕ → ℕ → Attempt
no_show_attempt n i u = record (new_attempt n i u 1) {
  status = AttemptStatus.expired;
  is_official = true;
}

abbrev pub expire_no_show : ℕ → ℕ → ℕ → World → World
expire_no_show i now u w =
    record_event
      (record {
        session_id = i;
        type = EventType.attempt_expired;
        user_id = some u;
        attempt_id = some w.next_id;
        occurred_at = now;
      })
      (record w { attempts = no_show_attempt w.next_id i u ∷ w.attempts; next_id = suc w.next_id })

-- The rows are read once, before the first of them is written for.
abbrev pub expire_each : ℕ → ℕ → List ℕ → World → World
expire_each i now [] w = w
expire_each i now (u ∷ us) w = expire_each i now us (expire_no_show i now u w)

abbrev pub no_shows : ℕ → World → List ℕ
no_shows i w = map (λ p. p.user_id) (select (is_no_show i w) w.participants)

abbrev pub expire_no_shows : ℕ → ℕ → World → World
expire_no_shows i now w = expire_each i now (no_shows i w) w

-- The source closes the session, each attempt and each no-show in a transaction of its own: here no other
-- request comes between them.
unfoldable pub close_session : (ExecutionJob → Bool) → ℕ → Option ℕ → ℕ → World → Bool × World
unfolding flip_ended
close_session enqueue i by now w =
    if any (is_running_session i) w.sessions
    then (
      true,
      let flipped = flip_ended i by now w in
          expire_no_shows i now (close_each enqueue now (open_attempts i flipped) flipped),
    )
    else (false, w)

unfoldable pub end_session : (ExecutionJob → Bool) → Actor → ℕ → ℕ → World → Result ℕ × World
unfolding owned_session close_session
end_session enqueue actor i now w = elim (owned_session actor i w) [
  | err e ↦ (err e, w)
  | ok scope ↦
      if is_running scope.session.status
      then (ok i, (close_session enqueue i (some actor.id) now w).1)
      else (err Error.session_not_running, w)
]

pub data ExpireOutcome : Type 0 where
  not_running not_due ended : ExpireOutcome

-- The alarm of a session: one that rang early is set again.
abbrev pub expire_found : (ExecutionJob → Bool) → ℕ → ℕ → World → Session → ExpireOutcome × World
expire_found enqueue i now w s =
    if not (is_running s.status) then (not_running, w) else (elim s.ends_at [
      | none ↦ (not_due, w)
      | some at ↦
          if ltb now at
          then (not_due, schedule_deadline (session_deadline i) at w)
          else (let closed = close_session enqueue i none now w in
              (if closed.0 then ended else not_running, closed.1))
    ])

unfoldable pub expire_session : (ExecutionJob → Bool) → ℕ → ℕ → World → ExpireOutcome × World
unfolding close_session
expire_session enqueue i now w = elim (find_session i w) [
  | none ↦ (not_running, w)
  | some s ↦ expire_found enqueue i now w s
]
