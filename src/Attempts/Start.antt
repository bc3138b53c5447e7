-- ===== src/Attempts/Start.antt =====
-- Starting an attempt. `start_checks` is what `startAttempt` reads and decides, and `start_commit` what
-- it then writes. Between the two another request of the same Coder may have written, so the second
-- looks at the rows again as the database does, by its conditions and its unique index.
use ambatucode.Common.{
  leb, ◌==◌, if◌then◌else◌, any, update_where, find_last, ℕ, suc, min, Bool, true, false, not, ◌&&◌,
  ◌||◌, Option, none, some, List, ◌∷◌, Error, Result, ok, err, ◌>>=◌, ◌>>◌, refuse_if,
}
use ambatucode.Domain.{
  AttemptStatus, ReadyState, ConnectionState, is_coder, is_running, is_not_started,
}
use ambatucode.Clock.{individual_deadline_from}
use ambatucode.Store.{
  World, Session, Attempt, Participant, EventType, is_sibling, is_participant, attempt_deadline,
  schedule_deadline, record_event, has_id,
}
use ambatucode.Access.{Actor, scope_for_session, require_enrolled, session_eligibility}
use ambatucode.Attempts.Activity.{timing_of}

-- `findFirst` of a Coder's attempts at a session, `orderBy: { attemptNumber: "desc" }`.
abbrev pub latest_attempt : ℕ → ℕ → List Attempt → Option Attempt
latest_attempt s u = find_last (λ a. a.attempt_number) (is_sibling s u)

abbrev pub is_granted : Option Attempt → Bool
is_granted none = false
is_granted (some a) = is_not_started a.status && a.granted_outside_session

-- `endsAt !== null && endsAt <= now`
abbrev pub has_passed : Option ℕ → ℕ → Bool
has_passed none now = false
has_passed (some at) now = leb at now

-- `Math.min(ownDeadlineMs, sessionEndMs)`, where both are there.
abbrev pub clamp_deadline : Option ℕ → Option ℕ → Option ℕ
clamp_deadline none end = none
clamp_deadline (some own) none = some own
clamp_deadline (some own) (some end) = some (min own end)

pub record Start : Type 0 where
  pub latest : Option Attempt
  pub is_listed : Bool
  pub deadline : Option ℕ

abbrev start_session_checks : Actor → Session → ℕ → World → Result Start
start_session_checks actor s now w = do
  let latest = latest_attempt s.id actor.id w.attempts
  let granted = is_granted latest
  refuse_if (not (is_running s.status) && not granted) Error.session_not_running
  let eligibility = session_eligibility s.id actor.id s.execution_mode s.access false w.participants
  refuse_if (not eligibility.eligible && not granted) Error.forbidden
  refuse_if (not granted && has_passed s.ends_at now) Error.attempt_expired
  ok (record {
    latest = latest;
    is_listed = eligibility.is_listed;
    deadline =
        clamp_deadline (individual_deadline_from (timing_of s) now)
          (if granted then none else s.ends_at);
  })

unfoldable pub start_checks : Actor → ℕ → ℕ → World → Result Start
start_checks actor i now w = do
  refuse_if (not (is_coder actor.role)) Error.forbidden
  (s, a) ← scope_for_session i w
  require_enrolled actor a.module_id w
  refuse_if (not a.is_published) Error.not_found
  start_session_checks actor s now w

-- A Coder admitted without being listed gets an unlisted participant row.
unfoldable pub admit : ℕ → ℕ → Bool → List Participant → List Participant
admit s u already ps =
    if already || any (is_participant s u) ps
    then ps
    else record {
      session_id = s;
      user_id = u;
      is_listed = false;
      ready_state = ReadyState.not_ready;
      connection_state = ConnectionState.offline;
      active_connection = none;
      last_seen_at = none;
    }
      ∷ ps

abbrev pub with_start : ℕ → Option ℕ → Attempt → Attempt
with_start now deadline a = record a {
  status = AttemptStatus.in_progress;
  started_at = some now;
  individual_deadline_at = deadline;
  consumed_ms = 0;
  paused_at = none;
}

abbrev pub new_attempt : ℕ → ℕ → ℕ → ℕ → Attempt
new_attempt i s u n = record {
  id = i;
  session_id = s;
  user_id = u;
  attempt_number = n;
  status = AttemptStatus.not_started;
  started_at = none;
  individual_deadline_at = none;
  consumed_ms = 0;
  paused_at = none;
  run_count = 0;
  last_run = none;
  is_official = false;
  granted_outside_session = false;
  reset_by = none;
  reset_at = none;
}

-- The alarm and the logged event of an attempt that has just started.
abbrev pub announce_start : ℕ → ℕ → ℕ → ℕ → Option ℕ → World → World
announce_start i s u now deadline w =
    record_event
      (record {
        session_id = s;
        type = EventType.attempt_started;
        user_id = some u;
        attempt_id = some i;
        occurred_at = now;
      })
      (elim deadline [ none ↦ w | some at ↦ schedule_deadline (attempt_deadline i) at w ])

abbrev pub first_attempt : ℕ → ℕ → ℕ → ℕ → Option ℕ → Attempt
first_attempt i s u now deadline = record (with_start now deadline (new_attempt i s u 1)) {
  is_official = true;
}

abbrev pub is_numbered : ℕ → ℕ → ℕ → Attempt → Bool
is_numbered s u n a = is_sibling s u a && a.attempt_number == n

-- `latest === null`: a first attempt, or the one that another request has created since.
unfoldable pub create_first : ℕ → ℕ → ℕ → Option ℕ → World → Result ℕ × World
create_first s u now deadline w =
    if any (is_numbered s u 1) w.attempts
    then (elim (latest_attempt s u w.attempts) [ none ↦ err Error.internal | some a ↦ ok a.id ], w)
    else (
      ok w.next_id,
      announce_start w.next_id s u now deadline (record w {
        attempts = first_attempt w.next_id s u now deadline ∷ w.attempts;
        next_id = suc w.next_id;
      }),
    )

abbrev pub is_waiting : ℕ → Attempt → Bool
is_waiting i a = has_id i a && is_not_started a.status

-- A reset has left a fresh attempt: it starts, unless another request has started it since.
unfoldable pub start_waiting : ℕ → ℕ → ℕ → ℕ → Option ℕ → World → World
start_waiting i s u now deadline w =
    if any (is_waiting i) w.attempts
    then announce_start i s u now deadline
        (record w { attempts = update_where (is_waiting i) (with_start now deadline) w.attempts })
    else w

abbrev pub begin_attempt : Option Attempt → ℕ → ℕ → ℕ → Option ℕ → World → Result ℕ × World
begin_attempt none s u now deadline w = create_first s u now deadline w
begin_attempt (some a) s u now deadline w =
    (ok a.id, if is_not_started a.status then start_waiting a.id s u now deadline w else w)

unfoldable pub start_commit : Actor → ℕ → ℕ → Start → World → Result ℕ × World
unfolding create_first start_waiting admit
start_commit actor i now start w =
    begin_attempt start.latest i actor.id now start.deadline
      (record w { participants = admit i actor.id start.is_listed w.participants })

-- The attempt that the Coder gets.
unfoldable pub start_attempt : Actor → ℕ → ℕ → World → Result ℕ × World
unfolding start_checks start_commit
start_attempt actor i now w = elim (start_checks actor i now w) [
  | err e ↦ (err e, w)
  | ok start ↦ start_commit actor i now start w
]
