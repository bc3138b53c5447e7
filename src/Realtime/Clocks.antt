-- ===== src/Realtime/Clocks.antt =====
-- The attempt that a handler reads, and its clock at a disconnect and at a return: loadOwnAttempt,
-- isIndividualTimed, pauseIfIndividual, resumeIfPaused and sendState of
-- apps/realtime/src/assessment.ts. An attempt without its Session or Assessment, which the foreign keys
-- exclude, answers as a missing one.
use ambatucode.Common.{
  ◌==◌, if◌then◌else◌, is_some, is_none, any, update_where, ℕ, Bool, not, ◌&&◌, ◌||◌, Option, none,
  some,
}
use ambatucode.Domain.{is_in_progress}
use ambatucode.Clock.{
  is_individual, is_attempt_overdue, pause_attempt_clock, resume_attempt_clock, PausedClock,
}
use ambatucode.Store.{
  World, Attempt, Session, EventType, has_id, find_attempt, find_session, find_assessment,
  attempt_deadline, cancel_deadline, schedule_deadline,
}
use ambatucode.Access.{AttemptScope}
use ambatucode.Attempts.Activity.{clock_for}
use ambatucode.Realtime.State.{
  Target, Hub, attempt_state, attempt_paused, attempt_resumed, emit, in_world, log_event,
}

abbrev pub own_scope : ℕ → World → Attempt → Option AttemptScope
own_scope user w a = elim (find_session a.session_id w) [
  | none ↦ none
  | some s ↦ elim (find_assessment s.assessment_id w) [
    | none ↦ none
    | some t ↦
        if a.user_id == user
        then some (record { attempt = a; session = s; assessment = t })
        else none
  ]
]

-- The attempt of someone else answers as a missing one.
unfoldable pub load_own_attempt : ℕ → ℕ → World → Option AttemptScope
load_own_attempt i user w = elim (find_attempt i w) [ none ↦ none | some a ↦ own_scope user w a ]

abbrev pub is_individual_timed : Session → Bool
is_individual_timed s = is_individual s.execution_mode && is_some s.duration_minutes

-- The attempt is in progress and its clock runs.
abbrev pub is_active_row : ℕ → Attempt → Bool
is_active_row i a = has_id i a && is_in_progress a.status && is_none a.paused_at

abbrev pub is_paused_row : ℕ → Attempt → Bool
is_paused_row i a = has_id i a && is_in_progress a.status && is_some a.paused_at

abbrev pub paused_row : PausedClock → Attempt → Attempt
paused_row p a = record a { consumed_ms = p.consumed_ms; paused_at = some p.paused_at_ms }

abbrev pub resumed_row : ℕ → Attempt → Attempt
resumed_row deadline a = record a { individual_deadline_at = some deadline; paused_at = none }

abbrev pub write_attempts : (Attempt → Bool) → (Attempt → Attempt) → Hub → Hub
write_attempts p f = in_world (λ w. record w { attempts = update_where p f w.attempts })

abbrev pub after_pause : Attempt → PausedClock → ℕ → Hub → Hub
after_pause a p at h = emit (attempt_paused a.user_id p.consumed_ms) (
    log_event a.session_id EventType.timer_paused a.user_id a.id at (
      in_world (cancel_deadline (attempt_deadline a.id))
        (write_attempts (is_active_row a.id) (paused_row p) h)))

unfoldable pub pause_if_individual : AttemptScope → ℕ → Hub → Hub
pause_if_individual row at h =
    let a = row.attempt in
    let c = clock_for a row.session in
    if not (is_in_progress a.status) || not (is_individual_timed row.session) || is_some a.paused_at
    then h
    else (if is_attempt_overdue c at
        then h
        else (if any (is_active_row a.id) h.world.attempts
            then after_pause a (pause_attempt_clock c at) at h
            else h))

abbrev pub after_resume : Attempt → ℕ → ℕ → Hub → Hub
after_resume a deadline at h = emit (attempt_resumed a.user_id a.consumed_ms) (
    log_event a.session_id EventType.timer_resumed a.user_id a.id at (
      in_world (schedule_deadline (attempt_deadline a.id) deadline)
        (write_attempts (is_paused_row a.id) (resumed_row deadline) h)))

unfoldable pub resume_if_paused : AttemptScope → ℕ → Hub → Hub
resume_if_paused row at h =
    let a = row.attempt in
    if not (is_in_progress a.status) || not (is_individual_timed row.session) || is_none a.paused_at
    then h
    else (if any (is_paused_row a.id) h.world.attempts
        then after_resume a (resume_attempt_clock (clock_for a row.session) at) at h
        else h)

-- `sendState`, to one socket or to the rooms of a user.
unfoldable pub send_state : Target → ℕ → ℕ → Hub → Hub
unfolding load_own_attempt
send_state target i user h =
    if is_some (load_own_attempt i user h.world) then emit (attempt_state target i) h else h
