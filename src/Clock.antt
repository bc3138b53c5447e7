-- ===== src/Clock.antt =====
-- Attempt timing, packages/shared/src/assessment-clock.ts. A moment is a number of milliseconds.
-- A difference that the source cuts off at 0 by `Math.max` is the truncated difference of ℕ, taken
-- of sums that cannot be negative.
pub mod Laws
pub mod Pause
pub mod Budget
mod Tests
use ambatucode.Common.{
  ℕ, ◌+◌, ◌-◌, ◌*◌, min, Bool, true, false, ◌&&◌, Option, none, some, leb, if◌then◌else◌, is_some,
  or_default,
}
use ambatucode.Domain.{ExecutionMode, SessionStatus, AttemptStatus}

pub record SessionTiming : Type 0 where
  pub execution_mode : Option ExecutionMode
  pub duration_minutes : Option ℕ
  pub ends_at_ms : Option ℕ

pub record AttemptClock : Type 0 where
  pub timing : SessionTiming
  pub open timing use *
  pub individual_deadline_at_ms : Option ℕ
  pub paused_at_ms : Option ℕ
  pub consumed_ms : ℕ

abbrev pub is_individual : Option ExecutionMode → Bool
is_individual (some ExecutionMode.individual) = true
is_individual _ = false

abbrev pub is_live : Option ExecutionMode → Bool
is_live (some ExecutionMode.live) = true
is_live _ = false

unfoldable pub is_timed_session : SessionTiming → Bool
is_timed_session t = is_some t.execution_mode && is_some t.duration_minutes

unfoldable pub session_duration_ms : SessionTiming → Option ℕ
session_duration_ms t = elim t.duration_minutes [ none ↦ none | some m ↦ some (m * 60000) ]

unfoldable pub attempt_deadline_ms : AttemptClock → Option ℕ
unfolding is_timed_session
attempt_deadline_ms c =
    if is_timed_session c.timing
    then (if is_live c.execution_mode
        then c.ends_at_ms
        else (if is_some c.paused_at_ms then none else c.individual_deadline_at_ms))
    else none

-- `deadline - nowMs`, cut off at 0.
abbrev pub left_until : Option ℕ → ℕ → Option ℕ
left_until none now = none
left_until (some deadline) now = some (deadline - now)

abbrev remaining_of : AttemptClock → Option ℕ → ℕ → Option ℕ
remaining_of c none now = none
remaining_of c (some duration) now =
    if is_individual c.execution_mode && is_some c.paused_at_ms
    then some (duration - c.consumed_ms)
    else left_until (attempt_deadline_ms c) now

unfoldable pub attempt_remaining_ms : AttemptClock → ℕ → Option ℕ
unfolding is_timed_session session_duration_ms attempt_deadline_ms
attempt_remaining_ms c now =
    if is_timed_session c.timing then remaining_of c (session_duration_ms c.timing) now else none

abbrev pub is_due : Option ℕ → ℕ → Bool
is_due none now = false
is_due (some deadline) now = leb deadline now

unfoldable pub is_attempt_overdue : AttemptClock → ℕ → Bool
unfolding attempt_deadline_ms
is_attempt_overdue c now = is_due (attempt_deadline_ms c) now

unfoldable pub individual_deadline_from : SessionTiming → ℕ → Option ℕ
unfolding session_duration_ms
individual_deadline_from t started =
    if is_individual t.execution_mode
    then (elim (session_duration_ms t) [ none ↦ none | some d ↦ some (started + d) ])
    else none

pub record PausedClock : Type 0 where
  pub consumed_ms : ℕ
  pub paused_at_ms : ℕ

-- `durationMs - (deadline - atMs)` cut off at 0 is `durationMs + atMs - deadline`.
unfoldable pub pause_attempt_clock : AttemptClock → ℕ → PausedClock
unfolding session_duration_ms
pause_attempt_clock c at =
    let duration = or_default (session_duration_ms c.timing) 0 in
    let deadline = or_default c.individual_deadline_at_ms at in
    record { consumed_ms = min duration (duration + at - deadline); paused_at_ms = at }

-- The new individual deadline.
unfoldable pub resume_attempt_clock : AttemptClock → ℕ → ℕ
unfolding session_duration_ms
resume_attempt_clock c at = at + (or_default (session_duration_ms c.timing) 0 - c.consumed_ms)

pub data Problem : Type 0 where
  attempt_already_submitted attempt_expired session_not_running : Problem

unfoldable pub attempt_activity_problem :
    AttemptStatus → SessionStatus → AttemptClock → ℕ → Option Problem
unfolding is_attempt_overdue
attempt_activity_problem AttemptStatus.submitted session c now = some attempt_already_submitted
attempt_activity_problem AttemptStatus.in_progress SessionStatus.running c now =
    if is_attempt_overdue c now then some attempt_expired else none
attempt_activity_problem AttemptStatus.in_progress session c now = some session_not_running
attempt_activity_problem status session c now = some attempt_expired
