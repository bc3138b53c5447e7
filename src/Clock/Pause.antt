-- ===== src/Clock/Pause.antt =====
-- Pausing and resuming an Individual clock, and what a Coder gets over any number of both. The rows
-- that `pauseIfIndividual` and `resumeIfPaused` of apps/realtime/src/assessment.ts write are
-- `with_pause` and `with_resume`.
use ambatucode.Common.{ℕ, ◌+◌, ◌-◌, ◌*◌, ◌≤◌, ◌<◌, ◌≡◌, false, none, some, arith}
use ambatucode.Domain.{ExecutionMode}
use ambatucode.Clock.{
  AttemptClock, PausedClock, attempt_deadline_ms, attempt_remaining_ms, is_attempt_overdue,
  pause_attempt_clock, resume_attempt_clock,
}

unfoldable pub with_pause : AttemptClock → PausedClock → AttemptClock
with_pause c p = record c { paused_at_ms = some p.paused_at_ms; consumed_ms = p.consumed_ms }

unfoldable pub with_resume : AttemptClock → ℕ → AttemptClock
with_resume c deadline = record c { individual_deadline_at_ms = some deadline; paused_at_ms = none }

-- An Individual clock of `m` minutes.
pub record IsIndividual (c : AttemptClock) (m : ℕ) : Type 0 where
  pub individual : c.execution_mode ≡ some ExecutionMode.individual
  pub minutes : c.duration_minutes ≡ some m

-- An Individual clock that is running towards `d`, with no more than its duration left.
pub record IsRunningTo (c : AttemptClock) (m d now : ℕ) : Type 0 where
  pub mode : IsIndividual c m
  pub active : c.paused_at_ms ≡ none
  pub towards : c.individual_deadline_at_ms ≡ some d
  pub within : d ≤ now + m * 60000

-- A paused Individual clock that was running towards its deadline has no deadline and is never
-- overdue, and at every later moment it reports the time that was left when it was paused.
pub pause_freezes :
    (c : AttemptClock) (m d at now : ℕ)
    → IsRunningTo c m d at
    → let p = with_pause c (pause_attempt_clock c at) in
      (attempt_deadline_ms p ≡ none)
      × (is_attempt_overdue p now ≡ false)
      × (attempt_remaining_ms p now ≡ attempt_remaining_ms c at)
unfolding with_pause pause_attempt_clock attempt_remaining_ms is_attempt_overdue
pause_freezes c m d at now h = ground arith

-- For an Individual clock that runs towards its deadline, a pause before the deadline and a resume
-- move the deadline by the length of the pause.
pub resume-pause :
    (c : AttemptClock) (m d at later : ℕ)
    → IsRunningTo c m d at
    → at ≤ d
    → resume_attempt_clock (with_pause c (pause_attempt_clock c at)) later ≡ later + (d - at)
unfolding with_pause pause_attempt_clock resume_attempt_clock
resume-pause c m d at later h k = ground arith

-- An Individual clock whose deadline is the end of its session runs, after a pause that takes time,
-- towards a moment after that end.
pub resume_outlives_session :
    (c : AttemptClock) (m end at later : ℕ)
    → IsRunningTo c m end at
    → c.ends_at_ms ≡ some end
    → at ≤ end
    → at < later
    → end < resume_attempt_clock (with_pause c (pause_attempt_clock c at)) later
resume_outlives_session c m end at later h e k l =
    rw (resume-pause c m end at later h k) (omega arith)
