-- ===== src/Clock/Tests.antt =====
-- The clock at concrete moments.
use ambatucode.Common.{◌+◌, ◌<◌, ◌≡◌, refl, ◌↔◌, true, false, none, some, arith}
use ambatucode.Domain.{ExecutionMode}
use ambatucode.Clock.{
  AttemptClock, attempt_deadline_ms, attempt_remaining_ms, is_attempt_overdue, pause_attempt_clock,
  resume_attempt_clock,
}
use ambatucode.Clock.Laws.{overdue_iff_nothing_left}
use ambatucode.Clock.Pause.{with_pause, pause_freezes, resume_outlives_session, IsRunningTo}
use ambatucode.Clock.Budget.{Sitting, Step, here, next, IsSound, left, reach_conserves}

-- A clock of one minute, started at 1000.
abbrev minute : AttemptClock
minute = record {
  timing = record {
    execution_mode = some ExecutionMode.individual;
    duration_minutes = some 1;
    ends_at_ms = none;
  };
  individual_deadline_at_ms = some 61000;
  paused_at_ms = none;
  consumed_ms = 0;
}

-- The same, in a session that ends at 61000.
abbrev closing : AttemptClock
closing = record minute {
  timing = record {
    execution_mode = some ExecutionMode.individual;
    duration_minutes = some 1;
    ends_at_ms = some 61000;
  };
}

overdue_iff_nothing_left_example :
    (is_attempt_overdue minute 61000 ≡ true) ↔ (attempt_remaining_ms minute 61000 ≡ some 0)
overdue_iff_nothing_left_example = overdue_iff_nothing_left minute 61000 refl

minute-IsRunningTo : IsRunningTo minute 1 61000 21000
minute-IsRunningTo = record {
  mode = record { individual = refl; minutes = refl };
  active = refl;
  towards = refl;
  within = omega arith;
}

closing-IsRunningTo : IsRunningTo closing 1 61000 21000
closing-IsRunningTo = record {
  mode = record { individual = refl; minutes = refl };
  active = refl;
  towards = refl;
  within = omega arith;
}

pause_freezes_example :
    let p = with_pause minute (pause_attempt_clock minute 21000) in
    (attempt_deadline_ms p ≡ none)
    × (is_attempt_overdue p 99000 ≡ false)
    × (attempt_remaining_ms p 99000 ≡ attempt_remaining_ms minute 21000)
pause_freezes_example = pause_freezes minute 1 61000 21000 99000 minute-IsRunningTo

resume_outlives_session_example :
    61000 < resume_attempt_clock (with_pause closing (pause_attempt_clock closing 21000)) 99000
resume_outlives_session_example =
    resume_outlives_session closing 1 61000 21000 99000 closing-IsRunningTo refl (omega arith)
      (omega arith)

abbrev begin : Sitting
begin = record { clock = minute; now = 1000; worked = 0 }

abbrev worked : Sitting
worked = record { clock = minute; now = 21000; worked = 20000 }

begin-IsSound : IsSound 1 begin
begin-IsSound = record {
  mode = record { individual = refl; minutes = refl };
  deadline = 61000;
  has_deadline = refl;
  consumed_within = omega arith;
  left_within = λ e. omega arith;
}

reach_conserves_example : worked.worked + left worked ≡ begin.worked + left begin
reach_conserves_example =
    reach_conserves 1 (next here (Step.work 61000 20000 refl refl (omega arith) refl)) begin-IsSound
