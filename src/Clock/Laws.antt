-- ===== src/Clock/Laws.antt =====
-- What a clock tells at any moment: its deadline, the time left, and whether work is accepted.
use ambatucode.Common.{ℕ, ◌≡◌, ◌↔◌, true, false, none, some, arith}
use ambatucode.Domain.{SessionStatus, AttemptStatus}
use ambatucode.Clock.{
  AttemptClock, attempt_remaining_ms, is_attempt_overdue, attempt_activity_problem,
}

-- An attempt that is not paused is overdue exactly when it has a time left to report and that time
-- is 0.
pub overdue_iff_nothing_left :
    (c : AttemptClock) (now : ℕ)
    → c.paused_at_ms ≡ none
    → (is_attempt_overdue c now ≡ true) ↔ (attempt_remaining_ms c now ≡ some 0)
unfolding is_attempt_overdue attempt_remaining_ms
overdue_iff_nothing_left c now h = ground arith

-- There is no objection to work on an attempt exactly when the attempt is in progress, its session
-- is running and its clock is not overdue.
pub activity_accepted_iff :
    (status : AttemptStatus) (session : SessionStatus) (c : AttemptClock) (now : ℕ)
    → (attempt_activity_problem status session c now ≡ none) ↔ (
        (status ≡ AttemptStatus.in_progress)
        × (session ≡ SessionStatus.running)
        × (is_attempt_overdue c now ≡ false))
unfolding attempt_activity_problem
activity_accepted_iff status session c now = ground arith
