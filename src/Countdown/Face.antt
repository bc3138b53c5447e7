-- ===== src/Countdown/Face.antt =====
-- The numbers on the display: formatRemaining of apps/web/src/lib/attempt-clock.ts.
use ambatucode.Common.{ℕ, ◌+◌, ◌*◌, ◌/◌, ◌%◌, ◌≡◌, ◌↔◌, arith}
use ambatucode.Countdown.{format_remaining, whole_seconds}

hours_and_rest : (t : ℕ) → t / 3600 * 3600 + (t / 60) % 60 * 60 + t % 60 ≡ t
hours_and_rest t = omega arith

-- The display adds up to the seconds left, rounded up.
pub face_adds_up :
    (ms : ℕ)
    → (format_remaining ms).hours * 3600
        + (format_remaining ms).minutes * 60
        + (format_remaining ms).seconds
      ≡ whole_seconds ms
unfolding format_remaining
face_adds_up ms = hours_and_rest (whole_seconds ms)

-- The display is at zero only when nothing is left.
pub zero_iff_gone : (ms : ℕ) → (whole_seconds ms ≡ 0) ↔ (ms ≡ 0)
zero_iff_gone ms = (λ e. omega arith, λ e. omega arith)
