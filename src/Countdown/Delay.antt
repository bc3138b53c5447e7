-- ===== src/Countdown/Delay.antt =====
-- What the countdown shows against what the server grants: measureSkew and remainingFrom of
-- apps/web/src/lib/attempt-clock.ts.
use ambatucode.Common.{ℕ, ◌+◌, ◌-◌, ◌≤◌, ◌≡◌, arith}
use ambatucode.Countdown.{measure_skew, remaining_from}

-- The skew takes the reading of the server for the moment of arrival.
pub shown_from :
    (deadline sent received passed : ℕ)
    → remaining_from deadline (measure_skew sent received) (received + passed)
      ≡ deadline - (sent + passed)
unfolding remaining_from measure_skew
shown_from deadline sent received passed = ground arith

-- When a deadline and the server's time of sending came in a message that was under way for a
-- delay, the countdown of the browser, however its clock differs from the server's, shows at any
-- later moment no less than the time that is left on the server, and at most the delay more.
pub shows_delay_more :
    (deadline sent received delay passed : ℕ)
    → (deadline - (sent + delay + passed)
        ≤ remaining_from deadline (measure_skew sent received) (received + passed))
      × (remaining_from deadline (measure_skew sent received) (received + passed)
          ≤ deadline - (sent + delay + passed) + delay)
shows_delay_more deadline sent received delay passed =
    rw (shown_from deadline sent received passed) (omega arith, omega arith)
