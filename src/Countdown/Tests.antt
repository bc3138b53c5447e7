-- ===== src/Countdown/Tests.antt =====
-- Runs of the countdown of apps/web/src/lib/attempt-clock.ts.
use ambatucode.Common.{◌+◌, ◌-◌, ◌≤◌, ◌≡◌, refl, false, [], ◌∷◌}
use ambatucode.Countdown.{
  TimerTier, measure_skew, remaining_from, timer_tier, format_remaining, should_announce_tier,
}
use ambatucode.Countdown.Delay.{shows_delay_more}

-- The browser runs five seconds behind the server.
behind : remaining_from 60000 (measure_skew 15000 10000) 20000 ≡ 35000
unfolding remaining_from measure_skew
behind = refl

an_hour : format_remaining 3661001 ≡ record { hours = 1; minutes = 1; seconds = 2 }
unfolding format_remaining
an_hour = refl

told_once :
    should_announce_tier (timer_tier 60000) (TimerTier.warning ∷ TimerTier.danger ∷ []) ≡ false
unfolding should_announce_tier timer_tier
told_once = refl

shows_delay_more_example :
    (60000 - (15000 + 300 + 10000)
      ≤ remaining_from 60000 (measure_skew 15000 10000) (10000 + 10000))
    × (remaining_from 60000 (measure_skew 15000 10000) (10000 + 10000)
        ≤ 60000 - (15000 + 300 + 10000) + 300)
shows_delay_more_example = shows_delay_more 60000 15000 10000 300 10000
