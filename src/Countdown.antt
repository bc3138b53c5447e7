-- ===== src/Countdown.antt =====
-- The countdown of the browser, apps/web/src/lib/attempt-clock.ts, without the words read aloud. The skew
-- between two clocks may be negative, so it is an integer.
pub mod Delay
pub mod Face
mod Tests
use ambatucode.Common.{
  ltb, leb, ◌==◌, if◌then◌else◌, is_some, is_none, or_default, ltb→lt, lt→ltb, leb→le, ==_iff,
  ==_refl, Bool-cases, Option-cases, sum, length, get_elem?, take, every, any, select, All,
  length-append, length-select-le, length-map, find_first, count_where, update_where, pick_later,
  find_last, remove_where, ℕ, zero, suc, ◌+◌, ◌-◌, ◌*◌, ◌/◌, ◌%◌, ◌≤◌, ◌<◌, min, max, ◌≡◌, refl,
  sym, ap, subst, ◌∙◌, ◌≢◌, ◌↔◌, ◌⊎◌, inl, inr, Bool, true, false, not, ◌&&◌, ◌||◌, Option, none,
  some, List, [], ◌∷◌, ◌++◌, map, arith, Error, Result, ok, err, ◌>>=◌, ◌>>◌, refuse_if, or_refuse,
}
use ambatucode.Common.Int.{ℤ, sub_ℕ, pos_part, neg_part}

-- `TIMER_WARNING_MS`
abbrev pub timer_warning_ms : ℕ
timer_warning_ms = 5 * 60000

-- `TIMER_DANGER_MS`
abbrev pub timer_danger_ms : ℕ
timer_danger_ms = 60000

pub data TimerTier : Type 0 where
  normal warning danger expired : TimerTier

unfoldable pub measure_skew : ℕ → ℕ → ℤ
measure_skew server_time received_at = sub_ℕ server_time received_at

-- `deadline - (now + skew)`, cut off at 0.
unfoldable pub remaining_from : ℕ → ℤ → ℕ → ℕ
remaining_from deadline skew now = deadline + neg_part skew - (now + pos_part skew)

unfoldable pub timer_tier : ℕ → TimerTier
timer_tier remaining =
    if leb remaining 0
    then TimerTier.expired
    else (if leb remaining timer_danger_ms
        then TimerTier.danger
        else (if leb remaining timer_warning_ms then TimerTier.warning else TimerTier.normal))

-- The three numbers of the display, which shows the hours only when there are any.
pub record ClockFace : Type 0 where
  pub hours : ℕ
  pub minutes : ℕ
  pub seconds : ℕ

-- `Math.ceil(ms / 1000)`
abbrev pub whole_seconds : ℕ → ℕ
whole_seconds ms = (ms + 999) / 1000

unfoldable pub format_remaining : ℕ → ClockFace
format_remaining ms = record {
  hours = whole_seconds ms / 3600;
  minutes = (whole_seconds ms / 60) % 60;
  seconds = whole_seconds ms % 60;
}

abbrev pub is_tier : TimerTier → TimerTier → Bool
is_tier TimerTier.normal TimerTier.normal = true
is_tier TimerTier.warning TimerTier.warning = true
is_tier TimerTier.danger TimerTier.danger = true
is_tier TimerTier.expired TimerTier.expired = true
is_tier _ _ = false

unfoldable pub should_announce_tier : TimerTier → List TimerTier → Bool
should_announce_tier TimerTier.normal announced = false
should_announce_tier TimerTier.expired announced = false
should_announce_tier tier announced = not (any (is_tier tier) announced)
