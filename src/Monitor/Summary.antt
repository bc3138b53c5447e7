-- ===== src/Monitor/Summary.antt =====
-- The numbers of the summary against the rows that the filters pick.
use ambatucode.Common.{
  Bool, if◌then◌else◌, refl, if◌then◌else◌, length, count_where, ℕ, ◌+◌, ◌≡◌, refl, Bool, not, ◌&&◌,
  List, [], ◌∷◌, arith,
}
use ambatucode.Domain.{Presence}
use ambatucode.Monitor.{
  is_unstarted, is_active_phase, is_closed_phase, MonitorRow, MonitorSummary, MonitorFilter,
  AttemptPhase, attempt_phase, count_phase, summarize_onto, summarize_rows, passes_filter, is_here,
}

abbrev pub picked : MonitorFilter → List MonitorRow → ℕ
picked f rows = count_where (passes_filter [] f) rows

-- A row that is worked on by a Coder who is not at its page.
abbrev pub is_away : MonitorRow → Bool
is_away r = passes_filter [] MonitorFilter.working r && not (is_here r.presence)

abbrev one_if : Bool → ℕ
one_if b = if b then 1 else 0

away_one :
    (presence : Presence) (n : ℕ)
    → n + (if is_here presence then 0 else 1) ≡ n + one_if (not (is_here presence))
away_one Presence.here n = refl
away_one Presence.elsewhere n = refl
away_one Presence.offline n = refl

one_phase :
    (p : AttemptPhase)
    → one_if (is_unstarted p) + one_if (is_active_phase p) + one_if (is_closed_phase p) ≡ 1
one_phase AttemptPhase.not_started = omega arith
one_phase AttemptPhase.working = omega arith
one_phase AttemptPhase.paused = omega arith
one_phase AttemptPhase.submitted = omega arith
one_phase AttemptPhase.expired = omega arith

one_row :
    (p : AttemptPhase) (presence : Presence) (s : MonitorSummary)
    → let t = count_phase p presence s in
      (t.total ≡ s.total + 1)
      × (t.not_started ≡ s.not_started + one_if (is_unstarted p))
      × (t.working ≡ s.working + one_if (is_active_phase p))
      × (t.submitted ≡ s.submitted + one_if (is_closed_phase p))
      × (t.away ≡ s.away + one_if (is_active_phase p && not (is_here presence)))
one_row AttemptPhase.not_started presence s = (refl, refl, omega arith, omega arith, omega arith)
one_row AttemptPhase.working presence s =
    (refl, omega arith, refl, omega arith, away_one presence s.away)
one_row AttemptPhase.paused presence s =
    (refl, omega arith, refl, omega arith, away_one presence s.away)
one_row AttemptPhase.submitted presence s = (refl, omega arith, omega arith, refl, omega arith)
one_row AttemptPhase.expired presence s = (refl, omega arith, omega arith, refl, omega arith)

-- Every row is in one of the three phases.
partition :
    (rows : List MonitorRow)
    → picked MonitorFilter.not_started rows
        + picked MonitorFilter.working rows
        + picked MonitorFilter.submitted rows
      ≡ length rows
unfolding passes_filter
partition [] = omega arith
partition (r ∷ rows) = omega (arith, partition rows, one_phase (attempt_phase r))

summary_onto :
    (s : MonitorSummary) (rows : List MonitorRow)
    → let t = summarize_onto s rows in
      (t.total ≡ s.total + length rows)
      × (t.not_started ≡ s.not_started + picked MonitorFilter.not_started rows)
      × (t.working ≡ s.working + picked MonitorFilter.working rows)
      × (t.submitted ≡ s.submitted + picked MonitorFilter.submitted rows)
      × (t.away ≡ s.away + count_where is_away rows)
unfolding passes_filter
summary_onto s [] = (omega arith, omega arith, omega arith, omega arith, omega arith)
summary_onto s (r ∷ rows) =
    let (all, fresh, busy, closed, gone) =
      summary_onto (count_phase (attempt_phase r) r.presence s) rows in
    let (one, fresh_one, busy_one, closed_one, gone_one) = one_row (attempt_phase r) r.presence s in
    (
      omega (arith, all, one),
      omega (arith, fresh, fresh_one),
      omega (arith, busy, busy_one),
      omega (arith, closed, closed_one),
      omega (arith, gone, gone_one),
    )

-- The monitor's summary counts every row once: those not started, worked on and closed are the ones that the
-- filters of those names pick and add up to the total, and those away are the ones worked on whose Coder is not at the page.
pub summary_counts :
    (rows : List MonitorRow)
    → let t = summarize_rows rows in
      (t.not_started ≡ picked MonitorFilter.not_started rows)
      × (t.working ≡ picked MonitorFilter.working rows)
      × (t.submitted ≡ picked MonitorFilter.submitted rows)
      × (t.away ≡ count_where is_away rows)
      × (t.total ≡ length rows)
      × (t.not_started + t.working + t.submitted ≡ t.total)
unfolding summarize_rows
summary_counts rows =
    let (all, fresh, busy, closed, gone) =
      summary_onto (record { total = 0; not_started = 0; working = 0; submitted = 0; away = 0 })
        rows in
    (
      omega (arith, fresh),
      omega (arith, busy),
      omega (arith, closed),
      omega (arith, gone),
      omega (arith, all),
      omega (arith, all, fresh, busy, closed, partition rows),
    )
