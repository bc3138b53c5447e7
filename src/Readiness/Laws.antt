-- ===== src/Readiness/Laws.antt =====
-- The counts of the board, the badge beside a name and the gate at Start agree.
use ambatucode.Common.{
  if◌then◌else◌, Bool-cases, All, count_where, ◌+◌, ◌<◌, ◌≡◌, refl, ap, ◌↔◌, inl, inr, Bool, true,
  false, not, ◌&&◌, List, [], ◌∷◌, arith,
}
use ambatucode.Common.Counting.{All-of, count-le}
use ambatucode.Readiness.{
  ReadinessRow, SessionCounts, ReadinessState, is_ready, is_offline, count_row, count_onto,
  count_readiness, everyone_ready, readiness_state_of,
}

-- Whether a badge is the one for a bucket: a Coder on another page counts as not ready.
abbrev pub is_ready_badge : ReadinessState → Bool
is_ready_badge is_ready = true
is_ready_badge _ = false

abbrev pub is_offline_badge : ReadinessState → Bool
is_offline_badge is_offline = true
is_offline_badge _ = false

abbrev pub shows : (ReadinessState → Bool) → ReadinessRow → Bool
shows badge r = r.on_roster && badge (readiness_state_of r.ready_state r.presence)

abbrev pub is_waiting_badge : ReadinessState → Bool
is_waiting_badge b = not (is_ready_badge b) && not (is_offline_badge b)

onto :
    (c : SessionCounts) (rows : List ReadinessRow)
    → ((count_onto c rows).ready ≡ c.ready + count_where (shows is_ready_badge) rows)
      × ((count_onto c rows).not_ready ≡ c.not_ready + count_where (shows is_waiting_badge) rows)
      × ((count_onto c rows).offline ≡ c.offline + count_where (shows is_offline_badge) rows)
      × ((count_onto c rows).total ≡ c.total + count_where (λ r. r.on_roster) rows)
unfolding readiness_state_of
onto c [] = (omega arith, omega arith, omega arith, omega arith)
onto c (r ∷ rows) =
    let next = if r.on_roster then count_row r.presence r.ready_state c else c in
    let (ready, waiting, offline, total) = onto next rows in
    (ground (arith, ready), ground (arith, waiting), ground (arith, offline), ground (arith, total))

-- Each number of the readiness board is the number of Coders on the roster whose badge says so, a
-- Coder on another page counting as not ready, and the three numbers add up to the total.
pub board_agrees :
    (rows : List ReadinessRow)
    → ((count_readiness rows).ready ≡ count_where (shows is_ready_badge) rows)
      × ((count_readiness rows).not_ready ≡ count_where (shows is_waiting_badge) rows)
      × ((count_readiness rows).offline ≡ count_where (shows is_offline_badge) rows)
      × ((count_readiness rows).ready
            + (count_readiness rows).not_ready
            + (count_readiness rows).offline
          ≡ (count_readiness rows).total)
unfolding count_readiness
board_agrees rows =
    let (ready, waiting, offline, total) =
      onto (record { ready = 0; not_ready = 0; offline = 0; total = 0 }) rows in
    (
      omega (arith, ready),
      omega (arith, waiting),
      omega (arith, offline),
      omega (arith, ready, waiting, offline, total, partition rows),
    )
  where
    partition :
        (xs : List ReadinessRow)
        → count_where (shows is_ready_badge) xs
            + count_where (shows is_waiting_badge) xs
            + count_where (shows is_offline_badge) xs
          ≡ count_where (λ r. r.on_roster) xs
    partition [] = omega arith
    partition (x ∷ xs) = ground (arith, partition xs)

all_shown :
    (rows : List ReadinessRow)
    → count_where (shows is_ready_badge) rows ≡ count_where (λ r. r.on_roster) rows
    → All (λ r. r.on_roster ≡ true → readiness_state_of r.ready_state r.presence ≡ is_ready) rows
unfolding readiness_state_of
all_shown [] e = tt
all_shown (r ∷ rows) e =
    let fewer =
      count-le (shows is_ready_badge) (λ x. x.on_roster) rows (All-of rows (λ x h. ground arith)) in
    (ground (arith, fewer), all_shown rows (ground (arith, fewer)))

-- The counts say that everyone is ready exactly when somebody is on the roster and every Coder on
-- it has the badge READY.
pub gate_open_iff :
    (rows : List ReadinessRow)
    → (everyone_ready (count_readiness rows) ≡ true) ↔ (
        (0 < count_where (λ r. r.on_roster) rows)
        × All
            (λ r. r.on_roster ≡ true → readiness_state_of r.ready_state r.presence ≡ is_ready)
            rows)
unfolding everyone_ready count_readiness
gate_open_iff rows =
    let (ready, _, _, total) =
      onto (record { ready = 0; not_ready = 0; offline = 0; total = 0 }) rows in
    (
      λ h. (ground (arith, total), all_shown rows (ground (arith, ready, total))),
      λ (some_one, all). ground (arith, ready, total, shown rows all),
    )
  where
    shown :
        (xs : List ReadinessRow)
        → All (λ r. r.on_roster ≡ true → readiness_state_of r.ready_state r.presence ≡ is_ready) xs
        → count_where (shows is_ready_badge) xs ≡ count_where (λ r. r.on_roster) xs
    shown [] all = refl
    shown (x ∷ xs) all = elim (Bool-cases x.on_roster) [
      | inl expected ↦ rw (expected, all.0 expected) (ap (λ k. 1 + k) (shown xs all.1))
      | inr other ↦ rw other (ap (λ k. 0 + k) (shown xs all.1))
    ]
