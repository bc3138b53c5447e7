-- ===== src/Readiness/Tests.antt =====
-- A board and a roster.
use ambatucode.Common.{
  ◌==◌, any, All, count_where, ℕ, ◌+◌, ◌≤◌, ◌<◌, ◌≡◌, refl, ◌↔◌, true, false, ◌||◌, none, List, [],
  ◌∷◌,
}
use ambatucode.Domain.{ReadyState, Presence, EnrollmentStatus, SessionStatus}
use ambatucode.Store.{Enrollment}
use ambatucode.Readiness.{
  ReadinessRow, is_ready, count_readiness, everyone_ready, readiness_state_of, is_entry_of,
  expect_enrolled, roster_entries, from_module, unseen_entry,
}
use ambatucode.Readiness.Laws.{
  shows, is_ready_badge, is_waiting_badge, is_offline_badge, board_agrees, gate_open_iff,
}
use ambatucode.Readiness.Entries.{expects, enrolled_are_expected, nobody_twice}
use ambatucode.Sample.{busy, sample_session}

-- A ready Coder, one who is elsewhere, one who is offline, and an unexpected visitor.
abbrev board : List ReadinessRow
board =
    record { on_roster = true; ready_state = ReadyState.ready; presence = Presence.here }
    ∷ record { on_roster = true; ready_state = ReadyState.ready; presence = Presence.elsewhere }
    ∷ record { on_roster = true; ready_state = ReadyState.ready; presence = Presence.offline }
    ∷ record { on_roster = false; ready_state = ReadyState.ready; presence = Presence.here }
    ∷ []

board_counts : count_readiness board ≡ record { ready = 1; not_ready = 1; offline = 1; total = 3 }
unfolding count_readiness
board_counts = refl

board_agrees_example :
    ((count_readiness board).ready ≡ count_where (shows is_ready_badge) board)
    × ((count_readiness board).not_ready ≡ count_where (shows is_waiting_badge) board)
    × ((count_readiness board).offline ≡ count_where (shows is_offline_badge) board)
    × ((count_readiness board).ready
          + (count_readiness board).not_ready
          + (count_readiness board).offline
        ≡ (count_readiness board).total)
board_agrees_example = board_agrees board

gate_open_iff_example : (everyone_ready (count_readiness board) ≡ true) ↔ (
    (0 < count_where (λ r. r.on_roster) board)
    × All (λ r. r.on_roster ≡ true → readiness_state_of r.ready_state r.presence ≡ is_ready) board)
gate_open_iff_example = gate_open_iff board

abbrev enrollment : ℕ → Enrollment
enrollment u = record {
  id = u;
  module_id = 3;
  user_id = u;
  status = EnrollmentStatus.approved;
  decided_at = none;
  decided_by = none;
}

enrolled_are_expected_example :
    any (expects 8) (expect_enrolled (enrollment 7 ∷ enrollment 8 ∷ []) (unseen_entry 7 ∷ [])) ≡ (
      any (expects 8) (unseen_entry 7 ∷ [])
      || any (λ e. e.user_id == 8) (enrollment 7 ∷ enrollment 8 ∷ []))
enrolled_are_expected_example =
    enrolled_are_expected 8 (enrollment 7 ∷ enrollment 8 ∷ []) (unseen_entry 7 ∷ [])

nobody_twice_example :
    count_where
      (is_entry_of 1)
      (roster_entries from_module (sample_session SessionStatus.ready) busy)
    ≤ 1
nobody_twice_example = nobody_twice 1 from_module (sample_session SessionStatus.ready) busy
