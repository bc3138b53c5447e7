-- ===== src/Monitor.antt =====
-- The rows of the monitor: apps/web/src/lib/monitor-rows.ts, without the search by name and the sorting, which
-- compare names.
pub mod Summary
mod Tests
use ambatucode.Common.{
  ltb, leb, ◌==◌, if◌then◌else◌, is_some, is_none, or_default, ltb→lt, lt→ltb, leb→le, ==_iff,
  ==_refl, Bool-cases, Option-cases, sum, length, get_elem?, take, every, any, select, All,
  length-append, length-select-le, length-map, find_first, count_where, update_where, pick_later,
  find_last, remove_where, ℕ, zero, suc, ◌+◌, ◌-◌, ◌*◌, ◌/◌, ◌%◌, ◌≤◌, ◌<◌, min, max, ◌≡◌, refl,
  sym, ap, subst, ◌∙◌, ◌≢◌, ◌↔◌, ◌⊎◌, inl, inr, Bool, true, false, not, ◌&&◌, ◌||◌, Option, none,
  some, List, [], ◌∷◌, ◌++◌, map, arith, Error, Result, ok, err, ◌>>=◌, ◌>>◌, refuse_if, or_refuse,
}
use ambatucode.Domain.{AttemptStatus, ReadyState, ConnectionState, Presence}
use ambatucode.Store.{Event, EventType}

pub record MonitorAttempt : Type 0 where
  pub status : AttemptStatus
  pub paused : Bool
  pub remaining_ms : Option ℕ

pub record MonitorRow : Type 0 where
  pub user_id : ℕ
  pub ready_state : ReadyState
  pub connection_state : ConnectionState
  pub presence : Presence
  pub last_seen_at : Option ℕ
  pub attempt : Option MonitorAttempt
  -- The score, where there is a Submission.
  pub submission : Option (Option ℕ)

pub record RowDelta : Type 0 where
  pub user_id : ℕ
  pub ready_state : ReadyState
  pub connection_state : ConnectionState
  pub presence : Presence
  pub last_seen_at : Option ℕ
  pub received_at : ℕ

abbrev pub is_delta_of : ℕ → RowDelta → Bool
is_delta_of u d = d.user_id == u

abbrev pub laid_over : RowDelta → MonitorRow → MonitorRow
laid_over d r = record r {
  ready_state = d.ready_state;
  connection_state = d.connection_state;
  presence = d.presence;
  last_seen_at = d.last_seen_at;
}

abbrev pub merge_row : List RowDelta → ℕ → MonitorRow → MonitorRow
merge_row deltas snapshot_at r = elim (find_first (is_delta_of r.user_id) deltas) [
  | none ↦ r
  | some d ↦ if leb d.received_at snapshot_at then r else laid_over d r
]

unfoldable pub merge_monitor_rows : List MonitorRow → List RowDelta → ℕ → List MonitorRow
merge_monitor_rows base deltas snapshot_at = map (merge_row deltas snapshot_at) base

pub data AttemptPhase : Type 0 where
  not_started working paused submitted expired : AttemptPhase

abbrev phase_of : AttemptStatus → Bool → Bool → AttemptPhase
phase_of AttemptStatus.not_started is_paused has_submission = AttemptPhase.not_started
phase_of AttemptStatus.reset is_paused has_submission = AttemptPhase.not_started
phase_of AttemptStatus.in_progress true has_submission = AttemptPhase.paused
phase_of AttemptStatus.in_progress false has_submission = AttemptPhase.working
phase_of AttemptStatus.expired is_paused false = AttemptPhase.expired
phase_of AttemptStatus.expired is_paused true = AttemptPhase.submitted
phase_of AttemptStatus.submitted is_paused has_submission = AttemptPhase.submitted

unfoldable pub attempt_phase : MonitorRow → AttemptPhase
attempt_phase r = elim r.attempt [
  | none ↦ AttemptPhase.not_started
  | some a ↦ phase_of a.status a.paused (is_some r.submission)
]

abbrev pub is_here : Presence → Bool
is_here Presence.here = true
is_here _ = false

pub record MonitorSummary : Type 0 where
  pub total : ℕ
  pub not_started : ℕ
  pub working : ℕ
  pub submitted : ℕ
  pub away : ℕ

-- One row onto the summary.
abbrev pub count_phase : AttemptPhase → Presence → MonitorSummary → MonitorSummary
count_phase AttemptPhase.not_started presence s = record s {
  total = s.total + 1;
  not_started = s.not_started + 1;
}
count_phase AttemptPhase.working presence s = record s {
  total = s.total + 1;
  working = s.working + 1;
  away = s.away + (if is_here presence then 0 else 1);
}
count_phase AttemptPhase.paused presence s = record s {
  total = s.total + 1;
  working = s.working + 1;
  away = s.away + (if is_here presence then 0 else 1);
}
count_phase _ presence s = record s { total = s.total + 1; submitted = s.submitted + 1 }

abbrev pub summarize_onto : MonitorSummary → List MonitorRow → MonitorSummary
summarize_onto s [] = s
summarize_onto s (r ∷ rows) = summarize_onto (count_phase (attempt_phase r) r.presence s) rows

unfoldable pub summarize_rows : List MonitorRow → MonitorSummary
unfolding attempt_phase
summarize_rows =
    summarize_onto (record { total = 0; not_started = 0; working = 0; submitted = 0; away = 0 })

abbrev pub is_flagged : EventType → Bool
is_flagged EventType.focus_lost = true
is_flagged EventType.clipboard_blocked = true
is_flagged _ = false

-- `flagCounts(events).get(user) ?? 0`
unfoldable pub flag_count : ℕ → List Event → ℕ
flag_count user events =
    count_where (λ e. is_flagged e.type && (elim e.user_id [ none ↦ false | some u ↦ u == user ]))
      events

abbrev pub is_active_phase : AttemptPhase → Bool
is_active_phase AttemptPhase.working = true
is_active_phase AttemptPhase.paused = true
is_active_phase _ = false

unfoldable pub needs_attention : MonitorRow → ℕ → Bool
unfolding attempt_phase
needs_attention r flags =
    (is_active_phase (attempt_phase r) && not (is_here r.presence)) || ltb 0 flags

pub data MonitorFilter : Type 0 where
  all attention not_started working submitted : MonitorFilter

abbrev pub is_closed_phase : AttemptPhase → Bool
is_closed_phase AttemptPhase.submitted = true
is_closed_phase AttemptPhase.expired = true
is_closed_phase _ = false

abbrev pub is_unstarted : AttemptPhase → Bool
is_unstarted AttemptPhase.not_started = true
is_unstarted _ = false

-- The rows that a filter picks, where nothing is searched for.
unfoldable pub passes_filter : List Event → MonitorFilter → MonitorRow → Bool
unfolding attempt_phase needs_attention flag_count
passes_filter events MonitorFilter.all r = true
passes_filter events MonitorFilter.attention r = needs_attention r (flag_count r.user_id events)
passes_filter events MonitorFilter.not_started r = is_unstarted (attempt_phase r)
passes_filter events MonitorFilter.working r = is_active_phase (attempt_phase r)
passes_filter events MonitorFilter.submitted r = is_closed_phase (attempt_phase r)
