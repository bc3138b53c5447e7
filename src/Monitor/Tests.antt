-- ===== src/Monitor/Tests.antt =====
-- The monitor's rows on concrete ones.
use ambatucode.Common.{◌≡◌, refl, Bool, true, false, none, some, [], ◌∷◌, map}
use ambatucode.Domain.{AttemptStatus, ReadyState, ConnectionState, Presence}
use ambatucode.Monitor.{
  MonitorRow, RowDelta, merge_monitor_rows, summarize_rows, attempt_phase, needs_attention,
}

abbrev row_of : AttemptStatus → Bool → Presence → MonitorRow
row_of status paused presence = record {
  user_id = 1;
  ready_state = ReadyState.ready;
  connection_state = ConnectionState.online;
  presence = presence;
  last_seen_at = none;
  attempt = some (record { status = status; paused = paused; remaining_ms = none });
  submission = none;
}

abbrev gone : RowDelta
gone = record {
  user_id = 1;
  ready_state = ReadyState.not_ready;
  connection_state = ConnectionState.offline;
  presence = Presence.offline;
  last_seen_at = some 900;
  received_at = 1000;
}

-- A delta that is no newer than the snapshot is passed over, and a newer one wins.
older_delta :
    map
      (λ r. r.presence)
      (merge_monitor_rows
        (row_of AttemptStatus.in_progress false Presence.here ∷ [])
        (gone ∷ [])
        1000)
    ≡ Presence.here ∷ []
unfolding merge_monitor_rows
older_delta = refl

newer_delta :
    map
      (λ r. r.presence)
      (merge_monitor_rows
        (row_of AttemptStatus.in_progress false Presence.here ∷ [])
        (gone ∷ [])
        999)
    ≡ Presence.offline ∷ []
unfolding merge_monitor_rows
newer_delta = refl

-- An attempt that expired without a Submission is counted as closed.
closed_counted :
    (summarize_rows (row_of AttemptStatus.expired false Presence.offline ∷ [])).submitted ≡ 1
unfolding summarize_rows attempt_phase
closed_counted = refl

away_flagged : needs_attention (row_of AttemptStatus.in_progress true Presence.elsewhere) 0 ≡ true
unfolding needs_attention attempt_phase
away_flagged = refl
