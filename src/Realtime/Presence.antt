-- ===== src/Realtime/Presence.antt =====
-- The rows that this instance vouches for, and the ticks: refreshPresence, tick and socketsBoundTo of
-- apps/realtime/src/assessment.ts. The refresh of the platform's presence in Redis is not modelled.
use ambatucode.Common.{
  true, false, or_default, ltb, ◌==◌, if◌then◌else◌, is_none, or_default, take, any, select,
  find_first, ℕ, ◌-◌, Bool, true, false, ◌&&◌, Option, none, some, List, [], ◌∷◌, ◌++◌, map,
}
use ambatucode.Domain.{ConnectionState, is_in_progress}
use ambatucode.Clock.{attempt_remaining_ms}
use ambatucode.Store.{
  World, Participant, Attempt, EventType, is_participant, is_sibling, find_session,
}
use ambatucode.Access.{AttemptScope}
use ambatucode.Attempts.Activity.{clock_for}
use ambatucode.Realtime.State.{
  Hub, holds, emit, log_event, monitor_participant, session_state, attempt_tick,
}
use ambatucode.Realtime.Clocks.{pause_if_individual, own_scope}
use ambatucode.Realtime.Departures.{write_participants, release_lobby}

abbrev pub is_online : ConnectionState → Bool
is_online ConnectionState.online = true
is_online ConnectionState.offline = false

abbrev pub is_held_in : List ℕ → Option ℕ → Bool
is_held_in sockets none = false
is_held_in sockets (some i) = holds i sockets

abbrev held_sockets : Hub → List ℕ
held_sockets h = map (λ e. e.key) h.bound_attempts ++ map (λ e. e.key) h.lobbies

abbrev pub touch : ℕ → Participant → Participant
touch now p = record p { last_seen_at = some now }

abbrev pub is_before : ℕ → Option ℕ → Bool
is_before cutoff none = true
is_before cutoff (some at) = ltb at cutoff

-- Online, and not refreshed since the cutoff.
abbrev pub is_stale : ℕ → Participant → Bool
is_stale cutoff p = is_online p.connection_state && is_before cutoff p.last_seen_at

-- Equality with a connection that may be null.
abbrev same_connection : Option ℕ → Option ℕ → Bool
same_connection none none = true
same_connection (some i) (some j) = i == j
same_connection _ _ = false

-- The row as it was read, still online on the same connection.
abbrev pub is_unchanged : Participant → Participant → Bool
is_unchanged row p =
    is_participant row.session_id row.user_id p
    && is_online p.connection_state
    && same_connection p.active_connection row.active_connection

abbrev is_open_of : Participant → Attempt → Bool
is_open_of row a = is_sibling row.session_id row.user_id a && is_in_progress a.status

abbrev pause_lost : Option AttemptScope → ℕ → Hub → Hub
pause_lost none at h = h
pause_lost (some scope) at h = pause_if_individual scope at h

abbrev pub log_lost : Participant → ℕ → Option Attempt → Hub → Hub
log_lost row at none h = h
log_lost row at (some a) h =
    pause_lost (own_scope row.user_id h.world a) at
      (log_event row.session_id EventType.disconnected row.user_id a.id at h)

-- Whether the row was released, and the hub after it.
abbrev pub retire : Participant → ℕ → Hub → Bool × Hub
retire row now h =
    if any (is_unchanged row) h.world.participants
    then (let released = write_participants (is_unchanged row) release_lobby h in
        (
          true,
          emit (monitor_participant row.session_id row.user_id) (
              log_lost row (or_default row.last_seen_at now)
                (find_first (is_open_of row) released.world.attempts) released),
        ))
    else (false, h)

-- A socket that some instance still holds is vouched for in place of being retired.
unfoldable pub settle_stale : Participant → ℕ → Hub → Bool × Hub
unfolding pause_if_individual
settle_stale row now h =
    if is_held_in h.connected row.active_connection
    then (
      false,
      write_participants
          (λ p.
            is_participant row.session_id row.user_id p
            && same_connection p.active_connection row.active_connection)
          (touch now) h,
    )
    else retire row now h

-- `touched.add(id)`
abbrev add_touched : ℕ → List ℕ → List ℕ
add_touched i touched = if holds i touched then touched else touched ++ (i ∷ [])

-- The sessions that lost somebody, and the hub after it.
abbrev pub settle_each : List Participant → ℕ → List ℕ → Hub → List ℕ × Hub
settle_each [] now touched h = (touched, h)
settle_each (row ∷ rows) now touched h =
    let (gone, after) = settle_stale row now h in
    settle_each rows now (if gone then add_touched row.session_id touched else touched) after

abbrev announce_each : List ℕ → Hub → Hub
announce_each [] h = h
announce_each (i ∷ is) h = announce_each is (emit (session_state i) h)

unfoldable pub refresh_presence : ℕ → ℕ → Hub → Hub
unfolding settle_stale
refresh_presence now stale_ms h =
    let vouched =
      write_participants
        (λ p. is_held_in (held_sockets h) p.active_connection && is_online p.connection_state)
        (touch now) h in
    let (touched, settled) =
      settle_each (take 500 (select (is_stale (now - stale_ms)) vouched.world.participants)) now []
        vouched in
    announce_each touched settled

unfoldable pub sockets_bound_to : ℕ → Hub → List ℕ
sockets_bound_to attempt h =
    map (λ e. e.key) (select (λ e. e.value.attempt_id == attempt) h.bound_attempts)

abbrev emit_each : List ℕ → ℕ → Hub → Hub
emit_each [] remaining h = h
emit_each (i ∷ is) remaining h = emit_each is remaining (emit (attempt_tick i remaining) h)

-- The time left of a row whose clock runs.
abbrev pub left_of : Attempt → ℕ → World → Option ℕ
left_of a now w =
    if is_in_progress a.status && is_none a.paused_at
    then (elim (find_session a.session_id w) [
      | none ↦ none
      | some s ↦ attempt_remaining_ms (clock_for a s) now
    ])
    else none

abbrev tick_rows : List Attempt → ℕ → Hub → Hub
tick_rows [] now h = h
tick_rows (a ∷ rows) now h = tick_rows rows now (elim (left_of a now h.world) [
  | none ↦ h
  | some remaining ↦ emit_each (sockets_bound_to a.id h) remaining h
])

unfoldable pub tick : ℕ → Hub → Hub
unfolding sockets_bound_to attempt_remaining_ms
tick now h =
    tick_rows
      (select (λ a. any (λ e. e.value.attempt_id == a.id) h.bound_attempts) h.world.attempts) now h
