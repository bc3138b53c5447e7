-- ===== src/Realtime/Departures.antt =====
-- Going away, debounced: settleDisconnect, settleLobbyDisconnect, scheduleAttemptSettle,
-- scheduleLobbySettle, handleDisconnect, handleAttemptLeave and handleLobbyLeave of
-- apps/realtime/src/assessment.ts. The timer of a departure is its entry; clearing it removes the entry, and
-- when it fires, the settle runs.
use ambatucode.Common.{
  ◌==◌, if◌then◌else◌, is_none, any, select, update_where, remove_where, ℕ, Bool, true, false, not,
  ◌&&◌, Option, none, some, List, [], ◌∷◌,
}
use ambatucode.Domain.{ReadyState, ConnectionState}
use ambatucode.Store.{Participant, EventType, is_participant}
use ambatucode.Realtime.State.{
  Hub, Socket, Bound, Lobby, Departure, LobbyDeparture, attempt_page, lobby_page,
  monitor_participant, session_state, lookup, delete, put, holds, emit, in_world, log_event,
  leave_visit, lobbies_of, is_lobby_departure, cancel_lobby_settle,
}
use ambatucode.Realtime.Clocks.{load_own_attempt, pause_if_individual}

-- The participant's row, where this socket still holds it.
abbrev pub is_held_by : ℕ → ℕ → ℕ → Participant → Bool
is_held_by session user socket p =
    is_participant session user p
    && (elim p.active_connection [ none ↦ false | some i ↦ i == socket ])

abbrev pub release : Participant → Participant
release p = record p { active_connection = none; connection_state = ConnectionState.offline }

abbrev pub release_lobby : Participant → Participant
release_lobby p = record (release p) { ready_state = ReadyState.not_ready }

abbrev pub write_participants : (Participant → Bool) → (Participant → Participant) → Hub → Hub
write_participants p f = in_world (λ w. record w { participants = update_where p f w.participants })

abbrev pub is_departure_of : ℕ → ℕ → Hub → Bool
is_departure_of attempt socket h = elim (lookup attempt h.pending_disconnects) [
  | none ↦ false
  | some d ↦ d.socket_id == socket
]

abbrev pub forget_departure : ℕ → ℕ → Hub → Hub
forget_departure attempt socket h =
    if is_departure_of attempt socket h
    then record h { pending_disconnects = delete attempt h.pending_disconnects }
    else h

abbrev pub pause_own : ℕ → ℕ → ℕ → Hub → Hub
pause_own attempt user at h = elim (load_own_attempt attempt user h.world) [
  | none ↦ h
  | some row ↦ pause_if_individual row at h
]

-- What follows the release of the row.
abbrev pub after_release : Departure → Hub → Hub
after_release d h = emit (monitor_participant d.bound.session_id d.bound.user_id) (
    pause_own d.bound.attempt_id d.bound.user_id d.at_ms (
      log_event d.bound.session_id EventType.disconnected d.bound.user_id d.bound.attempt_id d.at_ms
        (write_participants (is_held_by d.bound.session_id d.bound.user_id d.socket_id) release h)))

-- The source waits after the release of the row: `after_release` is what follows, and here no other event
-- comes between.
unfoldable pub settle_disconnect : Departure → Hub → Hub
unfolding load_own_attempt pause_if_individual
settle_disconnect d h =
    let waiting = forget_departure d.bound.attempt_id d.socket_id h in
    if any (is_held_by d.bound.session_id d.bound.user_id d.socket_id) waiting.world.participants
    then after_release d waiting
    else waiting

abbrev is_rebound : ℕ → ℕ → Hub → Bool
is_rebound socket session h = elim (lookup socket h.bound_attempts) [
  | none ↦ false
  | some b ↦ b.session_id == session
]

unfoldable pub settle_lobby_disconnect : LobbyDeparture → Hub → Hub
settle_lobby_disconnect d h =
    let waiting = record h {
      pending_lobby_disconnects =
          remove_where (is_lobby_departure d.lobby.session_id d.lobby.user_id)
            h.pending_lobby_disconnects;
    } in
    if is_rebound d.socket_id d.lobby.session_id waiting
    then waiting
    else (if any (is_held_by d.lobby.session_id d.lobby.user_id d.socket_id)
          waiting.world.participants
        then emit (session_state d.lobby.session_id) (
            emit (monitor_participant d.lobby.session_id d.lobby.user_id) (
              write_participants (is_held_by d.lobby.session_id d.lobby.user_id d.socket_id)
                release_lobby waiting))
        else waiting)

unfoldable pub schedule_attempt_settle : Departure → Hub → Hub
schedule_attempt_settle d h = record h {
  pending_disconnects = put d.bound.attempt_id d h.pending_disconnects;
}

unfoldable pub schedule_lobby_settle : ℕ → Lobby → Hub → Hub
unfolding cancel_lobby_settle
schedule_lobby_settle socket lobby h =
    let cleared = cancel_lobby_settle lobby.session_id lobby.user_id h in
    record cleared {
      pending_lobby_disconnects =
          record { lobby = lobby; socket_id = socket } ∷ cleared.pending_lobby_disconnects;
    }

abbrev pub schedule_lobbies : ℕ → List Lobby → Hub → Hub
schedule_lobbies socket [] h = h
schedule_lobbies socket (l ∷ ls) h = schedule_lobbies socket ls (schedule_lobby_settle socket l h)

abbrev depart : Option Bound → ℕ → ℕ → Bool → Hub → Hub
depart none socket at left h = h
depart (some b) socket at left h =
    schedule_attempt_settle (record { bound = b; socket_id = socket; at_ms = at; has_left = left })
      h

unfoldable pub handle_disconnect : Socket → ℕ → Hub → Hub
unfolding schedule_attempt_settle schedule_lobby_settle
handle_disconnect s at h =
    let unbound = record h {
      bound_attempts = delete s.id h.bound_attempts;
      superseded = remove_where (λ i. i == s.id) h.superseded;
      connected = remove_where (λ i. i == s.id) h.connected;
    } in
    let gone =
      if holds s.id h.superseded
      then unbound
      else depart (lookup s.id h.bound_attempts) s.id at false unbound in
    let left = schedule_lobbies s.id (lobbies_of s.id h) gone in
    record left {
      lobbies = delete s.id left.lobbies;
      visits = remove_where (λ v. v.socket_id == s.id) left.visits;
    }

abbrev works_on : ℕ → Option Bound → Bool
works_on attempt none = false
works_on attempt (some b) = b.attempt_id == attempt

abbrev is_lobby_of : ℕ → Lobby → Bool
is_lobby_of attempt l = elim l.attempt_id [ none ↦ false | some i ↦ i == attempt ]

abbrev is_waiting_room : ℕ → Lobby → Bool
is_waiting_room session l = l.session_id == session && is_none l.attempt_id

-- Leaving the lobbies that pass the test, and staying in the others.
abbrev leave_lobbies : (Lobby → Bool) → ℕ → Hub → Hub
leave_lobbies p socket h =
    let joined = lobbies_of socket h in
    let left = schedule_lobbies socket (select p joined) h in
    record left { lobbies = put socket (select (λ l. not (p l)) joined) left.lobbies }

unfoldable pub handle_attempt_leave : Socket → ℕ → ℕ → Hub → Hub
unfolding leave_visit schedule_attempt_settle schedule_lobby_settle
handle_attempt_leave s attempt at h =
    let seen = record h { visits = leave_visit s.id (attempt_page attempt) h.visits } in
    if works_on attempt (lookup s.id h.bound_attempts)
    then depart (lookup s.id h.bound_attempts) s.id at true
        (record seen { bound_attempts = delete s.id h.bound_attempts })
    else leave_lobbies (is_lobby_of attempt) s.id seen

unfoldable pub handle_lobby_leave : Socket → ℕ → Hub → Hub
unfolding leave_visit schedule_lobby_settle
handle_lobby_leave s session h =
    leave_lobbies (is_waiting_room session) s.id
      (record h { visits = leave_visit s.id (lobby_page session) h.visits })
