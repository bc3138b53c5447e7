-- ===== src/Realtime/Joining.antt =====
-- Joining an attempt: handleJoin of apps/realtime/src/assessment.ts, in the three parts between its waits
-- on the database. `join_begin` ends with the participant's row read, `join_claim` with the row claimed
-- for this socket, and `join_bind` does the rest. `moment` is the clock reading of a departure or an event
-- that a part makes.
use ambatucode.Common.{
  ◌==◌, if◌then◌else◌, is_some, any, select, find_first, remove_where, ℕ, Bool, true, false, not,
  ◌&&◌, Option, none, some, List, ◌∷◌, Error, Result, ok, err,
}
use ambatucode.Domain.{ReadyState, ConnectionState, is_in_progress, is_coder}
use ambatucode.Store.{World, Participant, EventType, is_participant}
use ambatucode.Access.{AttemptScope}
use ambatucode.Realtime.State.{
  Target, Hub, Socket, Bound, Room, session_room, attempt_page, monitor_participant, attempt_state,
  attempt_superseded, lookup, delete, put, holds, emit, in_world, log_event, open_visit,
  visit_is_open, lobbies_of, cancel_lobby_settle,
}
use ambatucode.Realtime.Clocks.{load_own_attempt, resume_if_paused, send_state}
use ambatucode.Realtime.Departures.{schedule_attempt_settle, write_participants}

-- What a join carries from one part to the next.
pub record Joining : Type 0 where
  pub opening : ℕ
  pub row : AttemptScope
  pub previous : Option ℕ
  pub is_refresh : Bool

-- A handler has answered, or waits on the database.
pub data Progress (A : Type 0) : Type 0 where
  answered : Result (Unit {0}) → Progress A
  waits : A → Progress A

abbrev unlisted : ℕ → ℕ → Participant
unlisted session user = record {
  session_id = session;
  user_id = user;
  is_listed = false;
  ready_state = ReadyState.not_ready;
  connection_state = ConnectionState.offline;
  active_connection = none;
  last_seen_at = none;
}

-- `upsert` with nothing to update.
abbrev pub ensure_participant : ℕ → ℕ → List Participant → List Participant
ensure_participant session user ps =
    if any (is_participant session user) ps then ps else unlisted session user ∷ ps

abbrev holder_of : ℕ → ℕ → List Participant → Option ℕ
holder_of session user ps = elim (find_first (is_participant session user) ps) [
  | none ↦ none
  | some p ↦ p.active_connection
]

abbrev begin_row : Socket → ℕ → ℕ → Option AttemptScope → Hub → Progress Joining × Hub
begin_row s opening attempt none h = (answered (err Error.not_found), h)
begin_row s opening attempt (some row) h =
    let a = row.attempt in
    let ready =
      in_world
        (λ w. record w { participants = ensure_participant a.session_id a.user_id w.participants })
        h in
    if is_in_progress a.status
    then (
      waits (record {
        opening = opening;
        row = row;
        previous = holder_of a.session_id a.user_id h.world.participants;
        is_refresh = false;
      }),
      ready,
    )
    else (answered (ok tt), emit (attempt_state (Target.to_socket s.id) a.id) h)

unfoldable pub join_begin : Socket → ℕ → Hub → Progress Joining × Hub
unfolding open_visit load_own_attempt
join_begin s attempt h =
    if is_coder s.actor.role
    then (let (opening, visits) = open_visit s.id (attempt_page attempt) h.visits in
        begin_row s opening attempt (load_own_attempt attempt s.actor.id h.world)
          (record h { visits = visits }))
    else (answered (err Error.forbidden), h)

abbrev pub claim : ℕ → ℕ → Participant → Participant
claim socket now p = record p {
  active_connection = some socket;
  connection_state = ConnectionState.online;
  last_seen_at = some now;
}

-- Whether the page that this join is for is still open.
abbrev pub page_is_open : Socket → Joining → Hub → Bool
page_is_open s j h = visit_is_open s.id (attempt_page j.row.attempt.id) j.opening h.visits

unfoldable pub join_claim : Socket → Joining → ℕ → Hub → Progress Joining × Hub
unfolding visit_is_open cancel_lobby_settle
join_claim s j now h =
    let a = j.row.attempt in
    if page_is_open s j h
    then (
      waits (record j { is_refresh = is_some (lookup a.id h.pending_disconnects) }),
      write_participants (is_participant a.session_id a.user_id) (claim s.id now) (
          cancel_lobby_settle a.session_id a.user_id
            (record h { pending_disconnects = delete a.id h.pending_disconnects })),
    )
    else (answered (ok tt), h)

abbrev pub bound_of : Joining → Bound
bound_of j = record {
  attempt_id = j.row.attempt.id;
  session_id = j.row.attempt.session_id;
  user_id = j.row.attempt.user_id;
}

abbrev pub bind : Socket → Joining → Hub → Hub
bind s j h = record h {
  lobbies =
      put s.id (select (λ l. not (l.session_id == j.row.attempt.session_id)) (lobbies_of s.id h))
        h.lobbies;
  bound_attempts = put s.id (bound_of j) h.bound_attempts;
}

abbrev pub enter : ℕ → Room → Hub → Hub
enter socket room h = record h { rooms = record { socket_id = socket; room = room } ∷ h.rooms }

-- Another connected socket holds the attempt.
abbrev pub is_takeover : ℕ → Option ℕ → Hub → Bool
is_takeover socket none h = false
is_takeover socket (some old) h = not (old == socket) && holds old h.connected

abbrev supersede : ℕ → Joining → ℕ → Hub → Hub
supersede old j moment h =
    let a = j.row.attempt in
    log_event a.session_id EventType.reconnected a.user_id a.id moment (
      log_event a.session_id EventType.disconnected a.user_id a.id moment (
        emit (attempt_superseded old) (record h {
          superseded = old ∷ h.superseded;
          connected = remove_where (λ i. i == old) h.connected;
        })))

abbrev is_connection : EventType → Bool
is_connection EventType.connected = true
is_connection EventType.reconnected = true
is_connection _ = false

abbrev connected_before : ℕ → World → Bool
connected_before attempt w =
    any (λ e. is_connection e.type && (elim e.attempt_id [ none ↦ false | some i ↦ i == attempt ]))
      w.events

abbrev come_back : Joining → ℕ → ℕ → Hub → Hub
come_back j now moment h =
    let a = j.row.attempt in
    let resumed = resume_if_paused j.row now h in
    log_event a.session_id
      (if connected_before a.id resumed.world then EventType.reconnected else EventType.connected)
      a.user_id a.id moment resumed

abbrev arrive_from : Socket → Joining → Option ℕ → ℕ → ℕ → Hub → Hub
arrive_from s j none now moment h = come_back j now moment h
arrive_from s j (some old) now moment h =
    if is_takeover s.id (some old) h then supersede old j moment h else come_back j now moment h

-- What is logged and announced of an arrival; of a refresh, nothing.
abbrev pub arrive : Socket → Joining → ℕ → ℕ → Hub → Hub
arrive s j now moment h =
    if j.is_refresh
    then h
    else emit (monitor_participant j.row.attempt.session_id j.row.attempt.user_id)
        (arrive_from s j j.previous now moment h)

unfoldable pub join_bind : Socket → Joining → ℕ → ℕ → Hub → Result (Unit {0}) × Hub
unfolding visit_is_open schedule_attempt_settle resume_if_paused send_state
join_bind s j now moment h =
    let bound = bind s j h in
    if page_is_open s j bound
    then (
      ok tt,
      send_state (Target.to_socket s.id) j.row.attempt.id j.row.attempt.user_id
          (arrive s j now moment (enter s.id (session_room j.row.attempt.session_id) bound)),
    )
    else (
      ok tt,
      schedule_attempt_settle
          (record { bound = bound_of j; socket_id = s.id; at_ms = moment; has_left = true })
          (record bound { bound_attempts = delete s.id bound.bound_attempts }),
    )

-- The parts one after the other, when nothing comes between them.
abbrev pub finish_join : Socket → ℕ → ℕ → Progress Joining × Hub → Result (Unit {0}) × Hub
finish_join s now moment (answered r, h) = (r, h)
finish_join s now moment (waits j, h) = join_bind s j now moment h

abbrev claim_join : Socket → ℕ → ℕ → Progress Joining × Hub → Result (Unit {0}) × Hub
claim_join s now moment (answered r, h) = (r, h)
claim_join s now moment (waits j, h) = finish_join s now moment (join_claim s j now h)

unfoldable pub handle_join : Socket → ℕ → ℕ → ℕ → Hub → Result (Unit {0}) × Hub
unfolding join_begin join_claim join_bind
handle_join s attempt now moment h = claim_join s now moment (join_begin s attempt h)
