-- ===== src/Realtime/Tests.antt =====
-- The assessment server on a concrete hub: one Coder, whose old socket 1 holds the attempt.
use ambatucode.Common.{any, ◌≡◌, refl, true, false, none, some, List, [], ◌∷◌, map, arith}
use ambatucode.Domain.{SessionStatus, ConnectionState, ReadyState}
use ambatucode.Clock.{pause_attempt_clock}
use ambatucode.Store.{Participant, find_attempt, EventType}
use ambatucode.Access.{AttemptScope}
use ambatucode.Attempts.Activity.{save_draft, clock_for}
use ambatucode.Sample.{sample_assessment, busy, coder, code, sample_attempt, sample_session}
use ambatucode.Realtime.State.{
  cancel_lobby_settle, Hub, Socket, Departure, Bound, Entry, Visit, attempt_page, in_world, lookup,
  open_visit, visit_is_open,
}
use ambatucode.Realtime.Clocks.{
  send_state, pause_if_individual, resume_if_paused, paused_row, resumed_row, load_own_attempt,
}
use ambatucode.Realtime.Departures.{settle_disconnect, is_held_by}
use ambatucode.Realtime.Joining.{
  Joining, join_claim, join_bind, join_begin, handle_join, finish_join,
}
use ambatucode.Realtime.Reports.{handle_draft}
use ambatucode.Realtime.Drafts.{handle_draft-save_draft, acknowledged}
use ambatucode.Realtime.Handover.{claimed_settles}
use ambatucode.Realtime.Abandoned.{abandoned_join_released, refresh_is_silent}
use ambatucode.Realtime.Away.{away_and_back, with_attempt, rings_at}

abbrev new_socket : Socket
new_socket = record { id = 2; actor = coder }

abbrev held_row : Participant
held_row = record {
  session_id = 5;
  user_id = 1;
  is_listed = true;
  ready_state = ReadyState.ready;
  connection_state = ConnectionState.online;
  active_connection = some 1;
  last_seen_at = some 1500;
}

abbrev old_binding : Bound
old_binding = record { attempt_id = 6; session_id = 5; user_id = 1 }

abbrev old_departure : Departure
old_departure = record { bound = old_binding; socket_id = 1; at_ms = 3000; has_left = false }

abbrev hub_with : List (Entry Departure) → List Visit → Hub
hub_with pending visits = record {
  world = record busy { participants = held_row ∷ [] };
  bound_attempts = record { key = 1; value = old_binding } ∷ [];
  lobbies = [];
  pending_disconnects = pending;
  superseded = [];
  pending_lobby_disconnects = [];
  visits = visits;
  rooms = [];
  connected = 1 ∷ 2 ∷ [];
  sent = [];
}

abbrev hub : Hub
hub = hub_with [] []

abbrev row : AttemptScope
row = record {
  attempt = sample_attempt false;
  session = sample_session SessionStatus.running;
  assessment = sample_assessment;
}

abbrev joining : Joining
joining = record { opening = 1; row = row; previous = some 1; is_refresh = false }

-- A takeover: the old socket is superseded, and the handover is logged.
takeover_logged :
    map (λ e. e.type) (handle_join new_socket 6 4000 4001 hub).1.world.events
    ≡ EventType.reconnected ∷ EventType.disconnected ∷ []
unfolding handle_join join_begin join_claim join_bind load_own_attempt open_visit visit_is_open
    resume_if_paused send_state cancel_lobby_settle
takeover_logged = refl

handle_draft-save_draft_example :
    let saved = save_draft coder 6 code 5000 hub.world in
    handle_draft new_socket 6 code 5000 hub ≡ (acknowledged saved.0, in_world (λ _. saved.1) hub)
handle_draft-save_draft_example = handle_draft-save_draft new_socket 6 code 5000 hub

claimed_settles_example :
    (settle_disconnect old_departure (join_claim new_socket joining 4000 hub).1).world
    ≡ (join_claim new_socket joining 4000 hub).1.world
unfolding join_claim
claimed_settles_example =
    claimed_settles new_socket joining joining 4000 old_departure hub refl refl refl refl

-- The page was opened once and left again while the join waited.
abbrev left_page : List Visit
left_page = record { socket_id = 2; page = attempt_page 6; opened = 1; left = 1 } ∷ []

abandoned_join_released_example :
    let after = (join_bind new_socket joining 4000 4100 (hub_with [] left_page)).1 in
    (lookup 2 after.bound_attempts ≡ none)
    × ((d : Departure) × (lookup 6 after.pending_disconnects ≡ some d)
        × (any (is_held_by 5 1 2) (settle_disconnect d after).world.participants ≡ false))
unfolding visit_is_open
abandoned_join_released_example =
    abandoned_join_released new_socket joining 4000 4100 (hub_with [] left_page) refl

abbrev reloading : Hub
reloading = hub_with (record { key = 6; value = old_departure } ∷ []) []

refresh_is_silent_example :
    let rejoined =
      (finish_join new_socket 4000 4100 (join_claim new_socket joining 4000 reloading)).1 in
    (rejoined.world.events ≡ reloading.world.events)
    × (rejoined.world.attempts ≡ reloading.world.attempts)
    × (lookup 6 rejoined.pending_disconnects ≡ none)
    × (any (is_held_by 5 1 2) rejoined.world.participants ≡ true)
unfolding visit_is_open
refresh_is_silent_example =
    refresh_is_silent new_socket joining 4000 4100 reloading old_departure refl refl refl

away_and_back_example :
    let gone = pause_if_individual row 301000 hub in
    let away =
      paused_row (pause_attempt_clock (clock_for row.attempt row.session) 301000) row.attempt in
    let back = resume_if_paused (with_attempt row away) 9000000 gone in
    (find_attempt 6 gone.world ≡ some away)
    × (find_attempt 6 back.world ≡ some (resumed_row 10500000 away))
    × (any (rings_at 6 10500000) back.world.alarms ≡ true)
away_and_back_example =
    away_and_back row 30 1801000 301000 9000000 hub refl refl
      (record {
        mode = record { individual = refl; minutes = refl };
        active = refl;
        towards = refl;
        within = omega arith;
      })
      (omega arith)
