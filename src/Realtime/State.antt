-- ===== src/Realtime/State.antt =====
-- What one instance of apps/realtime keeps in memory beside the database: which socket works on which
-- attempt, the lobbies it waits in, the departures that wait out their debounce, and the visits of pages.
use ambatucode.Common.{
  ltb, ◌==◌, or_default, any, find_first, update_where, remove_where, ℕ, ◌+◌, Bool, true, false,
  ◌&&◌, Option, none, some, List, [], ◌∷◌,
}
use ambatucode.Access.{Actor}
use ambatucode.Store.{World, EventType, record_event}

-- A `Map` with numbers for keys.
pub record Entry {ℓ} (A : Type ℓ) : Type ℓ where
  pub key : ℕ
  pub value : A

module _ {ℓ} {A : Type ℓ} where
  abbrev pub has_key : ℕ → Entry A → Bool
  has_key k e = e.key == k

  abbrev pub lookup : ℕ → List (Entry A) → Option A
  lookup k m = elim (find_first (has_key k) m) [ none ↦ none | some e ↦ some e.value ]

  abbrev pub delete : ℕ → List (Entry A) → List (Entry A)
  delete k m = remove_where (has_key k) m

  abbrev pub put : ℕ → A → List (Entry A) → List (Entry A)
  put k v m = record { key = k; value = v } ∷ delete k m

pub record Socket : Type 0 where
  pub id : ℕ
  pub actor : Actor

pub record Bound : Type 0 where
  pub attempt_id : ℕ
  pub session_id : ℕ
  pub user_id : ℕ

-- A `Lobby`, with the attempt of a closed workspace that is presence only.
pub record Lobby : Type 0 where
  pub session_id : ℕ
  pub user_id : ℕ
  pub attempt_id : Option ℕ

-- A timer of `pendingDisconnects`, with what it was set for.
pub record Departure : Type 0 where
  pub bound : Bound
  pub socket_id : ℕ
  pub at_ms : ℕ
  pub has_left : Bool

pub record LobbyDeparture : Type 0 where
  pub lobby : Lobby
  pub socket_id : ℕ

pub data Page : Type 0 where
  attempt_page lobby_page : ℕ → Page

abbrev pub same_page : Page → Page → Bool
same_page (attempt_page a) (attempt_page b) = a == b
same_page (lobby_page a) (lobby_page b) = a == b
same_page _ _ = false

pub record Visit : Type 0 where
  pub socket_id : ℕ
  pub page : Page
  pub opened : ℕ
  pub left : ℕ

pub data Room : Type 0 where
  session_room monitor_room : ℕ → Room

pub record Membership : Type 0 where
  pub socket_id : ℕ
  pub room : Room

-- A socket, or every socket of a user.
pub data Target : Type 0 where
  to_socket to_user : ℕ → Target

-- What is emitted, without the rows that a payload repeats.
pub data Notice : Type 0 where
  attempt_state : Target → ℕ → Notice
  attempt_paused attempt_resumed : ℕ → ℕ → Notice
  attempt_superseded : ℕ → Notice
  attempt_warning attempt_tick : ℕ → ℕ → Notice
  monitor_participant : ℕ → ℕ → Notice
  session_state session_started : ℕ → Notice
  attempt_auto_submitted : ℕ → ℕ → Notice

pub record Hub : Type 0 where
  pub world : World
  pub bound_attempts : List (Entry Bound)
  pub lobbies : List (Entry (List Lobby))
  pub pending_disconnects : List (Entry Departure)
  pub superseded : List ℕ
  pub pending_lobby_disconnects : List LobbyDeparture
  pub visits : List Visit
  pub rooms : List Membership
  -- The sockets that some instance holds: `io.in(id).fetchSockets()`.
  pub connected : List ℕ
  pub sent : List Notice

abbrev pub holds : ℕ → List ℕ → Bool
holds i is = any (λ j. j == i) is

abbrev pub emit : Notice → Hub → Hub
emit n h = record h { sent = n ∷ h.sent }

abbrev pub in_world : (World → World) → Hub → Hub
in_world f h = record h { world = f h.world }

-- `record`
abbrev pub log_event : ℕ → EventType → ℕ → ℕ → ℕ → Hub → Hub
log_event session type user attempt at h =
    in_world
      (record_event (record {
        session_id = session;
        type = type;
        user_id = some user;
        attempt_id = some attempt;
        occurred_at = at;
      }))
      h

abbrev pub is_visit : ℕ → Page → Visit → Bool
is_visit socket page v = v.socket_id == socket && same_page v.page page

abbrev pub find_visit : ℕ → Page → List Visit → Option Visit
find_visit socket page vs = find_first (is_visit socket page) vs

-- The visits after a page is opened, and the number of that opening.
unfoldable pub open_visit : ℕ → Page → List Visit → ℕ × List Visit
open_visit socket page vs = elim (find_visit socket page vs) [
  | none ↦ (1, record { socket_id = socket; page = page; opened = 1; left = 0 } ∷ vs)
  | some v ↦ (
    v.opened + 1,
    update_where (is_visit socket page) (λ x. record x { opened = x.opened + 1 }) vs,
  )
]

unfoldable pub leave_visit : ℕ → Page → List Visit → List Visit
leave_visit socket page vs =
    update_where (is_visit socket page) (λ x. record x { left = x.opened }) vs

unfoldable pub visit_is_open : ℕ → Page → ℕ → List Visit → Bool
visit_is_open socket page opening vs = elim (find_visit socket page vs) [
  | none ↦ true
  | some v ↦ ltb v.left opening
]

abbrev pub lobbies_of : ℕ → Hub → List Lobby
lobbies_of socket h = or_default (lookup socket h.lobbies) []

abbrev pub is_lobby_departure : ℕ → ℕ → LobbyDeparture → Bool
is_lobby_departure session user d = d.lobby.session_id == session && d.lobby.user_id == user

unfoldable pub cancel_lobby_settle : ℕ → ℕ → Hub → Hub
cancel_lobby_settle session user h = record h {
  pending_lobby_disconnects =
      remove_where (is_lobby_departure session user) h.pending_lobby_disconnects;
}
