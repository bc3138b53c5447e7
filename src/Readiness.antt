-- ===== src/Readiness.antt =====
-- The readiness board of a session: packages/shared/src/session-readiness.ts and the roster that
-- packages/db/src/session-roster.ts loads. A user's name is not modelled, so the order of the roster's
-- entries, which goes by names, is that of the Map before it is sorted.
pub mod Laws
pub mod Entries
mod Tests
use ambatucode.Common.{
  ltb, leb, ◌==◌, if◌then◌else◌, is_some, is_none, or_default, ltb→lt, lt→ltb, leb→le, ==_iff,
  ==_refl, Bool-cases, Option-cases, sum, length, get_elem?, take, every, any, select, All,
  length-append, length-select-le, length-map, find_first, count_where, update_where, pick_later,
  find_last, remove_where, ℕ, zero, suc, ◌+◌, ◌-◌, ◌*◌, ◌/◌, ◌%◌, ◌≤◌, ◌<◌, min, max, ◌≡◌, refl,
  sym, ap, subst, ◌∙◌, ◌≢◌, ◌↔◌, ◌⊎◌, inl, inr, Bool, true, false, not, ◌&&◌, ◌||◌, Option, none,
  some, List, [], ◌∷◌, ◌++◌, map, arith, Error, Result, ok, err, ◌>>=◌, ◌>>◌, refuse_if, or_refuse,
  Result-cases, bind-ok, refuse_if-ok, or_refuse-ok,
}
use ambatucode.Domain.{
  SessionStatus, SessionAccess, ReadyState, ConnectionState, Presence, is_coder, is_approved,
}
use ambatucode.Store.{
  World, Session, Participant, Enrollment, find_user, find_session, find_assessment,
}

pub data RosterSource : Type 0 where
  from_list from_module from_none : RosterSource

unfoldable pub roster_source : SessionAccess → Bool → ℕ → RosterSource
roster_source access true listed_count = from_none
roster_source SessionAccess.module_wide false listed_count = from_module
roster_source SessionAccess.listed false listed_count =
    if ltb 0 listed_count then from_list else from_none

unfoldable pub presence_of : ConnectionState → Bool → Presence
presence_of ConnectionState.online platform_online = Presence.here
presence_of ConnectionState.offline platform_online =
    if platform_online then Presence.elsewhere else Presence.offline

pub record ReadinessRow : Type 0 where
  pub on_roster : Bool
  pub ready_state : ReadyState
  pub presence : Presence

pub record SessionCounts : Type 0 where
  pub ready : ℕ
  pub not_ready : ℕ
  pub offline : ℕ
  pub total : ℕ

-- The bucket that a row on the roster is counted in.
abbrev pub count_row : Presence → ReadyState → SessionCounts → SessionCounts
count_row Presence.offline state c = record c { offline = c.offline + 1; total = c.total + 1 }
count_row Presence.here ReadyState.ready c = record c { ready = c.ready + 1; total = c.total + 1 }
count_row presence state c = record c { not_ready = c.not_ready + 1; total = c.total + 1 }

abbrev pub count_onto : SessionCounts → List ReadinessRow → SessionCounts
count_onto c [] = c
count_onto c (r ∷ rows) =
    count_onto (if r.on_roster then count_row r.presence r.ready_state c else c) rows

unfoldable pub count_readiness : List ReadinessRow → SessionCounts
count_readiness = count_onto (record { ready = 0; not_ready = 0; offline = 0; total = 0 })

unfoldable pub everyone_ready : SessionCounts → Bool
everyone_ready c = ltb 0 c.total && c.ready == c.total

pub data ReadinessState : Type 0 where
  is_ready is_not_ready is_elsewhere is_offline : ReadinessState

unfoldable pub readiness_state_of : ReadyState → Presence → ReadinessState
readiness_state_of state Presence.offline = is_offline
readiness_state_of state Presence.elsewhere = is_elsewhere
readiness_state_of ReadyState.ready Presence.here = is_ready
readiness_state_of ReadyState.not_ready Presence.here = is_not_ready

pub record RosterEntry : Type 0 where
  pub user_id : ℕ
  pub is_listed : Bool
  pub on_roster : Bool
  pub ready_state : ReadyState
  pub connection_state : ConnectionState
  pub last_seen_at : Option ℕ

abbrev pub is_entry_of : ℕ → RosterEntry → Bool
is_entry_of u e = e.user_id == u

-- `entries.set(entry.userId, entry)`
abbrev pub put_entry : RosterEntry → List RosterEntry → List RosterEntry
put_entry e entries =
    if any (is_entry_of e.user_id) entries
    then update_where (is_entry_of e.user_id) (λ _. e) entries
    else entries ++ (e ∷ [])

abbrev pub is_from_list : RosterSource → Bool
is_from_list from_list = true
is_from_list _ = false

abbrev pub is_from_module : RosterSource → Bool
is_from_module from_module = true
is_from_module _ = false

abbrev pub entry_of : RosterSource → Participant → RosterEntry
entry_of source p = record {
  user_id = p.user_id;
  is_listed = p.is_listed;
  on_roster = is_from_list source && p.is_listed;
  ready_state = p.ready_state;
  connection_state = p.connection_state;
  last_seen_at = p.last_seen_at;
}

abbrev pub put_participants : RosterSource → List Participant → List RosterEntry → List RosterEntry
put_participants source [] entries = entries
put_participants source (p ∷ ps) entries =
    put_participants source ps (put_entry (entry_of source p) entries)

-- The entry of a Coder who is expected and was never seen.
abbrev pub unseen_entry : ℕ → RosterEntry
unseen_entry u = record {
  user_id = u;
  is_listed = false;
  on_roster = true;
  ready_state = ReadyState.not_ready;
  connection_state = ConnectionState.offline;
  last_seen_at = none;
}

abbrev pub expect_entry : ℕ → List RosterEntry → List RosterEntry
expect_entry u entries =
    if any (is_entry_of u) entries
    then update_where (is_entry_of u) (λ e. record e { on_roster = true }) entries
    else entries ++ (unseen_entry u ∷ [])

abbrev pub expect_enrolled : List Enrollment → List RosterEntry → List RosterEntry
expect_enrolled [] entries = entries
expect_enrolled (e ∷ es) entries = expect_enrolled es (expect_entry e.user_id entries)

abbrev pub is_active_coder : ℕ → World → Bool
is_active_coder u w = elim (find_user u w) [
  | none ↦ false
  | some user ↦ is_coder user.role && user.is_active
]

-- An approved enrollment of an active Coder in the Module of the session's Assessment.
abbrev pub is_expected : ℕ → World → Enrollment → Bool
is_expected m w e = e.module_id == m && is_approved e.status && is_active_coder e.user_id w

abbrev pub enrolled_in : Session → World → List Enrollment
enrolled_in s w = elim (find_assessment s.assessment_id w) [
  | none ↦ []
  | some a ↦ select (is_expected a.module_id w) w.enrollments
]

pub record Roster : Type 0 where
  pub status : SessionStatus
  pub source : RosterSource
  pub entries : List RosterEntry

abbrev pub participants_of : ℕ → World → List Participant
participants_of i w = select (λ p. p.session_id == i) w.participants

abbrev pub source_of : Session → World → RosterSource
source_of s w =
    roster_source s.access s.is_open_access
      (length (select (λ p. p.is_listed) (participants_of s.id w)))

abbrev pub roster_entries : RosterSource → Session → World → List RosterEntry
roster_entries source s w =
    let entries = put_participants source (participants_of s.id w) [] in
    if is_from_module source then expect_enrolled (enrolled_in s w) entries else entries

abbrev pub roster_of : Session → World → Roster
roster_of s w = record {
  status = s.status;
  source = source_of s w;
  entries = roster_entries (source_of s w) s w;
}

unfoldable pub load_session_roster : ℕ → World → Option Roster
unfolding roster_source
load_session_roster i w = elim (find_session i w) [ none ↦ none | some s ↦ some (roster_of s w) ]

-- `online` says who has a page of the platform open; it is read from Redis.
abbrev pub readiness_row : (ℕ → Bool) → RosterEntry → ReadinessRow
readiness_row online e = record {
  on_roster = e.on_roster;
  ready_state = e.ready_state;
  presence = presence_of e.connection_state (online e.user_id);
}

pub record Readiness : Type 0 where
  pub source : RosterSource
  pub counts : SessionCounts

-- `readinessFor`, without the rows that it also hands to the page.
unfoldable pub readiness_for : (ℕ → Bool) → ℕ → World → Result Readiness
unfolding presence_of count_readiness load_session_roster
readiness_for online i w = do
  roster ← or_refuse (load_session_roster i w) Error.not_found
  ok (record {
    source = roster.source;
    counts = count_readiness (map (readiness_row online) roster.entries);
  })
