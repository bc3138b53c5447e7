-- ===== src/Realtime/Abandoned.antt =====
-- A page that is closed while its join waits on the database, and a page that is loaded again before its
-- departure settles.
use ambatucode.Common.{
  ok, update_where, ok, ok, some, subst, sym, Bool-cases, ==_refl, true, ==_refl, Bool-cases,
  Option-cases, any, update_where, ℕ, ◌≡◌, refl, sym, subst, inl, inr, true, false, none, some,
  List, [], ◌∷◌, arith, ok,
}
use ambatucode.Common.Finding.{find-removed}
use ambatucode.Store.{is_participant, EventType, Participant}
use ambatucode.Access.{AttemptScope}
use ambatucode.Realtime.State.{
  Target, to_socket, session_room, put, cancel_lobby_settle, Entry, log_event, Hub, Socket,
  Departure, lookup, delete, has_key,
}
use ambatucode.Realtime.Clocks.{send_state, pause_if_individual, load_own_attempt}
use ambatucode.Realtime.Departures.{
  is_held_by, release, settle_disconnect, forget_departure, write_participants,
  schedule_attempt_settle, pause_own,
}
use ambatucode.Realtime.Joining.{
  waits, enter, claim, join_claim, finish_join, Joining, join_bind, page_is_open, bound_of, bind,
}

pub lookup-delete {ℓ} : {A : Type ℓ} (k : ℕ) (m : List (Entry A)) → lookup k (delete k m) ≡ none
lookup-delete k m = rw (find-removed (has_key k) m, lookup) refl

pub lookup-put {ℓ} :
    {A : Type ℓ} (k : ℕ) (v : A) (m : List (Entry A)) → lookup k (put k v m) ≡ some v
lookup-put k v m = rw (==_refl k, lookup) refl

none_left :
    (s u i : ℕ) (ps : List Participant)
    → any (is_held_by s u i) (update_where (is_held_by s u i) release ps) ≡ false
none_left s u i [] = refl
none_left s u i (p ∷ ps) = ground (arith, none_left s u i ps)

pause-participants :
    (row : AttemptScope) (at : ℕ) (h : Hub)
    → (pause_if_individual row at h).world.participants ≡ h.world.participants
unfolding pause_if_individual
pause-participants row at h = ground arith

pause_own-participants :
    (a u at : ℕ) (h : Hub) → (pause_own a u at h).world.participants ≡ h.world.participants
pause_own-participants a u at h = elim (Option-cases (load_own_attempt a u h.world)) [
  | inl missing ↦ rw (missing, pause_own) refl
  | inr (row, found) ↦ rw (found, pause_own) (pause-participants row at h)
]

-- After a departure has settled, its socket holds the participant's row no longer.
pub settle-releases :
    (d : Departure) (h : Hub)
    → any
        (is_held_by d.bound.session_id d.bound.user_id d.socket_id)
        (settle_disconnect d h).world.participants
      ≡ false
unfolding settle_disconnect
settle-releases d h =
    let held = is_held_by d.bound.session_id d.bound.user_id d.socket_id in
    let waiting = forget_departure d.bound.attempt_id d.socket_id h in
    elim (Bool-cases (any held waiting.world.participants)) [
      | inl found ↦
          rw (found, settle_disconnect)
            (let released = write_participants held release waiting in
              subst (λ ps. any held ps ≡ false)
                (sym (
                  pause_own-participants d.bound.attempt_id d.bound.user_id d.at_ms (
                    log_event d.bound.session_id EventType.disconnected d.bound.user_id
                      d.bound.attempt_id d.at_ms released)))
                (none_left d.bound.session_id d.bound.user_id d.socket_id
                  waiting.world.participants))
      | inr free ↦ rw (free, settle_disconnect) free
    ]

-- A workspace that is closed while its join claims the attempt leaves no binding behind: the join
-- sets a departure for its attempt, and once that has settled its socket holds the participant's
-- row no longer.
pub abandoned_join_released :
    (s : Socket) (j : Joining) (now moment : ℕ) (h : Hub)
    → page_is_open s j (bind s j h) ≡ false
    → let after = (join_bind s j now moment h).1 in
      (lookup s.id after.bound_attempts ≡ none)
      × ((d : Departure) × (lookup j.row.attempt.id after.pending_disconnects ≡ some d)
          × (any
                (is_held_by j.row.attempt.session_id j.row.attempt.user_id s.id)
                (settle_disconnect d after).world.participants
              ≡ false))
unfolding join_bind schedule_attempt_settle
abandoned_join_released s j now moment h closed =
    let bound = bind s j h in
    let d : Departure = record {
      bound = bound_of j;
      socket_id = s.id;
      at_ms = moment;
      has_left = true;
    } in
    let after =
      schedule_attempt_settle d
        (record bound { bound_attempts = delete s.id bound.bound_attempts }) in
    let done : join_bind s j now moment h ≡ (ok tt, after) = rw (closed, join_bind) refl in
    rw done (
      lookup-delete s.id bound.bound_attempts,
      (d, lookup-put j.row.attempt.id d bound.pending_disconnects, settle-releases d after),
    )

held_after_claim :
    (s u i now : ℕ) (ps : List Participant)
    → any (is_participant s u) ps ≡ true
    → any (is_held_by s u i) (update_where (is_participant s u) (claim i now) ps) ≡ true
held_after_claim s u i now [] there = absurd (cc)
held_after_claim s u i now (p ∷ ps) there = ground (arith, ==_refl i, held_after_claim s u i now ps)

send-keeps :
    (t : Target) (i u : ℕ) (h : Hub)
    → ((send_state t i u h).world ≡ h.world)
      × ((send_state t i u h).pending_disconnects ≡ h.pending_disconnects)
unfolding send_state
send-keeps t i u h = ground arith

-- Where the participant has a row, a workspace that is loaded again before its departure has
-- settled, is open when its join claims the attempt, and has nothing between that claim and the
-- binding, is no event: nothing is logged, no attempt is paused or resumed, the departure is
-- cancelled, and the new socket holds the row.
pub refresh_is_silent :
    (s : Socket) (j : Joining) (now moment : ℕ) (h : Hub) (d : Departure)
    → lookup j.row.attempt.id h.pending_disconnects ≡ some d
    → page_is_open s j h ≡ true
    → any (is_participant j.row.attempt.session_id j.row.attempt.user_id) h.world.participants
      ≡ true
    → let rejoined = (finish_join s now moment (join_claim s j now h)).1 in
      (rejoined.world.events ≡ h.world.events)
      × (rejoined.world.attempts ≡ h.world.attempts)
      × (lookup j.row.attempt.id rejoined.pending_disconnects ≡ none)
      × (any
            (is_held_by j.row.attempt.session_id j.row.attempt.user_id s.id)
            rejoined.world.participants
          ≡ true)
unfolding join_claim join_bind
refresh_is_silent s j now moment h d pending here there =
    let a = j.row.attempt in
    let again : Joining = record j { is_refresh = true } in
    let claimed : Hub =
      write_participants (is_participant a.session_id a.user_id) (claim s.id now) (
        cancel_lobby_settle a.session_id a.user_id
          (record h { pending_disconnects = delete a.id h.pending_disconnects })) in
    let entered = enter s.id (session_room a.session_id) (bind s again claimed) in
    let first : join_claim s j now h ≡ (waits again, claimed) =
      rw (here, join_claim, pending) refl in
    let second : join_bind s again now moment claimed
        ≡ (ok tt, send_state (to_socket s.id) a.id a.user_id entered) =
      rw (here, join_bind) refl in
    let (world, waiting) = send-keeps (to_socket s.id) a.id a.user_id entered in
    rw (first, second, world, waiting)
      (
        refl,
        refl,
        lookup-delete a.id h.pending_disconnects,
        held_after_claim a.session_id a.user_id s.id now h.world.participants there,
      )
