-- ===== src/Realtime/Handover.antt =====
-- Departures that are stale, and the clock over a disconnect and a return.
use ambatucode.Common.{
  Bool-cases, inl, inr, subst, sym, refl, ◌==◌, Bool-cases, any, update_where, ℕ, ◌≡◌, refl, sym,
  subst, inl, inr, false, List, [], ◌∷◌, arith,
}
use ambatucode.Store.{Participant, is_participant}
use ambatucode.Realtime.State.{Hub, Socket, Departure}
use ambatucode.Realtime.Departures.{is_held_by, settle_disconnect, forget_departure}
use ambatucode.Realtime.Joining.{page_is_open, Joining, waits, claim, join_claim}

-- Nobody holds the row for this socket after another has claimed it.
none_held :
    (s u old new now : ℕ) (ps : List Participant)
    → (new == old) ≡ false
    → any (is_held_by s u old) (update_where (is_participant s u) (claim new now) ps) ≡ false
none_held s u old new now [] apart = refl
none_held s u old new now (p ∷ ps) apart = ground (arith, none_held s u old new now ps)

forget-world : (a i : ℕ) (h : Hub) → (forget_departure a i h).world ≡ h.world
forget-world a i h = ground arith

settle-stale :
    (d : Departure) (h : Hub)
    → any (is_held_by d.bound.session_id d.bound.user_id d.socket_id) h.world.participants ≡ false
    → (settle_disconnect d h).world ≡ h.world
unfolding settle_disconnect
settle-stale d h stale =
    let same = forget-world d.bound.attempt_id d.socket_id h in
    let still : any (is_held_by d.bound.session_id d.bound.user_id d.socket_id)
          (forget_departure d.bound.attempt_id d.socket_id h).world.participants
        ≡ false =
      subst
        (λ w.
          any (is_held_by d.bound.session_id d.bound.user_id d.socket_id) w.participants ≡ false)
        (sym same) stale in
    rw (still, settle_disconnect) same

claim-rows :
    (s : Socket) (j k : Joining) (now : ℕ) (h : Hub)
    → (join_claim s j now h).0 ≡ waits k
    → (join_claim s j now h).1.world.participants
      ≡ update_where
          (is_participant j.row.attempt.session_id j.row.attempt.user_id)
          (claim s.id now)
          h.world.participants
unfolding join_claim
claim-rows s j k now h claimed = elim (Bool-cases (page_is_open s j h)) [
  | inl here ↦ rw (here, join_claim) refl
  | inr left ↦ absurd (let stopped = rw (left, join_claim) at claimed in cc)
]

-- Once a join has claimed an attempt for its socket, a departure from that attempt that another
-- socket left behind changes nothing in the database when it settles: nothing is logged and no
-- clock is paused.
pub claimed_settles :
    (s : Socket) (j k : Joining) (now : ℕ) (d : Departure) (h : Hub)
    → (join_claim s j now h).0 ≡ waits k
    → d.bound.session_id ≡ j.row.attempt.session_id
    → d.bound.user_id ≡ j.row.attempt.user_id
    → (s.id == d.socket_id) ≡ false
    → (settle_disconnect d (join_claim s j now h).1).world ≡ (join_claim s j now h).1.world
claimed_settles s j k now d h claimed session user apart = settle-stale d (join_claim s j now h).1 (
    rw (claim-rows s j k now h claimed, session, user)
      (none_held j.row.attempt.session_id j.row.attempt.user_id d.socket_id s.id now
        h.world.participants apart))
