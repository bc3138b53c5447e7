-- ===== src/Sessions/Ended.antt =====
-- What a closed session leaves behind.
use ambatucode.Common.{
  ◌==◌, Bool-cases, Option-cases, any, select, All, find_first, update_where, ℕ, ◌≡◌, refl, ◌⊎◌,
  inl, inr, Bool, true, false, Option, some, List, [], ◌∷◌, map, arith,
}
use ambatucode.Domain.{is_in_progress, is_running}
use ambatucode.Store.{World, Session, Attempt, ExecutionJob}
use ambatucode.Attempts.Invariant.{Valid}
use ambatucode.Sessions.Setup.{has_session_id, broadcast_session_state}
use ambatucode.Sessions.Lifecycle.{
  no_shows, open_attempts, close_each, is_running_session, with_ended, flip_rows, flip_ended,
  close_session, is_open_attempt, expire_each, expire_no_show,
}
use ambatucode.Sessions.Closing.{Shut}
use ambatucode.Sessions.Settling.{IsOver, close_each-Shut}

-- A message changes no table.
pub broadcast-tables :
    (i : ℕ) (w : World)
    → ((broadcast_session_state i w).sessions ≡ w.sessions)
      × ((broadcast_session_state i w).attempts ≡ w.attempts)
      × ((broadcast_session_state i w).submissions ≡ w.submissions)
      × ((broadcast_session_state i w).participants ≡ w.participants)
      × ((broadcast_session_state i w).next_id ≡ w.next_id)
broadcast-tables i w = elim (Option-cases (find_first (has_session_id i) w.sessions)) [
  | inl missing ↦ rw (missing, broadcast_session_state) (refl, refl, refl, refl, refl)
  | inr (s, found) ↦ rw (found, broadcast_session_state) (refl, refl, refl, refl, refl)
]

flipped-over :
    (i : ℕ) (xs : List Session)
    → any (is_running_session i) xs ≡ true
    → (t : Session) × (find_first
          (has_session_id i)
          (update_where (is_running_session i) with_ended xs)
        ≡ some t)
      × (is_running t.status ≡ false)
flipped-over i [] h = absurd (cc)
flipped-over i (x ∷ xs) h = elim (Bool-cases (x.id == i)) [
  | inl here ↦ elim (Bool-cases (is_running x.status)) [
    | inl running ↦ (with_ended x, ground (arith, here, running), refl)
    | inr over ↦ (x, ground (arith, here, over), over)
  ]
  | inr other ↦
      let (t, found, over) = flipped-over i xs (ground (arith, other)) in
      (t, ground (arith, other, found), over)
]

pub flip_ended-IsOver :
    (i : ℕ) (by : Option ℕ) (now : ℕ) (w : World)
    → any (is_running_session i) w.sessions ≡ true
    → IsOver i (flip_ended i by now w)
unfolding flip_ended
flip_ended-IsOver i by now w running =
    let (t, found, over) = flipped-over i w.sessions running in
    let (sessions, _, _, _, _) = broadcast-tables i (flip_rows i by now w) in
    (t, rw sessions found, over)

pub flip_ended-Valid :
    (i : ℕ) (by : Option ℕ) (now : ℕ) (w : World) → Valid w → Valid (flip_ended i by now w)
unfolding flip_ended
flip_ended-Valid i by now w v =
    let (_, attempts, submissions, _, next_id) = broadcast-tables i (flip_rows i by now w) in
    rw (attempts, submissions, next_id) v

expire_each-Shut :
    (i now s k : ℕ) (us : List ℕ) (w : World)
    → Shut s k w.attempts
    → Shut s k (expire_each i now us w).attempts
expire_each-Shut i now s k [] w shut = shut
expire_each-Shut i now s k (u ∷ us) w shut =
    expire_each-Shut i now s k us (expire_no_show i now u w) (λ same here. refl, shut)

-- An attempt that was in progress is in the list, and any other is closed already.
listed_or_Shut :
    (s k : ℕ) (rows : List Attempt)
    → (any (λ j. j == k) (map (λ a. a.id) (select (is_open_attempt s) rows)) ≡ true) ⊎ Shut s k rows
listed_or_Shut s k [] = inr tt
listed_or_Shut s k (a ∷ rows) = elim (Bool-cases (is_open_attempt s a)) [
  | inl active ↦ elim (Bool-cases (a.id == k)) [
    | inl same ↦ inl (ground (arith, active, same))
    | inr other ↦ elim (listed_or_Shut s k rows) [
      | inl listed ↦ inl (ground (arith, active, other, listed))
      | inr shut ↦ inr (λ same here. absurd (cc), shut)
    ]
  ]
  | inr closed ↦ elim (listed_or_Shut s k rows) [
    | inl listed ↦ inl (ground (arith, closed, listed))
    | inr shut ↦ inr (λ same here. ground arith, shut)
  ]
]

all-Shut :
    (s : ℕ) (rows : List Attempt)
    → ((k : ℕ) → Shut s k rows)
    → All (λ a. (a.session_id == s) ≡ true → is_in_progress a.status ≡ false) rows
all-Shut s [] shut = tt
all-Shut s (a ∷ rows) shut =
    (λ here. (shut a.id).0 (ground arith) here, all-Shut s rows (λ k. (shut k).1))

-- In a valid world, closing a session that is running leaves none of its attempts in progress, if
-- no other request comes between the steps of closing it.
pub close_session-settles :
    (enqueue : ExecutionJob → Bool) (i : ℕ) (by : Option ℕ) (now : ℕ) (w : World)
    → Valid w
    → any (is_running_session i) w.sessions ≡ true
    → All
        (λ a. (a.session_id == i) ≡ true → is_in_progress a.status ≡ false)
        (close_session enqueue i by now w).1.attempts
unfolding close_session
close_session-settles enqueue i by now w v running =
    let flipped = flip_ended i by now w in
    let closed = close_each enqueue now (open_attempts i flipped) flipped in
    rw (running, close_session)
      (all-Shut i _ (λ k. expire_each-Shut i now i k (no_shows i closed) closed (
        close_each-Shut enqueue now i k (open_attempts i flipped) flipped
          (flip_ended-Valid i by now w v) (flip_ended-IsOver i by now w running)
          (listed_or_Shut i k flipped.attempts))))
