-- ===== src/Sessions/Recorded.antt =====
-- A closed session has an attempt on record for everybody on its list.
use ambatucode.Common.{
  ◌==◌, Bool-cases, any, select, All, ℕ, ◌≡◌, refl, inl, inr, Bool, true, ◌&&◌, Option, List, [],
  ◌∷◌, map, arith,
}
use ambatucode.Common.Counting.{All-imp}
use ambatucode.Store.{World, Participant, ExecutionJob, is_sibling}
use ambatucode.Sessions.Lifecycle.{
  close_session, is_running_session, flip_ended, close_each, open_attempts, expire_each,
  expire_no_show, no_shows, is_no_show,
}

expire_each-keeps :
    (i now u : ℕ) (us : List ℕ) (w : World)
    → any (is_sibling i u) w.attempts ≡ true
    → any (is_sibling i u) (expire_each i now us w).attempts ≡ true
expire_each-keeps i now u [] w h = h
expire_each-keeps i now u (v ∷ us) w h =
    expire_each-keeps i now u us (expire_no_show i now v w) (ground arith)

expire_each-adds :
    (i now u : ℕ) (us : List ℕ) (w : World)
    → any (λ v. v == u) us ≡ true
    → any (is_sibling i u) (expire_each i now us w).attempts ≡ true
expire_each-adds i now u [] w h = absurd (cc)
expire_each-adds i now u (v ∷ us) w h = elim (Bool-cases (v == u)) [
  | inl same ↦
      let e : v ≡ u = ground arith in
      expire_each-keeps i now u us (expire_no_show i now v w) (ground arith)
  | inr other ↦ expire_each-adds i now u us (expire_no_show i now v w) (ground arith)
]

expire_each-participants :
    (i now : ℕ) (us : List ℕ) (w : World) → (expire_each i now us w).participants ≡ w.participants
expire_each-participants i now [] w = refl
expire_each-participants i now (u ∷ us) w =
    expire_each-participants i now us (expire_no_show i now u w)

listed_users :
    (q : Participant → Bool) (ps : List Participant)
    → All
        (λ p. q p ≡ true → any (λ v. v == p.user_id) (map (λ r. r.user_id) (select q ps)) ≡ true)
        ps
listed_users q [] = tt
listed_users q (p ∷ ps) = elim (Bool-cases (q p)) [
  | inl in_list ↦
      rw in_list (λ _. ground arith, All-imp ps (λ r h e. ground (arith, h e)) (listed_users q ps))
  | inr out ↦ (λ h. absurd (cc), All-imp ps (λ r h e. rw out (h e)) (listed_users q ps))
]

-- After a session that is running has been closed with no other request between the steps, every
-- listed participant of it has an attempt at it, whether they started or not.
pub close_session-records :
    (enqueue : ExecutionJob → Bool) (i : ℕ) (by : Option ℕ) (now : ℕ) (w : World)
    → any (is_running_session i) w.sessions ≡ true
    → All
        (λ p.
          (p.session_id == i && p.is_listed) ≡ true
          → any (is_sibling i p.user_id) (close_session enqueue i by now w).1.attempts ≡ true)
        (close_session enqueue i by now w).1.participants
unfolding close_session
close_session-records enqueue i by now w running =
    let flipped = flip_ended i by now w in
    let closed = close_each enqueue now (open_attempts i flipped) flipped in
    rw (running, close_session, expire_each-participants i now (no_shows i closed) closed)
      (All-imp closed.participants
        (λ p missing here. elim (Bool-cases (any (is_sibling i p.user_id) closed.attempts)) [
          | inl there ↦ expire_each-keeps i now p.user_id (no_shows i closed) closed there
          | inr none_yet ↦
              expire_each-adds i now p.user_id (no_shows i closed) closed (missing (ground arith))
        ])
        (listed_users (is_no_show i closed) closed.participants))
