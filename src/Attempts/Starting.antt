-- ===== src/Attempts/Starting.antt =====
-- Starting an attempt keeps the invariant, whatever was decided before the write.
use ambatucode.Common.{
  ◌==◌, Bool-cases, any, All, count_where, ℕ, ◌≤◌, ◌≡◌, refl, inl, inr, false, ◌&&◌, Option, none,
  some, ◌∷◌, arith, Result-cases,
}
use ambatucode.Common.Counting.{count-eq_zero, All-imp, any-eq_false}
use ambatucode.Store.{World, Attempt, is_sibling}
use ambatucode.Official.{is_official_sibling}
use ambatucode.Access.{Actor}
use ambatucode.Domain.{is_not_started}
use ambatucode.Attempts.Start.{
  announce_start, Start, is_numbered, is_waiting, first_attempt, create_first, start_waiting,
  begin_attempt, start_commit, start_checks, start_attempt,
}
use ambatucode.Attempts.Invariant.{Valid}
use ambatucode.Attempts.Transitions.{insert-IsValid, with_start-IsValid}

-- A Coder without a first attempt at a session has none there.
no_siblings :
    (s u : ℕ) (w : World)
    → any (is_numbered s u 1) w.attempts ≡ false
    → Valid w
    → All (λ a. is_sibling s u a ≡ false) w.attempts
no_siblings s u w none_yet v =
    All-imp w.attempts
      (λ a sound. elim (Bool-cases (is_sibling s u a)) [
        | inr other ↦ other
        | inl same ↦
            let e : a.session_id ≡ s = ground arith in
            let e' : a.user_id ≡ u = ground arith in
            absurd (let first = rw (e, e') at sound.1 in cc)
      ])
      v.rows_sound

announce_start-Valid :
    (i s u now : ℕ) (deadline : Option ℕ) (w : World)
    → Valid w
    → Valid (announce_start i s u now deadline w)
announce_start-Valid i s u now none w v = v
announce_start-Valid i s u now (some at) w v = v

create_first-Valid :
    (s u now : ℕ) (deadline : Option ℕ) (w : World)
    → Valid w
    → Valid (create_first s u now deadline w).1
unfolding create_first
create_first-Valid s u now deadline w v = elim (Bool-cases (any (is_numbered s u 1) w.attempts)) [
  | inl taken ↦ rw taken v
  | inr free ↦
      let alone = no_siblings s u w free v in
      rw free (
        announce_start-Valid w.next_id s u now deadline _ (
          insert-IsValid (first_attempt w.next_id s u now deadline) refl
            (count-eq_zero _ w.attempts (any-eq_false _ w.attempts free)) (ground arith)
            (λ t k. only_one t k alone) v))
]
  where
    only_one :
        (t k : ℕ)
        → All (λ a. is_sibling s u a ≡ false) w.attempts
        → count_where
            (is_official_sibling t k)
            (first_attempt w.next_id s u now deadline ∷ w.attempts)
          ≤ 1
    only_one t k alone = elim (Bool-cases (s == t && u == k)) [
      | inl same ↦
          let e : s ≡ t = ground arith in
          let e' : u ≡ k = ground arith in
          let none_official : count_where (is_official_sibling t k) w.attempts ≡ 0 =
            count-eq_zero _ w.attempts (All-imp w.attempts (λ a other. ground arith) alone) in
          ground (arith, none_official)
      | inr other ↦ ground (arith, other, v.one_official t k)
    ]

start_waiting-Valid :
    (i s u now : ℕ) (deadline : Option ℕ) (w : World)
    → Valid w
    → Valid (start_waiting i s u now deadline w)
unfolding start_waiting
start_waiting-Valid i s u now deadline w v = elim (Bool-cases (any (is_waiting i) w.attempts)) [
  | inr started ↦ rw started v
  | inl waits ↦
      rw waits (announce_start-Valid i s u now deadline _ (with_start-IsValid i now deadline v))
]

begin_attempt-Valid :
    (latest : Option Attempt) (s u now : ℕ) (deadline : Option ℕ) (w : World)
    → Valid w
    → Valid (begin_attempt latest s u now deadline w).1
begin_attempt-Valid none s u now deadline w v = create_first-Valid s u now deadline w v
begin_attempt-Valid (some a) s u now deadline w v = elim (Bool-cases (is_not_started a.status)) [
  | inl waits ↦ rw waits (start_waiting-Valid a.id s u now deadline w v)
  | inr begun ↦ rw begun v
]

pub start_commit-Valid :
    (actor : Actor) (i now : ℕ) (start : Start) (w : World)
    → Valid w
    → Valid (start_commit actor i now start w).1
unfolding start_commit
start_commit-Valid actor i now start w v =
    begin_attempt-Valid start.latest i actor.id now start.deadline _ v

pub start_attempt-Valid :
    (actor : Actor) (i now : ℕ) (w : World) → Valid w → Valid (start_attempt actor i now w).1
unfolding start_attempt
start_attempt-Valid actor i now w v = elim (Result-cases (start_checks actor i now w)) [
  | inl (e, refused) ↦ rw (refused, start_attempt) v
  | inr (start, accepted) ↦ rw (accepted, start_attempt) (start_commit-Valid actor i now start w v)
]
