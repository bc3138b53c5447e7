-- ===== src/Attempts/Invariant.antt =====
-- What holds of the attempts and their Submissions between two transactions.
use ambatucode.Common.{
  ◌==◌, any, All, find_first, count_where, update_where, ℕ, ◌≤◌, ◌<◌, ◌≡◌, ap, Bool, true, false,
  some, List,
}
use ambatucode.Common.Counting.{
  count-update_every, All-imp, All-update, All-pair, any-update, All-unique,
}
use ambatucode.Domain.{AttemptStatus}
use ambatucode.Store.{World, Attempt, Submission, has_id}
use ambatucode.Official.Laws.{OneOfficial, UniqueIds, Belongs}
use ambatucode.Attempts.Start.{is_numbered}

abbrev pub of_attempt : ℕ → Submission → Bool
of_attempt i s = s.attempt_id == i

-- The statuses of an attempt that has not been handed in.
abbrev pub is_unsubmitted : AttemptStatus → Bool
is_unsubmitted AttemptStatus.submitted = false
is_unsubmitted AttemptStatus.reset = false
is_unsubmitted _ = true

-- An id below the counter, an attempt with number 1 beside it, and no Submission before it is handed in.
abbrev pub IsSoundRow : List Attempt → List Submission → ℕ → Attempt → Type 0
IsSoundRow rows subs n a =
    (a.id < n)
    × (any (is_numbered a.session_id a.user_id 1) rows ≡ true)
    × (is_unsubmitted a.status ≡ true → count_where (of_attempt a.id) subs ≡ 0)

-- Ids and attempt numbers are unique, at most one attempt of a Coder at a session is official, every
-- row is sound, and an attempt has at most one Submission.
pub record IsValid (rows : List Attempt) (subs : List Submission) (n : ℕ) : Type 0 where
  pub unique_ids : UniqueIds rows
  pub unique_numbers : (s u k : ℕ) → count_where (is_numbered s u k) rows ≤ 1
  pub one_official : OneOfficial rows
  pub rows_sound : All (IsSoundRow rows subs n) rows
  pub one_submission : (i : ℕ) → count_where (of_attempt i) subs ≤ 1
  pub subs_old : All (λ s. s.attempt_id < n) subs

abbrev pub Valid : World → Type 0
Valid w = IsValid w.attempts w.submissions w.next_id

-- A row that is found by its id is the only one with it.
pub found-Belongs :
    (i : ℕ) (rows : List Attempt) {a : Attempt}
    → UniqueIds rows
    → find_first (has_id i) rows ≡ some a
    → Belongs a.session_id a.user_id i rows
found-Belongs i rows ids found =
    All-imp rows (λ x same e. (ap (λ y. y.session_id) (same e), ap (λ y. y.user_id) (same e)))
      (All-unique (has_id i) rows (ids i) found)

-- An update that leaves ids, sessions, users and numbers alone.
pub record IsRewrite (f : Attempt → Attempt) : Type 0 where
  pub same_id : (a : Attempt) → (f a).id ≡ a.id
  pub same_session : (a : Attempt) → (f a).session_id ≡ a.session_id
  pub same_user : (a : Attempt) → (f a).user_id ≡ a.user_id
  pub same_number : (a : Attempt) → (f a).attempt_number ≡ a.attempt_number

-- The new status is one that the Submissions allow.
abbrev pub Allowed :
    List Submission → (Attempt → Bool) → (Attempt → Attempt) → List Attempt → Type 0
Allowed subs p f =
    All (λ a.
      p a ≡ true → is_unsubmitted (f a).status ≡ true → count_where (of_attempt a.id) subs ≡ 0)

pub rewrite-IsValid :
    (p : Attempt → Bool) (f : Attempt → Attempt) {rows : List Attempt} {subs : List Submission}
    {n : ℕ}
    → IsRewrite f
    → Allowed subs p f rows
    → OneOfficial (update_where p f rows)
    → IsValid rows subs n
    → IsValid (update_where p f rows) subs n
rewrite-IsValid p f {rows} {subs} {n} keep allowed one v = record {
  unique_ids = λ i.
      rw (count-update_every (has_id i) p f rows (λ a. ap (λ k. k == i) (keep.same_id a)))
        (v.unique_ids i);
  unique_numbers = λ s u k.
      rw (count-update_every (is_numbered s u k) p f rows (numbered s u k))
        (v.unique_numbers s u k);
  one_official = one;
  rows_sound =
      All-update (IsSoundRow (update_where p f rows) subs n) p f rows
        (All-imp rows
          (λ a sound. (
            sound.0,
            rw (any-update (is_numbered a.session_id a.user_id 1) p f rows (numbered _ _ _))
                sound.1,
            sound.2,
          ))
          v.rows_sound)
        (All-imp rows
          (λ a both e. (
            rw (keep.same_id a) both.0.0,
            rw
                (
                  any-update (is_numbered (f a).session_id (f a).user_id 1) p f rows
                      (numbered _ _ _),
                  keep.same_session a,
                  keep.same_user a,
                )
                both.0.1,
            rw (keep.same_id a) (both.1 e),
          ))
          (All-pair (IsSoundRow rows subs n) _ rows v.rows_sound allowed));
  one_submission = v.one_submission;
  subs_old = v.subs_old;
}
  where
    numbered : (s u k : ℕ) (a : Attempt) → is_numbered s u k (f a) ≡ is_numbered s u k a
    numbered s u k a = rw (keep.same_session a, keep.same_user a, keep.same_number a)
