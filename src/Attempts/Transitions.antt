-- ===== src/Attempts/Transitions.antt =====
-- The changes of the attempts table, each of which keeps the invariant.
use ambatucode.Common.{
  ◌==◌, Bool-cases, any, All, count_where, update_where, ℕ, suc, ◌≤◌, ◌<◌, ◌≡◌, refl, inl, inr,
  Bool, true, false, Option, List, ◌∷◌, arith,
}
use ambatucode.Common.Counting.{count-update_every, All-imp, All-of, All-pair, count-eq_zero}
use ambatucode.Domain.{AttemptStatus}
use ambatucode.Store.{Attempt, Submission, has_id}
use ambatucode.Official.{is_official_sibling, with_official}
use ambatucode.Official.Laws.{OneOfficial}
use ambatucode.Attempts.Start.{is_numbered, is_waiting, with_start}
use ambatucode.Attempts.Submit.{with_status}
use ambatucode.Attempts.Invariant.{IsValid, IsSoundRow, rewrite-IsValid, of_attempt, is_unsubmitted}

-- A rewrite that leaves the official flag alone too.
plain-OneOfficial :
    (rows : List Attempt) (p : Attempt → Bool) (f : Attempt → Attempt)
    → ((s u : ℕ) (a : Attempt) → is_official_sibling s u (f a) ≡ is_official_sibling s u a)
    → OneOfficial rows
    → OneOfficial (update_where p f rows)
plain-OneOfficial rows p f same one s u =
    rw (count-update_every (is_official_sibling s u) p f rows (same s u)) (one s u)

module _ {rows : List Attempt} {subs : List Submission} {n : ℕ} where
  pub with_start-IsValid :
      (i now : ℕ) (deadline : Option ℕ)
      → IsValid rows subs n
      → IsValid (update_where (is_waiting i) (with_start now deadline) rows) subs n
  with_start-IsValid i now deadline v =
      rewrite-IsValid (is_waiting i) (with_start now deadline)
        (record {
          same_id = λ a. refl;
          same_session = λ a. refl;
          same_user = λ a. refl;
          same_number = λ a. refl;
        })
        (All-imp rows (λ a sound e _. sound.2 (ground arith)) v.rows_sound)
        (plain-OneOfficial rows (is_waiting i) (with_start now deadline) (λ s u a. refl)
          v.one_official)
        v

  -- A status that counts as handed in, or any status of an attempt without a Submission.
  pub with_status-IsValid :
      (i : ℕ) (status : AttemptStatus)
      → (is_unsubmitted status ≡ true → count_where (of_attempt i) subs ≡ 0)
      → IsValid rows subs n
      → IsValid (update_where (has_id i) (with_status status) rows) subs n
  with_status-IsValid i status free v =
      rewrite-IsValid (has_id i) (with_status status)
        (record {
          same_id = λ a. refl;
          same_session = λ a. refl;
          same_user = λ a. refl;
          same_number = λ a. refl;
        })
        (All-of rows (λ a e h. let same : a.id ≡ i = ground arith in rw same (free h)))
        (plain-OneOfficial rows (has_id i) (with_status status) (λ s u a. refl) v.one_official) v

  pub with_official-IsValid :
      (p : Attempt → Bool) (b : Bool)
      → OneOfficial (update_where p (with_official b) rows)
      → IsValid rows subs n
      → IsValid (update_where p (with_official b) rows) subs n
  with_official-IsValid p b one v =
      rewrite-IsValid p (with_official b)
        (record {
          same_id = λ a. refl;
          same_session = λ a. refl;
          same_user = λ a. refl;
          same_number = λ a. refl;
        })
        (All-imp rows (λ a sound _. sound.2) v.rows_sound) one v

  -- One more row, with the counter's id and a number that no sibling has.
  pub insert-IsValid :
      (a : Attempt)
      → a.id ≡ n
      → count_where (is_numbered a.session_id a.user_id a.attempt_number) rows ≡ 0
      → any (is_numbered a.session_id a.user_id 1) (a ∷ rows) ≡ true
      → OneOfficial (a ∷ rows)
      → IsValid rows subs n
      → IsValid (a ∷ rows) subs (suc n)
  insert-IsValid a new free first one v = record {
    unique_ids = λ i. ground (arith, v.unique_ids i, older i);
    unique_numbers = λ s u k. numbered s u k;
    one_official = one;
    rows_sound = (
      (
        omega arith,
        first,
        λ _. count-eq_zero (of_attempt a.id) subs (All-imp subs (λ s old. ground arith) v.subs_old),
      ),
      All-imp rows (λ b sound. (omega arith, ground arith, sound.2)) v.rows_sound,
    );
    one_submission = v.one_submission;
    subs_old = All-imp subs (λ s old. omega arith) v.subs_old;
  }
    where
      older : (i : ℕ) → i ≡ n → count_where (has_id i) rows ≡ 0
      older i e =
          count-eq_zero (has_id i) rows (All-imp rows (λ b sound. ground arith) v.rows_sound)

      numbered : (s u k : ℕ) → count_where (is_numbered s u k) (a ∷ rows) ≤ 1
      numbered s u k = elim (Bool-cases (is_numbered s u k a)) [
        | inl same ↦
            let e : a.session_id ≡ s = ground arith in
            let e' : a.user_id ≡ u = ground arith in
            let e'' : a.attempt_number ≡ k = ground arith in
            rw same (omega (arith, rw (e, e', e'') at free))
        | inr other ↦ rw other (omega (arith, v.unique_numbers s u k))
      ]

  -- A Submission of an attempt that has none and is no longer open to one.
  pub add_submission-IsValid :
      (s : Submission)
      → s.attempt_id < n
      → count_where (of_attempt s.attempt_id) subs ≡ 0
      → All (λ a. has_id s.attempt_id a ≡ true → is_unsubmitted a.status ≡ false) rows
      → IsValid rows subs n
      → IsValid rows (s ∷ subs) (suc n)
  add_submission-IsValid s old none_yet closed v = record {
    unique_ids = v.unique_ids;
    unique_numbers = v.unique_numbers;
    one_official = v.one_official;
    rows_sound =
        All-imp rows
          (λ a both. (omega (arith, both.0.0), both.0.1, λ h. ground (arith, both.0.2 h, both.1)))
          (All-pair (IsSoundRow rows subs n)
            (λ a. has_id s.attempt_id a ≡ true → is_unsubmitted a.status ≡ false) rows v.rows_sound
            closed);
    one_submission = λ i. elim (Bool-cases (s.attempt_id == i)) [
      | inl same ↦
          let e : s.attempt_id ≡ i = ground arith in rw same (omega (arith, rw e at none_yet))
      | inr other ↦ rw other (omega (arith, v.one_submission i))
    ];
    subs_old = (omega arith, All-imp subs (λ t h. omega arith) v.subs_old);
  }
