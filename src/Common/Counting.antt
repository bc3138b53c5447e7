-- ===== src/Common/Counting.antt =====
-- How many rows of a table pass a test, under the updates that the services make.
use native.Mathlib.Nat.{le_trans}
use ambatucode.Common.{
  ℕ, Option-cases, none, find_last, any, Bool-cases, All, find_first, count_where, update_where,
  remove_where, ◌+◌, ◌≤◌, ◌<◌, ◌≡◌, refl, subst, inl, inr, Bool, true, false, some, List, [], ◌∷◌,
  arith,
}

module _ {ℓ} {A : Type ℓ} where
  -- The rows that the update writes pass the test as they did before.
  pub count-update_same :
      (q p : A → Bool) (f : A → A) (xs : List A)
      → All (λ x. p x ≡ true → q (f x) ≡ q x) xs
      → count_where q (update_where p f xs) ≡ count_where q xs
  count-update_same q p f [] h = refl
  count-update_same q p f (x ∷ xs) h = ground (arith, count-update_same q p f xs h.1)

  pub count-update_every :
      (q p : A → Bool) (f : A → A) (xs : List A)
      → ((x : A) → q (f x) ≡ q x)
      → count_where q (update_where p f xs) ≡ count_where q xs
  count-update_every q p f [] h = refl
  count-update_every q p f (x ∷ xs) h = ground (arith, h x, count-update_every q p f xs h)

  -- Each row that is written counts for at most one more.
  pub count-update-le-add :
      (q p : A → Bool) (f : A → A) (xs : List A)
      → count_where q (update_where p f xs) ≤ count_where q xs + count_where p xs
  count-update-le-add q p f [] = omega arith
  count-update-le-add q p f (x ∷ xs) = ground (arith, count-update-le-add q p f xs)

  pub count-le :
      (p q : A → Bool) (xs : List A)
      → All (λ x. p x ≡ true → q x ≡ true) xs
      → count_where p xs ≤ count_where q xs
  count-le p q [] h = omega arith
  count-le p q (x ∷ xs) h = ground (arith, count-le p q xs h.1)

  pub count-eq_zero :
      (p : A → Bool) (xs : List A) → All (λ x. p x ≡ false) xs → count_where p xs ≡ 0
  count-eq_zero p [] h = refl
  count-eq_zero p (x ∷ xs) h = ground (arith, count-eq_zero p xs h.1)

  pub All-of_count_zero :
      (p : A → Bool) (xs : List A) → count_where p xs ≡ 0 → All (λ x. p x ≡ false) xs
  All-of_count_zero p [] h = tt
  All-of_count_zero p (x ∷ xs) h = ground (arith, All-of_count_zero p xs)

  pub All-imp {κ μ} :
      {P : A → Type κ} {Q : A → Type μ} (xs : List A) → ((x : A) → P x → Q x) → All P xs → All Q xs
  All-imp [] f h = tt
  All-imp (x ∷ xs) f h = (f x h.0, All-imp xs f h.1)

  pub All-pair {κ μ} :
      (P : A → Type κ) (Q : A → Type μ) (xs : List A)
      → All P xs
      → All Q xs
      → All (λ x. P x × Q x) xs
  All-pair P Q [] h k = tt
  All-pair P Q (x ∷ xs) h k = ((h.0, k.0), All-pair P Q xs h.1 k.1)

  pub All-of {κ} : {P : A → Type κ} (xs : List A) → ((x : A) → P x) → All P xs
  All-of [] f = tt
  All-of (x ∷ xs) f = (f x, All-of xs f)

  pub All-update {κ} :
      (P : A → Type κ) (p : A → Bool) (f : A → A) (xs : List A)
      → All P xs
      → All (λ x. p x ≡ true → P (f x)) xs
      → All P (update_where p f xs)
  All-update P p f [] h k = tt
  All-update P p f (x ∷ xs) h k = (
    elim (Bool-cases (p x)) [ inl e ↦ rw e (k.0 e) | inr e ↦ rw e h.0 ],
    All-update P p f xs h.1 k.1,
  )

  pub All-remove {κ} :
      (P : A → Type κ) (p : A → Bool) (xs : List A) → All P xs → All P (remove_where p xs)
  All-remove P p [] h = tt
  All-remove P p (x ∷ xs) h = elim (Bool-cases (p x)) [
    | inl e ↦ rw e (All-remove P p xs h.1)
    | inr e ↦ rw e (h.0, All-remove P p xs h.1)
  ]

  pub count-remove-le :
      (q p : A → Bool) (xs : List A) → count_where q (remove_where p xs) ≤ count_where q xs
  count-remove-le q p [] = omega arith
  count-remove-le q p (x ∷ xs) = ground (arith, count-remove-le q p xs)

  -- The row that is found passes the test, and what holds of every row holds of it.
  pub find_first-passes :
      (p : A → Bool) (xs : List A) {a : A} → find_first p xs ≡ some a → p a ≡ true
  find_first-passes p [] h = cc
  find_first-passes p (x ∷ xs) {a} h = ground (arith, find_first-passes p xs {a = a})

  pub find_first-All {κ} :
      (P : A → Type κ) (p : A → Bool) (xs : List A) {a : A}
      → find_first p xs ≡ some a
      → All P xs
      → P a
  find_first-All P p [] h k = cc
  find_first-All P p (x ∷ xs) h k = elim (Bool-cases (p x)) [
    | inl e ↦ let same : x ≡ _ = ground arith in subst P same k.0
    | inr e ↦ find_first-All P p xs (ground arith) k.1
  ]

  pub find_first-none :
      (p : A → Bool) (xs : List A) → find_first p xs ≡ none → All (λ x. p x ≡ false) xs
  find_first-none p [] h = tt
  find_first-none p (x ∷ xs) h = elim (Bool-cases (p x)) [
    | inl e ↦ absurd (let broken = rw e at h in cc)
    | inr e ↦ (e, find_first-none p xs (rw e at h))
  ]

  pub count_pos-of_find :
      (p : A → Bool) (xs : List A) {a : A} → find_first p xs ≡ some a → 0 < count_where p xs
  count_pos-of_find p [] h = cc
  count_pos-of_find p (x ∷ xs) {a} h = ground (arith, count_pos-of_find p xs {a = a})

  -- Where at most one row passes, all that pass are the one that is found.
  pub All-unique :
      (p : A → Bool) (xs : List A) {a : A}
      → count_where p xs ≤ 1
      → find_first p xs ≡ some a
      → All (λ x. p x ≡ true → x ≡ a) xs
  All-unique p [] c h = tt
  All-unique p (x ∷ xs) {a} c h = elim (Bool-cases (p x)) [
    | inl e ↦
        let rest : count_where p xs ≡ 0 = ground arith in
        (λ _. ground arith, All-imp xs (λ y n pass. absurd (cc)) (All-of_count_zero p xs rest))
    | inr e ↦ (λ pass. absurd (cc), All-unique p xs (ground arith) (ground arith))
  ]

  pub count_pos-update :
      (q p : A → Bool) (f : A → A) (xs : List A)
      → 0 < count_where p xs
      → All (λ x. p x ≡ true → q (f x) ≡ true) xs
      → 0 < count_where q (update_where p f xs)
  count_pos-update q p f [] c h = absurd (omega arith)
  count_pos-update q p f (x ∷ xs) c h = ground (arith, count_pos-update q p f xs)

  pub All-update_every {κ} :
      (P : A → Type κ) (p : A → Bool) (f : A → A) (xs : List A)
      → ((x : A) → P x → P (f x))
      → All P xs
      → All P (update_where p f xs)
  All-update_every P p f xs step h =
      All-update P p f xs h (All-imp xs (λ x holds _. step x holds) h)

  pub any-eq_false : (p : A → Bool) (xs : List A) → any p xs ≡ false → All (λ x. p x ≡ false) xs
  any-eq_false p [] h = tt
  any-eq_false p (x ∷ xs) h = ground (arith, any-eq_false p xs)

  pub any-update :
      (q p : A → Bool) (f : A → A) (xs : List A)
      → ((x : A) → q (f x) ≡ q x)
      → any q (update_where p f xs) ≡ any q xs
  any-update q p f [] h = refl
  any-update q p f (x ∷ xs) h = ground (arith, h x, any-update q p f xs h)

  -- The row with the greatest key: none where no row passes, and else no row that passes is greater.
  pub find_last-none :
      (key : A → ℕ) (p : A → Bool) (xs : List A)
      → find_last key p xs ≡ none
      → All (λ x. p x ≡ false) xs
  find_last-none key p [] h = tt
  find_last-none key p (x ∷ xs) h = elim (Bool-cases (p x)) [
    | inl e ↦ absurd (let broken = rw e at h in cc)
    | inr e ↦ (e, find_last-none key p xs (rw e at h))
  ]

  pub find_last-max :
      (key : A → ℕ) (p : A → Bool) (xs : List A) {a : A}
      → find_last key p xs ≡ some a
      → All (λ x. p x ≡ true → key x ≤ key a) xs
  find_last-max key p [] h = tt
  find_last-max key p (x ∷ xs) {a} h = elim (Option-cases (find_last key p xs)) [
    | inl missing ↦
        (λ e. ground arith, All-imp xs (λ y no e. absurd (cc)) (find_last-none key p xs missing))
    | inr (b, found) ↦
        let top : key b ≤ key a = ground arith in
        (
          λ e. ground arith,
          All-imp xs (λ y le e. le_trans (le e) top) (find_last-max key p xs found),
        )
  ]
