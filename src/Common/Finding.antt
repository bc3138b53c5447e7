-- ===== src/Common/Finding.antt =====
-- The row that a query finds after the updates that the services make.
use ambatucode.Common.{
  false, ◌∙◌, sym, any, ◌↔◌, Bool-cases, inl, inr, All, true, if◌then◌else◌, select, find_first,
  count_where, update_where, remove_where, ◌≡◌, refl, ap, Bool, none, some, List, [], ◌∷◌, ◌++◌,
  arith,
}
use mathlib.Core.List.{Memᴰ}
use mathlib.Core.List.Memᴰ

module _ {ℓ} {A : Type ℓ} where
  -- A row that is found is found after an update that leaves the query alone, written or as it was.
  pub find-update :
      (q p : A → Bool) (f : A → A) (xs : List A) {a : A}
      → ((x : A) → q (f x) ≡ q x)
      → find_first q xs ≡ some a
      → find_first q (update_where p f xs) ≡ some (if p a then f a else a)
  find-update q p f [] same h = absurd (cc)
  find-update q p f (x ∷ xs) {a} same h = ground (arith, same x, find-update q p f xs {a = a} same)

  pub find-update_none :
      (q p : A → Bool) (f : A → A) (xs : List A)
      → ((x : A) → q (f x) ≡ q x)
      → find_first q xs ≡ none
      → find_first q (update_where p f xs) ≡ none
  find-update_none q p f [] same h = refl
  find-update_none q p f (x ∷ xs) same h = ground (arith, same x, find-update_none q p f xs same)

  -- An update of rows that the query does not look for leaves what it finds.
  pub find-update_apart :
      (q p : A → Bool) (f : A → A) (xs : List A)
      → ((x : A) → q (f x) ≡ q x)
      → ((x : A) → p x ≡ true → q x ≡ false)
      → find_first q (update_where p f xs) ≡ find_first q xs
  find-update_apart q p f [] same apart = refl
  find-update_apart q p f (x ∷ xs) same apart =
      ground (arith, same x, apart x, find-update_apart q p f xs same apart)

  -- After the rows that pass are removed, none passes; and what another test counts stays.
  pub count-remove_same : (p : A → Bool) (xs : List A) → count_where p (remove_where p xs) ≡ 0
  count-remove_same p [] = refl
  count-remove_same p (x ∷ xs) = ground (arith, count-remove_same p xs)

  pub select-append :
      (p : A → Bool) (xs ys : List A) → select p (xs ++ ys) ≡ select p xs ++ select p ys
  select-append p [] ys = refl
  select-append p (x ∷ xs) ys = ground (arith, select-append p xs ys)

  pub select-remove_same : (p : A → Bool) (xs : List A) → select p (remove_where p xs) ≡ []
  select-remove_same p [] = refl
  select-remove_same p (x ∷ xs) = ground (arith, select-remove_same p xs)

  pub append_nil : (xs : List A) → xs ++ [] ≡ xs
  append_nil [] = refl
  append_nil (x ∷ xs) = ap (λ r. x ∷ r) (append_nil xs)

  pub find-removed : (p : A → Bool) (xs : List A) → find_first p (remove_where p xs) ≡ none
  find-removed p [] = refl
  find-removed p (x ∷ xs) = ground (arith, find-removed p xs)

  pub append_assoc : (xs ys zs : List A) → (xs ++ ys) ++ zs ≡ xs ++ (ys ++ zs)
  append_assoc [] ys zs = refl
  append_assoc (x ∷ xs) ys zs = ap (λ r. x ∷ r) (append_assoc xs ys zs)

  pub select-All : (p : A → Bool) (xs : List A) → All (λ x. p x ≡ true) (select p xs)
  select-All p [] = tt
  select-All p (x ∷ xs) = elim (Bool-cases (p x)) [
    | inl e ↦ rw e (e, select-All p xs)
    | inr e ↦ rw e (select-All p xs)
  ]

  -- The rows that a query selects are those that pass.
  pub select-Mem :
      (p : A → Bool) (xs : List A) (a : A) → Memᴰ a (select p xs) ↔ (Memᴰ a xs × (p a ≡ true))
  select-Mem p [] a = (λ m. absurd (Memᴰ.not-nil m), λ h. h.0)
  select-Mem p (x ∷ xs) a = elim (Bool-cases (p x)) [
    | inl e ↦ rw e (
      λ m. elim (Memᴰ.cases_cons m) [
        | inl same ↦ (Memᴰ.head same, ap p same ∙ e)
        | inr later ↦ let (there, passes) = (select-Mem p xs a).0 later in (Memᴰ.tail there, passes)
      ],
      λ h. elim (Memᴰ.cases_cons h.0) [
        | inl same ↦ Memᴰ.head same
        | inr later ↦ Memᴰ.tail ((select-Mem p xs a).1 (later, h.1))
      ],
    )
    | inr e ↦ rw e (
      λ m. let (there, passes) = (select-Mem p xs a).0 m in (Memᴰ.tail there, passes),
      λ h. elim (Memᴰ.cases_cons h.0) [
        | inl same ↦ absurd (let clash : true ≡ false = sym h.1 ∙ ap p same ∙ e in cc)
        | inr later ↦ (select-Mem p xs a).1 (later, h.1)
      ],
    )
  ]

  -- What some row passes is passed by a row of the list.
  pub any-Mem : (p : A → Bool) (xs : List A) → any p xs ≡ true → (a : A) × Memᴰ a xs × (p a ≡ true)
  any-Mem p [] h = absurd (cc)
  any-Mem p (x ∷ xs) h = elim (Bool-cases (p x)) [
    | inl e ↦ (x, Memᴰ.head refl, e)
    | inr e ↦ let (a, there, passes) = any-Mem p xs (rw e at h) in (a, Memᴰ.tail there, passes)
  ]

  pub Mem-any : (p : A → Bool) (xs : List A) {a : A} → Memᴰ a xs → p a ≡ true → any p xs ≡ true
  Mem-any p [] m h = absurd (Memᴰ.not-nil m)
  Mem-any p (x ∷ xs) m h = elim (Memᴰ.cases_cons m) [
    | inl same ↦ let here : p x ≡ true = sym (ap p same) ∙ h in rw here refl
    | inr later ↦ ground (arith, Mem-any p xs later h)
  ]

  pub find_first-Mem :
      (p : A → Bool) (xs : List A) {a : A} → find_first p xs ≡ some a → Memᴰ a xs × (p a ≡ true)
  find_first-Mem p [] h = absurd (cc)
  find_first-Mem p (x ∷ xs) {a} h = elim (Bool-cases (p x)) [
    | inl e ↦
        let same : x ≡ a = (let found = rw e at h in cc) in
        (Memᴰ.head (sym same), ap p (sym same) ∙ e)
    | inr e ↦ let (there, passes) = find_first-Mem p xs (rw e at h) in (Memᴰ.tail there, passes)
  ]
