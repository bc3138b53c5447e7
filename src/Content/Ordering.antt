-- ===== src/Content/Ordering.antt =====
-- Where a reorder leaves the Sections.
use ambatucode.Sessions.Setup.{assert_can_write}
use ambatucode.Common.{
  subst, true, ◌∙◌, ap, update_where, ◌+◌, Error, err, ok, bind-ok, refuse_if, refuse_if-ok, not,
  ◌==◌, ◌⊎◌, Result-cases, refl, ◌==◌, Bool-cases, length, get_elem?, any, find_first, update_where,
  ℕ, zero, suc, ◌+◌, ◌≤◌, ◌≡◌, refl, ap, subst, ◌∙◌, ◌⊎◌, inl, inr, true, false, not, some, List,
  [], ◌∷◌, arith, Error, ok, err, refuse_if,
}
use ambatucode.Common.Counting.{find_first-passes}
use ambatucode.Common.Finding.{find-update}
use ambatucode.Access.{Actor, Actor}
use ambatucode.Content.{
  Outline, assert_complete_ordering, reorder_sections, reorder_checks, section_ids, Section,
  Outline, has_section_id, with_order, assign_orders, set_size, is_named, assert_complete_ordering,
  reorder_sections, reorder_checks, section_ids,
}

set_size-le-length : (is : List ℕ) → set_size is ≤ length is
unfolding set_size
set_size-le-length [] = omega arith
set_size-le-length (i ∷ is) = ground (arith, set_size-le-length is)

-- A list as long as its set names nothing twice.
no_twins :
    (i : ℕ) (is : List ℕ)
    → set_size (i ∷ is) ≡ length (i ∷ is)
    → (any (λ j. j == i) is ≡ false) × (set_size is ≡ length is)
unfolding set_size
no_twins i is h = elim (Bool-cases (any (λ j. j == i) is)) [
  | inl twin ↦ absurd (let short = rw twin at h in omega (arith, short, set_size-le-length is))
  | inr single ↦ (single, let long = rw single at h in omega (arith, long))
]

-- A Section that is not named keeps its row.
unnamed_keeps :
    (i k : ℕ) (ids : List ℕ) (sections : List Section) {s : Section}
    → find_first (has_section_id i) sections ≡ some s
    → is_named ids i ≡ false
    → find_first (has_section_id i) (assign_orders k ids sections) ≡ some s
unfolding assign_orders
unnamed_keeps i k [] sections found other = found
unnamed_keeps i k (j ∷ ids) sections {s} found other =
    let mine = find_first-passes (has_section_id i) sections found in
    let apart : has_section_id j s ≡ false = ground arith in
    unnamed_keeps i (suc k) ids _
      (find-update (has_section_id i) (has_section_id j) (with_order k) sections {a = s} (λ x. refl)
          found
        ∙ rw apart refl)
      (ground arith)

named_moves :
    (i k n : ℕ) (ids : List ℕ) (sections : List Section) {s : Section}
    → find_first (has_section_id i) sections ≡ some s
    → set_size ids ≡ length ids
    → get_elem? ids n ≡ some i
    → find_first (has_section_id i) (assign_orders k ids sections) ≡ some (with_order (k + n) s)
unfolding assign_orders
named_moves i k n [] sections found single at = absurd (cc)
named_moves i k zero (j ∷ ids) sections {s} found single at =
    let same : j ≡ i = ground arith in
    let alone : is_named ids i ≡ false =
      subst (λ x. is_named ids x ≡ false) same (no_twins j ids single).0 in
    let this : has_section_id j s ≡ true =
      ground (arith, find_first-passes (has_section_id i) sections found) in
    let start : k ≡ k + 0 = omega arith in
    unnamed_keeps i (suc k) ids _
      (find-update (has_section_id i) (has_section_id j) (with_order k) sections {a = s} (λ x. refl)
          found
        ∙ rw this refl)
      alone
    ∙ ap (λ m. some (with_order m s)) start
named_moves i k (suc n) (j ∷ ids) sections {s} found single at =
    let next = update_where (has_section_id j) (with_order k) sections in
    let moved =
      find-update (has_section_id i) (has_section_id j) (with_order k) sections {a = s} (λ x. refl)
        found in
    let rest = (no_twins j ids single).1 in
    let place : suc k + n ≡ k + suc n = omega arith in
    elim (Bool-cases (has_section_id j s)) [
      | inl this ↦
          named_moves i (suc k) n ids next {s = with_order k s} (moved ∙ rw this refl) rest at
          ∙ ap (λ m. some (with_order m s)) place
      | inr other ↦
          named_moves i (suc k) n ids next {s = s} (moved ∙ rw other refl) rest at
          ∙ ap (λ m. some (with_order m s)) place
    ]

complete_is_single :
    (current requested : List ℕ)
    → assert_complete_ordering current requested ≡ ok tt
    → set_size requested ≡ length requested
unfolding assert_complete_ordering
complete_is_single current requested accepted =
    let (_, single, _) =
      bind-ok (refuse_if (not (set_size requested == length requested)) Error.validation_failed)
        accepted in
    ground (
      arith,
      refuse_if-ok (not (set_size requested == length requested)) Error.validation_failed single,
    )

-- A reorder of a Module's Sections is refused and changes nothing, or each Section that is named at
-- a place has that place as its index, and each that is not named is as it was.
pub reorder-places :
    (actor : Actor) (m : ℕ) (ids : List ℕ) (o : Outline)
    → ((e : Error) × (reorder_sections actor m ids o ≡ (err e, o)))
      ⊎ ((i n : ℕ) (s : Section)
          → find_first (has_section_id i) o.sections ≡ some s
          → let after = find_first (has_section_id i) (reorder_sections actor m ids o).1.sections in
            (get_elem? ids n ≡ some i → after ≡ some (with_order n s))
            × (is_named ids i ≡ false → after ≡ some s))
unfolding reorder_sections
reorder-places actor m ids o = elim (Result-cases (reorder_checks actor m ids o)) [
  | inl (e, refused) ↦ inl (e, rw (refused, reorder_sections) refl)
  | inr (done, checked) ↦ inr (λ i n s found.
      let (_, _, accepted) = bind-ok (assert_can_write actor m o.world) checked in
      let single = complete_is_single (section_ids m o.sections) ids accepted in
      rw (checked, reorder_sections)
        (
          λ at.
              named_moves i 0 n ids o.sections found single at
              ∙ ap (λ k. some (with_order k s)) (omega arith),
          λ other. unnamed_keeps i 0 ids o.sections found other,
        ))
]
