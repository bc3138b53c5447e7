-- ===== src/Progression/Sequence.antt =====
-- Going from one item to the next: nextModuleItem of apps/web/src/server/services/module-progression.ts.
use ambatucode.Common.{
  ◌==◌, or_default, ==_refl, get_elem?, any, ℕ, zero, suc, ◌≡◌, refl, sym, ap, subst, ◌∙◌, Bool,
  true, false, ◌||◌, some, List, [], ◌∷◌, arith,
}
use ambatucode.Progression.{ModuleItem, ItemKind, next_in, is_item, head_of, same_kind}

-- No item of the list stands on it twice.
abbrev pub NoTwins : List ModuleItem → Type 0
NoTwins [] = Unit
NoTwins (x ∷ xs) = (any (is_item x.kind x.id) xs ≡ false) × NoTwins xs

same_kind_refl : (k : ItemKind) → same_kind k k ≡ true
same_kind_refl ItemKind.material = refl
same_kind_refl ItemKind.assessment = refl

same_kind_comm : (k l : ItemKind) → same_kind k l ≡ same_kind l k
same_kind_comm ItemKind.material ItemKind.material = refl
same_kind_comm ItemKind.material ItemKind.assessment = refl
same_kind_comm ItemKind.assessment ItemKind.material = refl
same_kind_comm ItemKind.assessment ItemKind.assessment = refl

==_comm : (a b : ℕ) → (a == b) ≡ (b == a)
==_comm a b = ground arith

or-false : (a b : Bool) → (a || b) ≡ false → (a ≡ false) × (b ≡ false)
or-false true b e = absurd (cc)
or-false false b e = (refl, e)

some_injective : {x y : ModuleItem} → some x ≡ some y → x ≡ y
some_injective {x} e = ap (λ o. or_default o x) e

is_itself : (x : ModuleItem) → is_item x.kind x.id x ≡ true
is_itself x = rw (same_kind_refl x.kind, ==_refl x.id) refl

is_item_comm : (x y : ModuleItem) → is_item x.kind x.id y ≡ is_item y.kind y.id x
is_item_comm x y = rw (same_kind_comm x.kind y.kind, ==_comm x.id y.id) refl

not_here :
    (x y : ModuleItem) (xs : List ModuleItem) (n : ℕ)
    → any (is_item x.kind x.id) xs ≡ false
    → get_elem? xs n ≡ some y
    → is_item x.kind x.id y ≡ false
not_here x y [] n none_of at = absurd (cc)
not_here x y (z ∷ xs) zero none_of at =
    subst (λ u. is_item x.kind x.id u ≡ false) (some_injective at) ((or-false _ _ none_of).0)
not_here x y (z ∷ xs) (suc n) none_of at = not_here x y xs n ((or-false _ _ none_of).1) at

not_before :
    (x y : ModuleItem) (xs : List ModuleItem) (n : ℕ)
    → any (is_item x.kind x.id) xs ≡ false
    → get_elem? xs n ≡ some y
    → is_item y.kind y.id x ≡ false
not_before x y xs n none_of at = sym (is_item_comm x y) ∙ not_here x y xs n none_of at

at_start : (items : List ModuleItem) → head_of items ≡ get_elem? items 0
at_start [] = refl
at_start (_ ∷ _) = refl

-- On a sequence that holds nothing twice, the item at each place is found as the current one, and
-- the one offered next is the one at the place after it, or none at the end.
pub next_follows :
    (items : List ModuleItem) (n : ℕ) (x : ModuleItem)
    → NoTwins items
    → get_elem? items n ≡ some x
    → next_in x.kind x.id items ≡ record { current = some x; next = get_elem? items (suc n) }
unfolding next_in
next_follows [] n x once at = absurd (cc)
next_follows (y ∷ items) zero x once at =
    subst
      (λ u.
        next_in u.kind u.id (y ∷ items)
        ≡ record { current = some u; next = get_elem? (y ∷ items) 1 })
      (some_injective at) (rw (is_itself y, at_start items) refl)
next_follows (y ∷ items) (suc n) x once at =
    rw (not_before y x items n once.0 at, next_follows items n x once.1 at) refl
