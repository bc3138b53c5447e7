-- ===== src/Common/Tables.antt =====
-- The tables of the database as lists of rows, and the queries that the services make of them:
-- `findFirst`, `count`, `updateMany`, `deleteMany` and `findFirst` with `orderBy ... desc`.
use Prim.Native.Nat.{ℕ, ◌+◌}
use mathlib.Core.Bool.{Bool}
use mathlib.Core.Option.{Option, none, some}
use mathlib.Core.List.{List, [], ◌∷◌}
use ambatucode.Common.Tests.{if◌then◌else◌, ltb}

module _ {ℓ} {A : Type ℓ} where
  abbrev pub find_first : (A → Bool) → List A → Option A
  find_first p [] = none
  find_first p (x ∷ xs) = if p x then some x else find_first p xs

  abbrev pub count_where : (A → Bool) → List A → ℕ
  count_where p [] = 0
  count_where p (x ∷ xs) = (if p x then 1 else 0) + count_where p xs

  abbrev pub update_where : (A → Bool) → (A → A) → List A → List A
  update_where p f [] = []
  update_where p f (x ∷ xs) = (if p x then f x else x) ∷ update_where p f xs

  abbrev pub remove_where : (A → Bool) → List A → List A
  remove_where p [] = []
  remove_where p (x ∷ xs) = let rest = remove_where p xs in if p x then rest else x ∷ rest

  -- The row with the greatest key among those that pass.
  abbrev pub pick_later : (A → ℕ) → A → Option A → A
  pick_later key x none = x
  pick_later key x (some y) = if ltb (key x) (key y) then y else x

  abbrev pub find_last : (A → ℕ) → (A → Bool) → List A → Option A
  find_last key p [] = none
  find_last key p (x ∷ xs) =
      let rest = find_last key p xs in if p x then some (pick_later key x rest) else rest
