-- ===== src/Content.antt =====
-- The Sections of a Module: createSection, deleteSection and reorderSections of
-- apps/web/src/server/services/sections.ts. A title is not modelled, and whether a Section holds graded
-- history, for which the database refuses to delete it, is a parameter.
pub mod Ordering
mod Tests
use ambatucode.Common.{
  ltb, leb, ◌==◌, if◌then◌else◌, is_some, is_none, or_default, ltb→lt, lt→ltb, leb→le, ==_iff,
  ==_refl, Bool-cases, Option-cases, sum, length, get_elem?, take, every, any, select, All,
  length-append, length-select-le, length-map, find_first, count_where, update_where, pick_later,
  find_last, remove_where, ℕ, zero, suc, ◌+◌, ◌-◌, ◌*◌, ◌/◌, ◌%◌, ◌≤◌, ◌<◌, min, max, ◌≡◌, refl,
  sym, ap, subst, ◌∙◌, ◌≢◌, ◌↔◌, ◌⊎◌, inl, inr, Bool, true, false, not, ◌&&◌, ◌||◌, Option, none,
  some, List, [], ◌∷◌, ◌++◌, map, arith, Error, Result, ok, err, ◌>>=◌, ◌>>◌, refuse_if, or_refuse,
}
use ambatucode.Store.{World}
use ambatucode.Access.{Actor}
use ambatucode.Sessions.Setup.{assert_can_write}

pub record Section : Type 0 where
  pub id : ℕ
  pub module_id : ℕ
  pub order_index : ℕ

pub record Outline : Type 0 where
  pub world : World
  pub sections : List Section
  pub next_section : ℕ

abbrev pub has_section_id : ℕ → Section → Bool
has_section_id i s = s.id == i

abbrev pub is_section_of : ℕ → Section → Bool
is_section_of m s = s.module_id == m

abbrev pub with_order : ℕ → Section → Section
with_order k s = record s { order_index = k }

-- `orderBy: { orderIndex: "asc" }`
abbrev pub insert_section : Section → List Section → List Section
insert_section s [] = s ∷ []
insert_section s (t ∷ ts) =
    let rest = insert_section s ts in
    if leb s.order_index t.order_index then s ∷ t ∷ ts else t ∷ rest

abbrev pub in_order : List Section → List Section
in_order [] = []
in_order (s ∷ ss) = insert_section s (in_order ss)

abbrev pub section_ids : ℕ → List Section → List ℕ
section_ids m sections = map (λ s. s.id) (in_order (select (is_section_of m) sections))

-- One update for each id, with its place in the list for its index.
unfoldable pub assign_orders : ℕ → List ℕ → List Section → List Section
assign_orders k [] sections = sections
assign_orders k (i ∷ is) sections =
    assign_orders (suc k) is (update_where (has_section_id i) (with_order k) sections)

unfoldable pub create_section : Actor → ℕ → Outline → Result ℕ × Outline
unfolding assert_can_write
create_section actor m o = elim (assert_can_write actor m o.world) [
  | err e ↦ (err e, o)
  | ok _ ↦ (
    ok o.next_section,
    record o {
      sections =
          record {
            id = o.next_section;
            module_id = m;
            order_index = count_where (is_section_of m) o.sections;
          }
          ∷ o.sections;
      next_section = suc o.next_section;
    },
  )
]

-- The Module of a Section, where the actor may write to it.
abbrev owned_section : Actor → ℕ → Outline → Result Section
owned_section actor i o = do
  s ← or_refuse (find_first (has_section_id i) o.sections) Error.not_found
  assert_can_write actor s.module_id o.world
  ok s

abbrev without_section : ℕ → ℕ → List Section → List Section
without_section i m sections =
    let rest = remove_where (has_section_id i) sections in assign_orders 0 (section_ids m rest) rest

unfoldable pub delete_section : (ℕ → Bool) → Actor → ℕ → Outline → Result (Unit {0}) × Outline
unfolding assert_can_write assign_orders
delete_section has_history actor i o = elim (owned_section actor i o) [
  | err e ↦ (err e, o)
  | ok s ↦
      if has_history i
      then (err Error.conflict, o)
      else (ok tt, record o { sections = without_section i s.module_id o.sections })
]

-- `new Set(ids).size`
unfoldable pub set_size : List ℕ → ℕ
set_size [] = 0
set_size (i ∷ is) = if any (λ j. j == i) is then set_size is else suc (set_size is)

abbrev pub is_named : List ℕ → ℕ → Bool
is_named ids i = any (λ j. j == i) ids

unfoldable pub assert_complete_ordering : List ℕ → List ℕ → Result (Unit {0})
unfolding set_size
assert_complete_ordering current requested = do
  refuse_if (not (set_size requested == length requested)) Error.validation_failed
  refuse_if
      (not (set_size requested == set_size current)
        || any (λ i. not (is_named current i)) requested)
      Error.validation_failed

abbrev pub reorder_checks : Actor → ℕ → List ℕ → Outline → Result (Unit {0})
reorder_checks actor m ids o = do
  allowed ← assert_can_write actor m o.world
  assert_complete_ordering (section_ids m o.sections) ids

unfoldable pub reorder_sections : Actor → ℕ → List ℕ → Outline → Result (List ℕ) × Outline
unfolding assert_can_write assert_complete_ordering assign_orders
reorder_sections actor m ids o = elim (reorder_checks actor m ids o) [
  | err e ↦ (err e, o)
  | ok _ ↦
      let after = assign_orders 0 ids o.sections in
      (ok (section_ids m after), record o { sections = after })
]
