-- ===== src/Progression.antt =====
-- The order in which a Coder goes through a Module: moduleSequence and nextModuleItem of
-- apps/web/src/server/services/module-progression.ts, without the titles.
pub mod Sequence
mod Tests
use ambatucode.Common.{
  ltb, leb, ◌==◌, if◌then◌else◌, is_some, is_none, or_default, ltb→lt, lt→ltb, leb→le, ==_iff,
  ==_refl, Bool-cases, Option-cases, sum, length, get_elem?, take, every, any, select, All,
  length-append, length-select-le, length-map, find_first, count_where, update_where, pick_later,
  find_last, remove_where, ℕ, zero, suc, ◌+◌, ◌-◌, ◌*◌, ◌/◌, ◌%◌, ◌≤◌, ◌<◌, min, max, ◌≡◌, refl,
  sym, ap, subst, ◌∙◌, ◌≢◌, ◌↔◌, ◌⊎◌, inl, inr, Bool, true, false, not, ◌&&◌, ◌||◌, Option, none,
  some, List, [], ◌∷◌, ◌++◌, map, arith, Error, Result, ok, err, ◌>>=◌, ◌>>◌, refuse_if, or_refuse,
}
use ambatucode.Store.{World}
use ambatucode.Access.{Actor, require_enrolled, assert_not_root}
use ambatucode.Content.{Section, in_order, is_section_of}

-- A Material or an Assessment, as its Section lists it.
pub record Piece : Type 0 where
  pub id : ℕ
  pub section_id : ℕ
  pub order_index : ℕ
  pub is_published : Bool

pub data ItemKind : Type 0 where
  material assessment : ItemKind

pub record ModuleItem : Type 0 where
  pub kind : ItemKind
  pub id : ℕ
  pub section_id : ℕ
  pub section_number : ℕ

pub record Catalogue : Type 0 where
  pub world : World
  pub sections : List Section
  pub materials : List Piece
  pub assessments : List Piece

abbrev insert_piece : Piece → List Piece → List Piece
insert_piece p [] = p ∷ []
insert_piece p (q ∷ qs) =
    let rest = insert_piece p qs in if leb p.order_index q.order_index then p ∷ q ∷ qs else q ∷ rest

abbrev pub sort_pieces : List Piece → List Piece
sort_pieces [] = []
sort_pieces (p ∷ ps) = insert_piece p (sort_pieces ps)

-- The owner sees every piece of a Section, a Coder the published ones.
abbrev pub pieces_of : Bool → ℕ → List Piece → List Piece
pieces_of is_owner section pieces =
    sort_pieces (select (λ p. p.section_id == section && (is_owner || p.is_published)) pieces)

abbrev item_of : ItemKind → ℕ → Piece → ModuleItem
item_of kind number p = record {
  kind = kind;
  id = p.id;
  section_id = p.section_id;
  section_number = number;
}

-- The items of the Sections from the one with this number on.
abbrev pub items_from : Bool → ℕ → List Section → List Piece → List Piece → List ModuleItem
items_from is_owner number [] materials assessments = []
items_from is_owner number (s ∷ ss) materials assessments =
    map (item_of ItemKind.material number) (pieces_of is_owner s.id materials)
    ++ (map (item_of ItemKind.assessment number) (pieces_of is_owner s.id assessments)
        ++ items_from is_owner (suc number) ss materials assessments)

-- `assertCanRead`: whether the actor owns the Module.
unfoldable pub assert_can_read : Actor → ℕ → World → Result Bool
unfolding assert_not_root require_enrolled
assert_can_read actor m w = do
  assert_not_root actor
  found ← require_enrolled actor m w
  ok (found.owner_id == actor.id)

unfoldable pub module_sequence : Actor → ℕ → Catalogue → Result (List ModuleItem)
unfolding assert_can_read
module_sequence actor m c = do
  is_owner ← assert_can_read actor m c.world
  ok (
      items_from is_owner 1 (in_order (select (is_section_of m) c.sections)) c.materials
        c.assessments)

abbrev pub same_kind : ItemKind → ItemKind → Bool
same_kind ItemKind.material ItemKind.material = true
same_kind ItemKind.assessment ItemKind.assessment = true
same_kind _ _ = false

abbrev pub is_item : ItemKind → ℕ → ModuleItem → Bool
is_item kind i item = same_kind item.kind kind && item.id == i

pub record NextItem : Type 0 where
  pub current : Option ModuleItem
  pub next : Option ModuleItem

abbrev pub head_of : List ModuleItem → Option ModuleItem
head_of [] = none
head_of (x ∷ _) = some x

-- The first item that is meant, and the one after it.
unfoldable pub next_in : ItemKind → ℕ → List ModuleItem → NextItem
next_in kind i [] = record { current = none; next = none }
next_in kind i (x ∷ xs) =
    let rest = next_in kind i xs in
    if is_item kind i x then record { current = some x; next = head_of xs } else rest

unfoldable pub next_module_item : Actor → ℕ → ItemKind → ℕ → Catalogue → Result NextItem
unfolding module_sequence next_in
next_module_item actor m kind i c = do items ← module_sequence actor m c; ok (next_in kind i items)
