-- ===== src/Content/Tests.antt =====
-- The Sections of a Module on concrete ones.
use ambatucode.Common.{
  get_elem?, find_first, ℕ, ◌≡◌, refl, ◌⊎◌, false, some, [], ◌∷◌, map, Error, ok, err,
}
use ambatucode.Access.{require_module_owner, assert_not_root}
use ambatucode.Sample.{busy, owner, coder}
use ambatucode.Sessions.Setup.{assert_can_write}
use ambatucode.Content.{
  Section, Outline, has_section_id, with_order, create_section, delete_section, reorder_sections,
  is_named, assign_orders, set_size, assert_complete_ordering,
}
use ambatucode.Content.Ordering.{reorder-places}

abbrev section_at : ℕ → ℕ → Section
section_at i k = record { id = i; module_id = 3; order_index = k }

abbrev outline : Outline
outline = record {
  world = busy;
  sections = section_at 40 0 ∷ section_at 41 1 ∷ section_at 42 2 ∷ [];
  next_section = 50;
}

reordered : (reorder_sections owner 3 (42 ∷ 40 ∷ 41 ∷ []) outline).0 ≡ ok (42 ∷ 40 ∷ 41 ∷ [])
unfolding reorder_sections assert_can_write assert_not_root require_module_owner
    assert_complete_ordering set_size assign_orders
reordered = refl

-- A list from a stale page is refused, as is one that names a Section twice.
stale_list : (reorder_sections owner 3 (42 ∷ 40 ∷ []) outline).0 ≡ err Error.validation_failed
unfolding reorder_sections assert_can_write assert_not_root require_module_owner
    assert_complete_ordering set_size assign_orders
stale_list = refl

doubled_list :
    (reorder_sections owner 3 (42 ∷ 40 ∷ 42 ∷ []) outline).0 ≡ err Error.validation_failed
unfolding reorder_sections assert_can_write assert_not_root require_module_owner
    assert_complete_ordering set_size assign_orders
doubled_list = refl

-- Deleting the first closes the gap, and the next one that is created goes last.
gap_closed :
    map
      (λ s. s.order_index)
      (create_section owner 3 (delete_section (λ _. false) owner 40 outline).1).1.sections
    ≡ 2 ∷ 0 ∷ 1 ∷ []
unfolding create_section delete_section assert_can_write assert_not_root require_module_owner
    assign_orders
gap_closed = refl

coder_refused : (create_section coder 3 outline).0 ≡ err Error.forbidden
unfolding create_section assert_can_write assert_not_root require_module_owner
coder_refused = refl

reorder-places_example :
    let done = reorder_sections owner 3 (42 ∷ 40 ∷ 41 ∷ []) outline in
    ((e : Error) × (done ≡ (err e, outline)))
    ⊎ ((i n : ℕ) (s : Section)
        → find_first (has_section_id i) outline.sections ≡ some s
        → let after = find_first (has_section_id i) done.1.sections in
          (get_elem? (42 ∷ 40 ∷ 41 ∷ []) n ≡ some i → after ≡ some (with_order n s))
          × (is_named (42 ∷ 40 ∷ 41 ∷ []) i ≡ false → after ≡ some s))
reorder-places_example = reorder-places owner 3 (42 ∷ 40 ∷ 41 ∷ []) outline
