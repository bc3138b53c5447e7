-- ===== src/Progression/Tests.antt =====
-- Runs of nextModuleItem of apps/web/src/server/services/module-progression.ts.
use Prim.{tt}
use ambatucode.Common.{get_elem?, ℕ, ◌≡◌, refl, true, false, some, List, [], ◌∷◌, map}
use ambatucode.Progression.Sequence.{next_follows}
use ambatucode.Progression.{ModuleItem, ItemKind, Piece, next_in, pieces_of}

abbrev text_piece : ℕ → ℕ → Piece
text_piece i order = record { id = i; section_id = 1; order_index = order; is_published = true }

abbrev hidden_piece : Piece
hidden_piece = record { id = 9; section_id = 1; order_index = 1; is_published = false }

a_coder_sees :
    map (λ p. p.id) (pieces_of false 1 (text_piece 4 2 ∷ hidden_piece ∷ text_piece 3 0 ∷ []))
    ≡ 3 ∷ 4 ∷ []
a_coder_sees = refl

the_owner_sees :
    map (λ p. p.id) (pieces_of true 1 (text_piece 4 2 ∷ hidden_piece ∷ text_piece 3 0 ∷ []))
    ≡ 3 ∷ 9 ∷ 4 ∷ []
the_owner_sees = refl

abbrev reading : ItemKind → ℕ → ModuleItem
reading kind i = record { kind = kind; id = i; section_id = 1; section_number = 1 }

-- A Material and an Assessment with one id are two items.
same_id_apart :
    next_in ItemKind.assessment 3 (
      reading ItemKind.material 3
      ∷ reading ItemKind.assessment 3
      ∷ reading ItemKind.assessment 4
      ∷ [])
    ≡ record {
      current = some (reading ItemKind.assessment 3);
      next = some (reading ItemKind.assessment 4);
    }
unfolding next_in
same_id_apart = refl

abbrev walk : List ModuleItem
walk =
    reading ItemKind.material 3 ∷ reading ItemKind.assessment 3 ∷ reading ItemKind.assessment 4 ∷ []

next_follows_example :
    next_in ItemKind.assessment 3 walk
    ≡ record { current = some (reading ItemKind.assessment 3); next = get_elem? walk 2 }
next_follows_example =
    next_follows walk 1 (reading ItemKind.assessment 3) (refl, (refl, (refl, tt))) refl
