-- ===== src/Scoring/Rounding.antt =====
-- Weights and the rounded quotient.
use ambatucode.Common.{
  ltb, ltb→lt, Bool-cases, select, ℕ, ◌+◌, ◌-◌, ◌*◌, ◌≤◌, ◌<◌, ◌≡◌, refl, ap, ◌≢◌, ◌↔◌, ◌⊎◌, inl,
  inr, List, [], ◌∷◌, arith,
}
use ambatucode.Scoring.{
  ScoredResult, counted, total_weight, earned_weight, round_div, is_weighted, or_unit,
}

pub earned-le-total : (cs : List ScoredResult) → earned_weight cs ≤ total_weight cs
unfolding earned_weight total_weight
earned-le-total [] = omega arith
earned-le-total (r ∷ cs) = ground (arith, earned-le-total cs)

weighted_or_none :
    (rs : List ScoredResult)
    → (select is_weighted rs ≡ []) ⊎ (0 < total_weight (select is_weighted rs))
unfolding total_weight
weighted_or_none [] = inl refl
weighted_or_none (r ∷ rs) = ground (arith, weighted_or_none rs)

or_unit_of_pos : (ws rs : List ScoredResult) → 0 < total_weight ws → or_unit ws rs ≡ ws
unfolding total_weight
or_unit_of_pos [] rs h = absurd (omega arith)
or_unit_of_pos (_ ∷ _) rs h = refl

-- The results that count always weigh something.
pub total-counted_pos : (rs : List ScoredResult) → rs ≢ [] → 0 < total_weight (counted rs)
unfolding counted total_weight
total-counted_pos [] h = absurd (h refl)
total-counted_pos (r ∷ rs) h = elim (weighted_or_none (r ∷ rs)) [
  | inl none_weighted ↦ rw none_weighted (omega arith)
  | inr p ↦ rw (or_unit_of_pos (select is_weighted (r ∷ rs)) (r ∷ rs) p) p
]

-- The quotient is the nearest whole number: 2 * d times it is within d of 2 * n.
pub round_div_bounds :
    (n d : ℕ)
    → 0 < d
    → (2 * d * round_div n d ≤ 2 * n + d) × (2 * n + d < 2 * d * round_div n d + 2 * d)
unfolding round_div
round_div_bounds n d h = grind arith

pub round_div_mono : (m n d : ℕ) → 0 < d → m ≤ n → round_div m d ≤ round_div n d
round_div_mono m n d p h = elim (Bool-cases (ltb (round_div n d) (round_div m d))) [
  | inl less ↦
      absurd (below (round_div_bounds m d p).0 (round_div_bounds n d p).1 (ltb→lt _ _ less))
  | inr more ↦ ground arith
]
  where
    below :
        2 * d * round_div m d ≤ 2 * m + d
        → 2 * n + d < 2 * d * round_div n d + 2 * d
        → round_div n d < round_div m d
        → ⊥
    below lo hi less = grind arith

mul_mono : (d a b : ℕ) → a ≤ b → 2 * d * a ≤ 2 * d * b
mul_mono d a b h = grind arith

pub round_div_le_100 : (e d : ℕ) → 0 < d → e ≤ d → round_div (100 * e) d ≤ 100
round_div_le_100 e d p h = elim (Bool-cases (ltb 100 (round_div (100 * e) d))) [
  | inl more ↦
      absurd (omega (arith, round_div_bounds (100 * e) d p, mul_mono d 101 _ (ltb→lt _ _ more)))
  | inr less ↦ ground arith
]

-- Of a percentage: it is 100 exactly when what is missing is at most half a percent.
pub round_div_full : (e d : ℕ) → 0 < d → e ≤ d → (round_div (100 * e) d ≡ 100) ↔ (200 * (d - e) ≤ d)
round_div_full e d p h = (
  λ full. omega (arith, round_div_bounds (100 * e) d p, ap (λ (q : ℕ). 2 * d * q) full),
  λ missing. elim (Bool-cases (ltb (round_div (100 * e) d) 100)) [
    | inl less ↦ absurd (
        omega (
          arith,
          round_div_bounds (100 * e) d p,
          mul_mono d (round_div (100 * e) d) 99 (omega (arith, ltb→lt _ _ less)),
        ))
    | inr more ↦ ground (arith, round_div_le_100 e d p h)
  ],
)
