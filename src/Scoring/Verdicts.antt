-- ===== src/Scoring/Verdicts.antt =====
-- What a score says of the cases behind it.
use ambatucode.Common.{
  Bool-cases, every, select, ◌-◌, ◌*◌, ◌≤◌, ◌≡◌, refl, ◌≢◌, ◌↔◌, inl, inr, true, false, List, [],
  ◌∷◌, arith,
}
use ambatucode.Domain.{GradingStrategy, all_or_nothing, weighted_average, SubmissionStatus}
use ambatucode.Scoring.{
  ScoredResult, compute_score, strategy_score, counted, total_weight, earned_weight, is_scored,
  or_unit, is_weighted,
}
use ambatucode.Scoring.Rounding.{
  earned-le-total, total-counted_pos, round_div_mono, round_div_full, round_div_le_100,
}

-- Every score, under either strategy and for any results, is at most 100.
pub score-le-100 :
    (strategy : GradingStrategy) (status : SubmissionStatus) (rs : List ScoredResult)
    → compute_score strategy status rs ≤ 100
unfolding compute_score strategy_score
score-le-100 all_or_nothing status rs = ground arith
score-le-100 weighted_average status [] = ground arith
score-le-100 weighted_average status (r ∷ rs) = ground (
  arith,
  round_div_le_100 (earned_weight (counted (r ∷ rs))) (total_weight (counted (r ∷ rs))),
  total-counted_pos (r ∷ rs),
  earned-le-total (counted (r ∷ rs)),
)

-- Of a submission that was judged on at least one result, the weighted score is 100 exactly when
-- the weight that failed is at most one part in 200 of the weight that counts.
pub weighted_full_iff :
    (status : SubmissionStatus) (rs : List ScoredResult)
    → is_scored status ≡ true
    → rs ≢ []
    → (compute_score weighted_average status rs ≡ 100)
      ↔ (200 * (total_weight (counted rs) - earned_weight (counted rs)) ≤ total_weight (counted rs))
unfolding compute_score strategy_score
weighted_full_iff status [] h k = absurd (k refl)
weighted_full_iff status (r ∷ rs) h k = rw h (
    round_div_full (earned_weight (counted (r ∷ rs))) (total_weight (counted (r ∷ rs)))
      (total-counted_pos (r ∷ rs) k) (earned-le-total (counted (r ∷ rs))))

earned_of_every :
    (cs : List ScoredResult) → every (λ r. r.passed) cs ≡ true → earned_weight cs ≡ total_weight cs
unfolding earned_weight total_weight
earned_of_every [] h = refl
earned_of_every (c ∷ cs) h = ground (arith, earned_of_every cs)

-- All-or-nothing never gives more than the weighted average does.
pub all_or_nothing_le_weighted :
    (status : SubmissionStatus) (rs : List ScoredResult)
    → compute_score all_or_nothing status rs ≤ compute_score weighted_average status rs
unfolding compute_score strategy_score
all_or_nothing_le_weighted status [] = ground arith
all_or_nothing_le_weighted status (r ∷ rs) = ground (
  arith,
  round_div_full (earned_weight (counted (r ∷ rs))) (total_weight (counted (r ∷ rs))),
  total-counted_pos (r ∷ rs),
  earned-le-total (counted (r ∷ rs)),
  earned_of_every (counted (r ∷ rs)),
)

-- The same cases with the same weights, of which at least the same passed.
pub data Improves : List ScoredResult → List ScoredResult → Type 0 where
  none_left : Improves [] []
  one_more :
      {rs ss : List ScoredResult} (r s : ScoredResult)
      → r.weight ≡ s.weight
      → (r.passed ≡ true → s.passed ≡ true)
      → Improves rs ss
      → Improves (r ∷ rs) (s ∷ ss)

Improves-total : {rs ss : List ScoredResult} → Improves rs ss → total_weight rs ≡ total_weight ss
unfolding total_weight
Improves-total none_left = refl
Improves-total (one_more r s w p more) = omega (arith, Improves-total more)

Improves-earned : {rs ss : List ScoredResult} → Improves rs ss → earned_weight rs ≤ earned_weight ss
unfolding total_weight earned_weight
Improves-earned none_left = omega arith
Improves-earned (one_more r s w p more) = ground (arith, Improves-earned more)

Improves-every :
    {rs ss : List ScoredResult}
    → Improves rs ss
    → every (λ r. r.passed) rs ≡ true
    → every (λ r. r.passed) ss ≡ true
Improves-every none_left h = h
Improves-every (one_more r s w p more) h = ground (arith, Improves-every more)

Improves-select :
    {rs ss : List ScoredResult}
    → Improves rs ss
    → Improves (select is_weighted rs) (select is_weighted ss)
Improves-select none_left = none_left
Improves-select (one_more {rs} {ss} r s w p more) = elim (Bool-cases (is_weighted r)) [
  | inl e ↦
      let e' : is_weighted s ≡ true = ground arith in
      rw (e, e') (one_more r s w p (Improves-select more))
  | inr e ↦ let e' : is_weighted s ≡ false = ground arith in rw (e, e') (Improves-select more)
]

Improves-unit :
    {rs ss : List ScoredResult} → Improves rs ss → Improves (or_unit [] rs) (or_unit [] ss)
Improves-unit none_left = none_left
Improves-unit (one_more r s w p more) = one_more _ _ refl p (Improves-unit more)

Improves-or_unit :
    {ws xs rs ss : List ScoredResult}
    → Improves ws xs
    → Improves rs ss
    → Improves (or_unit ws rs) (or_unit xs ss)
Improves-or_unit none_left more = Improves-unit more
Improves-or_unit (one_more r s w p others) more = one_more r s w p others

Improves-counted : {rs ss : List ScoredResult} → Improves rs ss → Improves (counted rs) (counted ss)
unfolding counted
Improves-counted more = Improves-or_unit (Improves-select more) more

-- More passed cases never lower a score: with the same cases, weights and status, of which at least
-- the same passed, the score under either strategy is at least as high.
pub score_mono :
    (strategy : GradingStrategy) (status : SubmissionStatus) {rs ss : List ScoredResult}
    → Improves rs ss
    → compute_score strategy status rs ≤ compute_score strategy status ss
unfolding compute_score strategy_score
score_mono strategy status none_left = omega arith
score_mono all_or_nothing status (one_more {rs} {ss} r s w p more) =
    ground (arith, Improves-every (Improves-counted (one_more r s w p more)))
score_mono weighted_average status (one_more {rs} {ss} r s w p more) = ground (
  arith,
  round_div_mono (100 * earned_weight (counted (r ∷ rs))) (100 * earned_weight (counted (s ∷ ss)))
      (total_weight (counted (s ∷ ss))),
  total-counted_pos (s ∷ ss),
  Improves-total (Improves-counted (one_more r s w p more)),
  Improves-earned (Improves-counted (one_more r s w p more)),
)
