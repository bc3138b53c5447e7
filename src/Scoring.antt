-- ===== src/Scoring.antt =====
-- The score of an attempt, apps/web/src/server/services/scoring.ts. Weights are whole numbers, as the
-- authoring schemas require; `Math.round` of a quotient is the quotient of the doubled numbers.
pub mod Rounding
pub mod Verdicts
mod Tests
use ambatucode.Common.{
  ltb, leb, ◌==◌, if◌then◌else◌, is_some, is_none, or_default, ltb→lt, lt→ltb, leb→le, ==_iff,
  ==_refl, Bool-cases, Option-cases, sum, length, get_elem?, take, every, any, select, All,
  length-append, length-select-le, length-map, find_first, count_where, update_where, pick_later,
  find_last, remove_where, ℕ, zero, suc, ◌+◌, ◌-◌, ◌*◌, ◌/◌, ◌%◌, ◌≤◌, ◌<◌, min, max, ◌≡◌, refl,
  sym, ap, subst, ◌∙◌, ◌≢◌, ◌↔◌, ◌⊎◌, inl, inr, Bool, true, false, not, ◌&&◌, ◌||◌, Option, none,
  some, List, [], ◌∷◌, ◌++◌, map, arith,
}
use ambatucode.Domain.{GradingStrategy, SubmissionStatus}

pub record ScoredResult : Type 0 where
  pub passed : Bool
  pub weight : ℕ

-- `SCORED_STATUSES.has(status)`
abbrev pub is_scored : SubmissionStatus → Bool
is_scored SubmissionStatus.graded = true
is_scored SubmissionStatus.runtime_error = true
is_scored SubmissionStatus.time_limit_exceeded = true
is_scored SubmissionStatus.memory_limit_exceeded = true
is_scored _ = false

abbrev pub is_weighted : ScoredResult → Bool
is_weighted r = ltb 0 r.weight

abbrev unit_weight : ScoredResult → ScoredResult
unit_weight r = record r { weight = 1 }

abbrev pub or_unit : List ScoredResult → List ScoredResult → List ScoredResult
or_unit [] results = map unit_weight results
or_unit (r ∷ weighted) _ = r ∷ weighted

-- The results that count: those with a weight or, if there is none, all of them at weight 1.
unfoldable pub counted : List ScoredResult → List ScoredResult
counted results = or_unit (select is_weighted results) results

unfoldable pub total_weight : List ScoredResult → ℕ
total_weight [] = 0
total_weight (r ∷ rs) = r.weight + total_weight rs

unfoldable pub earned_weight : List ScoredResult → ℕ
unfolding total_weight
earned_weight rs = total_weight (select (λ r. r.passed) rs)

-- `Math.round(n / d)`
unfoldable pub round_div : ℕ → ℕ → ℕ
round_div n d = (2 * n + d) / (2 * d)

unfoldable pub strategy_score : GradingStrategy → List ScoredResult → ℕ
unfolding total_weight earned_weight round_div
strategy_score GradingStrategy.all_or_nothing cs = if every (λ r. r.passed) cs then 100 else 0
strategy_score GradingStrategy.weighted_average cs =
    round_div (100 * earned_weight cs) (total_weight cs)

abbrev is_empty : List ScoredResult → Bool
is_empty [] = true
is_empty (_ ∷ _) = false

unfoldable pub compute_score : GradingStrategy → SubmissionStatus → List ScoredResult → ℕ
unfolding strategy_score counted
compute_score strategy status results =
    if not (is_scored status) || is_empty results
    then 0
    else strategy_score strategy (counted results)
