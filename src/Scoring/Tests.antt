-- ===== src/Scoring/Tests.antt =====
-- Scores of concrete results.
use ambatucode.Common.{ℕ, ◌-◌, ◌*◌, ◌≤◌, ◌≡◌, refl, ◌↔◌, Bool, true, false, List, [], ◌∷◌, arith}
use ambatucode.Domain.{all_or_nothing, weighted_average, SubmissionStatus}
use ambatucode.Scoring.{ScoredResult, compute_score, counted, total_weight, earned_weight}
use ambatucode.Scoring.Verdicts.{weighted_full_iff, score_mono, none_left, one_more}

abbrev result : Bool → ℕ → ScoredResult
result p w = record { passed = p; weight = w }

abbrev mixed : List ScoredResult
mixed = result true 3 ∷ result false 0 ∷ result false 1 ∷ []

abbrev nearly : List ScoredResult
nearly = result true 199 ∷ result false 1 ∷ []

mixed_scores :
    (compute_score weighted_average SubmissionStatus.graded mixed ≡ 75)
    × (compute_score all_or_nothing SubmissionStatus.graded mixed ≡ 0)
    × (compute_score weighted_average SubmissionStatus.compile_error mixed ≡ 0)
unfolding compute_score
mixed_scores = (refl, refl, refl)

nearly_scores : compute_score weighted_average SubmissionStatus.graded nearly ≡ 100
unfolding counted total_weight earned_weight
nearly_scores = (weighted_full_iff SubmissionStatus.graded nearly refl (λ e. cc)).1 (omega arith)

weighted_full_iff_example :
    (compute_score weighted_average SubmissionStatus.graded nearly ≡ 100) ↔ (
      200 * (total_weight (counted nearly) - earned_weight (counted nearly))
      ≤ total_weight (counted nearly))
weighted_full_iff_example = weighted_full_iff SubmissionStatus.graded nearly refl (λ e. cc)

score_mono_example :
    compute_score weighted_average SubmissionStatus.graded (result false 2 ∷ [])
    ≤ compute_score weighted_average SubmissionStatus.graded (result true 2 ∷ [])
score_mono_example =
    score_mono weighted_average SubmissionStatus.graded
      (one_more (result false 2) (result true 2) refl (λ e. refl) none_left)
