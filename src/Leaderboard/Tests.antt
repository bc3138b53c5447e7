-- ===== src/Leaderboard/Tests.antt =====
-- A leaderboard of four.
use ambatucode.Common.{All, count_where, ℕ, ◌+◌, ◌≡◌, refl, none, List, [], ◌∷◌, map}
use Prim.Native.String.{String}
use text.Mathlib.Text.{◌==◌ as str_eq}
use ambatucode.Leaderboard.{
  Contribution, Competitor, Entry, total_of, total_le, rank_competitors, put_all_best,
}
use ambatucode.Leaderboard.Ranks.{beats, rank_counts_higher}
use ambatucode.Leaderboard.Best.{score_for, highest, best_is_highest}

abbrev part : ℕ → ℕ → Contribution
part score at = record { score = score; submitted_at_ms = at; execution_time_ms = none }

abbrev competitor : ℕ → String → ℕ → ℕ → Competitor
competitor u name score at = record {
  user_id = u;
  username = name;
  contributions = part score at ∷ [];
}

abbrev four : List Competitor
four =
    competitor 1 "ana" 80 30
    ∷ competitor 2 "bo" 100 40
    ∷ competitor 3 "cy" 80 20
    ∷ competitor 4 "di" 60 10
    ∷ []

-- Equal totals share a rank, the earlier first, and the next rank skips.
four_ranks : map (λ r. r.rank) (rank_competitors str_eq four) ≡ 1 ∷ 2 ∷ 2 ∷ 4 ∷ []
unfolding rank_competitors total_le
four_ranks = refl

four_order : map (λ r. r.total.user_id) (rank_competitors str_eq four) ≡ 2 ∷ 3 ∷ 1 ∷ 4 ∷ []
unfolding rank_competitors total_of total_le
four_order = refl

rank_counts_higher_example :
    All
      (λ r. r.rank ≡ 1 + count_where (beats r.total.score) (map total_of four))
      (rank_competitors str_eq four)
rank_counts_higher_example = rank_counts_higher str_eq four

abbrev rows : List Entry
rows =
    record { assessment_id = 7; contribution = part 40 10 }
    ∷ record { assessment_id = 7; contribution = part 90 20 }
    ∷ record { assessment_id = 8; contribution = part 50 30 }
    ∷ []

best_is_highest_example : score_for 7 (put_all_best rows []) ≡ highest 7 none rows
best_is_highest_example = best_is_highest 7 rows
