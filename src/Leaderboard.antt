-- ===== src/Leaderboard.antt =====
-- The order of a leaderboard: apps/web/src/server/services/leaderboard-ranking.ts. `localeCompare`
-- belongs to the platform: `name_le` says whether one username stands before another or beside it. The
-- display name, which nothing depends on, is left out.
pub mod Ranks
pub mod Best
mod Tests
use ambatucode.Common.{
  ltb, leb, ◌==◌, if◌then◌else◌, is_some, is_none, or_default, ltb→lt, lt→ltb, leb→le, ==_iff,
  ==_refl, Bool-cases, Option-cases, sum, length, get_elem?, take, every, any, select, All,
  length-append, length-select-le, length-map, find_first, count_where, update_where, pick_later,
  find_last, remove_where, ℕ, zero, suc, ◌+◌, ◌-◌, ◌*◌, ◌/◌, ◌%◌, ◌≤◌, ◌<◌, min, max, ◌≡◌, refl,
  sym, ap, subst, ◌∙◌, ◌≢◌, ◌↔◌, ◌⊎◌, inl, inr, Bool, true, false, not, ◌&&◌, ◌||◌, Option, none,
  some, List, [], ◌∷◌, ◌++◌, map, arith, Error, Result, ok, err, ◌>>=◌, ◌>>◌, refuse_if, or_refuse,
  Result-cases, bind-ok, refuse_if-ok, or_refuse-ok,
}
use Prim.Native.String.{String}

pub record Contribution : Type 0 where
  pub score : ℕ
  pub submitted_at_ms : ℕ
  pub execution_time_ms : Option ℕ

pub record Competitor : Type 0 where
  pub user_id : ℕ
  pub username : String
  pub contributions : List Contribution

pub record Total : Type 0 where
  pub user_id : ℕ
  pub username : String
  pub score : ℕ
  pub assessments_counted : ℕ
  pub submitted_at : Option ℕ
  pub total_execution_time_ms : Option ℕ

-- The greatest moment, where there is one.
abbrev pub latest_moment : List Contribution → Option ℕ
latest_moment [] = none
latest_moment (c ∷ cs) = elim (latest_moment cs) [
  | none ↦ some c.submitted_at_ms
  | some at ↦ some (max c.submitted_at_ms at)
]

-- The sum of the times that were measured, where there is one.
abbrev pub total_time : List Contribution → Option ℕ
total_time [] = none
total_time (c ∷ cs) =
    let rest = total_time cs in
    elim c.execution_time_ms [ none ↦ rest | some ms ↦ some (ms + or_default rest 0) ]

unfoldable pub total_of : Competitor → Total
total_of c = record {
  user_id = c.user_id;
  username = c.username;
  score = sum (map (λ p. p.score) c.contributions);
  assessments_counted = length c.contributions;
  submitted_at = latest_moment c.contributions;
  total_execution_time_ms = total_time c.contributions;
}

-- `left ?? Infinity` before `right ?? Infinity`, where they differ.
abbrev pub is_earlier : Option ℕ → Option ℕ → Bool
is_earlier none right = false
is_earlier (some a) none = true
is_earlier (some a) (some b) = ltb a b

abbrev pub is_same : Option ℕ → Option ℕ → Bool
is_same none none = true
is_same (some a) (some b) = a == b
is_same _ _ = false

abbrev pub time_le : (String → String → Bool) → Total → Total → Bool
time_le name_le a b =
    if is_same a.total_execution_time_ms b.total_execution_time_ms
    then name_le a.username b.username
    else is_earlier a.total_execution_time_ms b.total_execution_time_ms

abbrev pub moment_le : (String → String → Bool) → Total → Total → Bool
moment_le name_le a b =
    if is_same a.submitted_at b.submitted_at
    then time_le name_le a b
    else is_earlier a.submitted_at b.submitted_at

-- Whether the comparison of the sort is at most 0.
unfoldable pub total_le : (String → String → Bool) → Total → Total → Bool
total_le name_le a b = if a.score == b.score then moment_le name_le a b else ltb b.score a.score

-- `totals.sort`, which keeps the order of equal rows.
abbrev pub insert_total : (String → String → Bool) → Total → List Total → List Total
insert_total name_le x [] = x ∷ []
insert_total name_le x (y ∷ ys) =
    let rest = insert_total name_le x ys in if total_le name_le x y then x ∷ (y ∷ ys) else y ∷ rest

abbrev pub sort_totals : (String → String → Bool) → List Total → List Total
sort_totals name_le [] = []
sort_totals name_le (x ∷ xs) = insert_total name_le x (sort_totals name_le xs)

pub record Ranked : Type 0 where
  pub total : Total
  pub rank : ℕ

abbrev pub is_last_score : Option ℕ → ℕ → Bool
is_last_score none s = false
is_last_score (some l) s = s == l

-- The loop with `lastScore`, `lastRank` and the index.
abbrev pub assign_ranks : Option ℕ → ℕ → ℕ → List Total → List Ranked
assign_ranks last last_rank index [] = []
assign_ranks last last_rank index (t ∷ ts) =
    let rank = if is_last_score last t.score then last_rank else index + 1 in
    record { total = t; rank = rank } ∷ assign_ranks (some t.score) rank (index + 1) ts

unfoldable pub rank_competitors : (String → String → Bool) → List Competitor → List Ranked
unfolding total_of
rank_competitors name_le cs = assign_ranks none 0 0 (sort_totals name_le (map total_of cs))

-- A row of `bestPerAssessment`, and the entries of its Map, in the order of their first `set`.
pub record Entry : Type 0 where
  pub assessment_id : ℕ
  pub contribution : Contribution

abbrev pub is_of_assessment : ℕ → Entry → Bool
is_of_assessment a e = e.assessment_id == a

abbrev pub put_best : Entry → List Entry → List Entry
put_best e best = elim (find_first (is_of_assessment e.assessment_id) best) [
  | none ↦ best ++ (e ∷ [])
  | some current ↦
      if ltb current.contribution.score e.contribution.score
      then update_where (is_of_assessment e.assessment_id) (λ _. e) best
      else best
]

abbrev pub put_all_best : List Entry → List Entry → List Entry
put_all_best [] best = best
put_all_best (e ∷ es) best = put_all_best es (put_best e best)

unfoldable pub best_per_assessment : List Entry → List Contribution
best_per_assessment rows = map (λ e. e.contribution) (put_all_best rows [])
