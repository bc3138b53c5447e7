-- ===== src/Leaderboard/Ranks.antt =====
-- A rank counts the rows above it.
use ambatucode.Common.{
  ltb, leb, ◌==◌, if◌then◌else◌, Bool-cases, All, count_where, ℕ, ◌+◌, ◌≤◌, ◌≡◌, refl, inl, inr,
  Bool, true, false, Option, none, some, List, [], ◌∷◌, map, arith,
}
use Prim.Native.String.{String}
use ambatucode.Common.Counting.{All-of, count-eq_zero, All-imp}
use ambatucode.Leaderboard.{
  Competitor, Total, total_of, total_le, insert_total, sort_totals, assign_ranks, is_last_score,
  rank_competitors,
}

-- Scores fall, or stay, from row to row.
abbrev pub Falling : List Total → Type 0
Falling [] = Unit
Falling (t ∷ ts) = All (λ u. u.score ≤ t.score) ts × Falling ts

insert-All :
    (name_le : String → String → Bool) (b : ℕ) (x : Total) (ys : List Total)
    → x.score ≤ b
    → All (λ u. u.score ≤ b) ys
    → All (λ u. u.score ≤ b) (insert_total name_le x ys)
insert-All name_le b x [] h all = (h, tt)
insert-All name_le b x (y ∷ ys) h all = elim (Bool-cases (total_le name_le x y)) [
  | inl before ↦ rw before (h, all)
  | inr after ↦ rw after (all.0, insert-All name_le b x ys h all.1)
]

-- The comparison looks at the scores first.
le-score : (n : String → String → Bool) (a b : Total) → total_le n a b ≡ true → b.score ≤ a.score
unfolding total_le
le-score n a b h = elim (Bool-cases (a.score == b.score)) [
  | inl same ↦ let e : a.score ≡ b.score = ground arith in omega arith
  | inr other ↦ let higher : ltb b.score a.score ≡ true = rw (other, total_le) at h in ground arith
]

not_le-score :
    (n : String → String → Bool) (a b : Total) → total_le n a b ≡ false → a.score ≤ b.score
unfolding total_le
not_le-score n a b h = elim (Bool-cases (a.score == b.score)) [
  | inl same ↦ let e : a.score ≡ b.score = ground arith in omega arith
  | inr other ↦ let higher : ltb b.score a.score ≡ false = rw (other, total_le) at h in ground arith
]

insert-Falling :
    (name_le : String → String → Bool) (x : Total) (ys : List Total)
    → Falling ys
    → Falling (insert_total name_le x ys)
insert-Falling name_le x [] f = (tt, tt)
insert-Falling name_le x (y ∷ ys) f = elim (Bool-cases (total_le name_le x y)) [
  | inl before ↦
      let le : y.score ≤ x.score = le-score name_le x y before in
      rw before ((le, All-imp ys (λ u h. omega arith) f.0), f)
  | inr after ↦ rw after (
    insert-All name_le y.score x ys (not_le-score name_le x y after) f.0,
    insert-Falling name_le x ys f.1,
  )
]

sort-Falling :
    (name_le : String → String → Bool) (xs : List Total) → Falling (sort_totals name_le xs)
sort-Falling name_le [] = tt
sort-Falling name_le (x ∷ xs) = insert-Falling name_le x _ (sort-Falling name_le xs)

abbrev pub beats : ℕ → Total → Bool
beats s t = ltb s t.score

-- Whether a score is at most the last one.
abbrev is_within : Option ℕ → ℕ → Bool
is_within none s = true
is_within (some l) s = leb s l

none_beats : (b : ℕ) (ts : List Total) → All (λ u. u.score ≤ b) ts → count_where (beats b) ts ≡ 0
none_beats b ts all = count-eq_zero (beats b) ts (All-imp ts (λ u h. ground arith) all)

-- The loop, after rows of which `above s` have a score above `s`.
assign-counts :
    (above : ℕ → ℕ) (last : Option ℕ) (last_rank index : ℕ) (ts : List Total)
    → ((s : ℕ) → is_last_score last s ≡ true → last_rank ≡ 1 + above s)
    → ((s : ℕ) → is_within last s ≡ true → is_last_score last s ≡ false → above s ≡ index)
    → All (λ t. is_within last t.score ≡ true) ts
    → Falling ts
    → All
        (λ r. r.rank ≡ 1 + above r.total.score + count_where (beats r.total.score) ts)
        (assign_ranks last last_rank index ts)
assign-counts above last last_rank index [] same other within falls = tt
assign-counts above last last_rank index (t ∷ ts) same other within falls =
    let zero_above = none_beats t.score ts falls.0 in
    let rank = if is_last_score last t.score then last_rank else index + 1 in
    let ranked : rank ≡ 1 + above t.score = elim (Bool-cases (is_last_score last t.score)) [
      | inl e ↦ rw e (same t.score e)
      | inr e ↦ rw e (omega (arith, other t.score within.0 e))
    ] in
    (
      ground (arith, ranked, zero_above),
      All-imp _ (λ r e. omega (arith, e))
          (assign-counts (λ s. above s + (if ltb s t.score then 1 else 0)) (some t.score) rank
            (index + 1) ts
            (λ s e. let eq : s ≡ t.score = ground arith in rw eq (ground (arith, ranked)))
            (λ s le ne.
              let lower : ltb s t.score ≡ true = ground arith in
              rw lower (
                omega (
                  arith,
                  other s (lower_within last s t.score lower within.0)
                      (lower_differs last s t.score lower within.0),
                )))
            (All-imp ts (λ u h. ground arith) falls.0) falls.1),
    )
  where
    lower_within :
        (l : Option ℕ) (s b : ℕ) → ltb s b ≡ true → is_within l b ≡ true → is_within l s ≡ true
    lower_within none s b lower h = refl
    lower_within (some l) s b lower h = ground arith

    lower_differs :
        (l : Option ℕ) (s b : ℕ) → ltb s b ≡ true → is_within l b ≡ true → is_last_score l s ≡ false
    lower_differs none s b lower h = refl
    lower_differs (some l) s b lower h = ground arith

insert-count :
    (name_le : String → String → Bool) (p : Total → Bool) (x : Total) (ys : List Total)
    → count_where p (insert_total name_le x ys) ≡ count_where p (x ∷ ys)
insert-count name_le p x [] = refl
insert-count name_le p x (y ∷ ys) = elim (Bool-cases (total_le name_le x y)) [
  | inl before ↦ rw before refl
  | inr after ↦ rw after (omega (arith, insert-count name_le p x ys))
]

sort-count :
    (name_le : String → String → Bool) (p : Total → Bool) (xs : List Total)
    → count_where p (sort_totals name_le xs) ≡ count_where p xs
sort-count name_le p [] = refl
sort-count name_le p (x ∷ xs) =
    omega (arith, insert-count name_le p x (sort_totals name_le xs), sort-count name_le p xs)

-- On every leaderboard, however usernames are ordered, the rank of a row is one more than the
-- number of competitors with a higher score, so that equal scores share a rank and the next rank
-- skips.
pub rank_counts_higher :
    (name_le : String → String → Bool) (cs : List Competitor)
    → All
        (λ r. r.rank ≡ 1 + count_where (beats r.total.score) (map total_of cs))
        (rank_competitors name_le cs)
unfolding rank_competitors
rank_counts_higher name_le cs =
    All-imp _ (λ r e. omega (arith, e, sort-count name_le (beats r.total.score) (map total_of cs)))
      (assign-counts (λ s. 0) none 0 0 _ (λ s e. absurd (cc)) (λ s e e'. refl)
        (All-of _ (λ t. refl)) (sort-Falling name_le (map total_of cs)))
