-- ===== src/Leaderboard/Best.antt =====
-- The contribution that counts for an Assessment is the best one.
use ambatucode.Common.{
  ltb, ◌==◌, if◌then◌else◌, ltb→lt, Bool-cases, Option-cases, find_first, update_where, ℕ, max, ◌≡◌,
  refl, ap, subst, inl, inr, Option, none, some, List, [], ◌∷◌, ◌++◌, arith,
}
use ambatucode.Leaderboard.{Entry, is_of_assessment, put_best, put_all_best}

-- The score that stands for an Assessment.
abbrev pub score_for : ℕ → List Entry → Option ℕ
score_for a entries = elim (find_first (is_of_assessment a) entries) [
  | none ↦ none
  | some e ↦ some e.contribution.score
]

abbrev pub raise : Option ℕ → ℕ → Option ℕ
raise none s = some s
raise (some t) s = some (max t s)

-- The highest score of an Assessment so far, after one more row.
abbrev pub raise_for : ℕ → Entry → Option ℕ → Option ℕ
raise_for a e so_far = if e.assessment_id == a then raise so_far e.contribution.score else so_far

-- The highest score of an Assessment among the rows and an earlier one.
abbrev pub highest : ℕ → Option ℕ → List Entry → Option ℕ
highest a so_far [] = so_far
highest a so_far (e ∷ es) = highest a (raise_for a e so_far) es

find-append :
    (a : ℕ) (e : Entry) (es : List Entry)
    → score_for a (es ++ (e ∷ [])) ≡ elim (score_for a es) [
      | some s ↦ some s
      | none ↦ if e.assessment_id == a then some e.contribution.score else none
    ]
find-append a e [] = ground arith
find-append a e (x ∷ xs) = ground (arith, find-append a e xs)

find-update :
    (a : ℕ) (e : Entry) (es : List Entry)
    → score_for a (update_where (is_of_assessment e.assessment_id) (λ _. e) es)
      ≡ elim (score_for a es) [
        | some s ↦ if e.assessment_id == a then some e.contribution.score else some s
        | none ↦ none
      ]
find-update a e [] = refl
find-update a e (x ∷ xs) = ground (arith, find-update a e xs)

put-score :
    (a : ℕ) (e : Entry) (best : List Entry)
    → score_for a (put_best e best) ≡ raise_for a e (score_for a best)
put-score a e best = elim (Option-cases (find_first (is_of_assessment e.assessment_id) best)) [
  | inl missing ↦ elim (Bool-cases (e.assessment_id == a)) [
    | inl same ↦
        let eq : e.assessment_id ≡ a = ground arith in
        let absent : find_first (is_of_assessment a) best ≡ none =
          subst (λ k. find_first (is_of_assessment k) best ≡ none) eq missing in
        let empty : score_for a best ≡ none = rw (absent, score_for) refl in
        rw (missing, put_best, find-append a e best, empty, same) refl
    | inr other ↦
        rw (missing, put_best, find-append a e best)
          (elim (Option-cases (score_for a best)) [
            | inl absent ↦ rw (absent, other) refl
            | inr (s, present) ↦ rw (present, other) refl
          ])
  ]
  | inr (current, found) ↦ elim (Bool-cases (ltb current.contribution.score e.contribution.score)) [
    | inl higher ↦
        rw (found, put_best, higher, find-update a e best)
          (elim (Bool-cases (e.assessment_id == a)) [
            | inl same ↦
                let eq : e.assessment_id ≡ a = ground arith in
                let here : find_first (is_of_assessment a) best ≡ some current =
                  subst (λ k. find_first (is_of_assessment k) best ≡ some current) eq found in
                let there : score_for a best ≡ some current.contribution.score =
                  rw (here, score_for) refl in
                rw (there, same) (ap some (omega (arith, ltb→lt _ _ higher)))
            | inr other ↦ (elim (Option-cases (score_for a best)) [
              | inl absent ↦ rw (absent, other) refl
              | inr (s, present) ↦ rw (present, other) refl
            ])
          ])
    | inr lower ↦
        rw (found, put_best, lower)
          (elim (Bool-cases (e.assessment_id == a)) [
            | inl same ↦
                let eq : e.assessment_id ≡ a = ground arith in
                let here : find_first (is_of_assessment a) best ≡ some current =
                  subst (λ k. find_first (is_of_assessment k) best ≡ some current) eq found in
                let there : score_for a best ≡ some current.contribution.score =
                  rw (here, score_for) refl in
                rw (there, same) (ap some (ground (arith, lower)))
            | inr other ↦ rw other refl
          ])
  ]
]

-- For each Assessment the contribution that counts for a Coder has the highest score of all the
-- Coder's rows of that Assessment.
pub best_is_highest :
    (a : ℕ) (rows : List Entry) → score_for a (put_all_best rows []) ≡ highest a none rows
best_is_highest a rows = onto rows []
  where
    onto :
        (es best : List Entry)
        → score_for a (put_all_best es best) ≡ highest a (score_for a best) es
    onto [] best = refl
    onto (e ∷ es) best = rw (onto es (put_best e best), put-score a e best) refl
