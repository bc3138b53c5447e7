-- ===== src/Official/Laws.antt =====
-- What the three writers of the official flag leave: at most one official attempt for each Coder in each
-- session, where there was at most one before, and which one it is.
use ambatucode.Common.{
  Bool, refl, ltb, ◌==◌, ltb→lt, Bool-cases, All, find_first, count_where, update_where, ℕ, ◌≤◌,
  ◌≡◌, inl, inr, true, false, ◌&&◌, some, List, [], ◌∷◌, arith,
}
use ambatucode.Common.Counting.{
  count-update_same, count-update-le-add, count_pos-update, All-imp, count_pos-of_find,
}
use native.Mathlib.Nat.{le_trans}
use ambatucode.Store.{Attempt, has_id, is_sibling}
use ambatucode.Official.{
  set_official_attempt, clear_official_attempts, with_official, is_official_sibling,
  claim_official_if_unset,
}

abbrev pub OneOfficial : List Attempt → Type 0
OneOfficial rows = (s u : ℕ) → count_where (is_official_sibling s u) rows ≤ 1

abbrev pub UniqueIds : List Attempt → Type 0
UniqueIds rows = (i : ℕ) → count_where (has_id i) rows ≤ 1

-- Every row with the id `i` is an attempt of `u` at `s`.
abbrev pub Belongs : ℕ → ℕ → ℕ → List Attempt → Type 0
Belongs s u i = All (λ a. has_id i a ≡ true → (a.session_id ≡ s) × (a.user_id ≡ u))

-- The flag set on the attempt `i` alone.
pub mark-OneOfficial :
    (s u i : ℕ) (rows : List Attempt)
    → Belongs s u i rows
    → UniqueIds rows
    → count_where (is_official_sibling s u) rows ≡ 0
    → OneOfficial rows
    → OneOfficial (update_where (has_id i) (with_official true) rows)
mark-OneOfficial s u i rows own ids none_yet one t v = elim (Bool-cases (s == t && u == v)) [
  | inl same ↦
      let e : s ≡ t = ground arith in
      let e' : u ≡ v = ground arith in
      omega (
        arith,
        rw (e, e') at none_yet,
        count-update-le-add (is_official_sibling t v) (has_id i) (with_official true) rows,
        ids i,
      )
  | inr other ↦
      rw
        (count-update_same (is_official_sibling t v) (has_id i) (with_official true) rows
          (All-imp rows (λ a h e. ground (arith, h e)) own))
        (one t v)
]

pub claim-OneOfficial :
    (s u i : ℕ) (rows : List Attempt)
    → Belongs s u i rows
    → UniqueIds rows
    → OneOfficial rows
    → OneOfficial (claim_official_if_unset s u i rows)
unfolding claim_official_if_unset
claim-OneOfficial s u i rows own ids one =
    elim (Bool-cases (ltb 0 (count_where (is_official_sibling s u) rows))) [
      | inl chosen ↦ rw chosen one
      | inr unset ↦ rw unset (mark-OneOfficial s u i rows own ids (ground arith) one)
    ]

-- Where ids are unique and nobody has two official attempts at a session, a claim by an attempt
-- that exists leaves its Coder with exactly one official attempt at its session.
pub claim_decides :
    (s u i : ℕ) (rows : List Attempt) {a : Attempt}
    → find_first (has_id i) rows ≡ some a
    → Belongs s u i rows
    → UniqueIds rows
    → OneOfficial rows
    → count_where (is_official_sibling s u) (claim_official_if_unset s u i rows) ≡ 1
unfolding claim_official_if_unset
claim_decides s u i rows found own ids one =
    elim (Bool-cases (ltb 0 (count_where (is_official_sibling s u) rows))) [
      | inl chosen ↦ rw chosen (omega (arith, one s u, ltb→lt _ _ chosen))
      | inr unset ↦ rw unset (
          omega (
            arith,
            mark-OneOfficial s u i rows own ids (ground arith) one s u,
            count_pos-update (is_official_sibling s u) (has_id i) (with_official true) rows
                (count_pos-of_find (has_id i) rows found)
                (All-imp rows (λ a h e. ground (arith, h e)) own),
          ))
    ]

-- After `clear_official_attempts` no attempt of the Coder at the session is official.
pub clear-none :
    (s u : ℕ) (rows : List Attempt)
    → count_where (is_official_sibling s u) (clear_official_attempts s u rows) ≡ 0
unfolding clear_official_attempts
clear-none s u [] = refl
clear-none s u (a ∷ rows) = ground (arith, clear-none s u rows)

-- An update that makes no attempt official.
pub lower-OneOfficial :
    (p : Attempt → Bool) (f : Attempt → Attempt) (rows : List Attempt)
    → ((s u : ℕ) (a : Attempt)
        → is_official_sibling s u (f a) ≡ true
        → is_official_sibling s u a ≡ true)
    → OneOfficial rows
    → OneOfficial (update_where p f rows)
lower-OneOfficial p f rows lower one s u = le_trans (fewer rows) (one s u)
  where
    fewer :
        (xs : List Attempt)
        → count_where (is_official_sibling s u) (update_where p f xs)
          ≤ count_where (is_official_sibling s u) xs
    fewer [] = omega arith
    fewer (a ∷ xs) = ground (arith, fewer xs, lower s u a)

pub clear-OneOfficial :
    (s u : ℕ) (rows : List Attempt)
    → OneOfficial rows
    → OneOfficial (clear_official_attempts s u rows)
unfolding clear_official_attempts
clear-OneOfficial s u rows one =
    lower-OneOfficial (is_sibling s u) (with_official false) rows (λ t v a h. ground arith) one

-- After an attempt has been set as official, an attempt of the Coder at the session is official
-- exactly if it is that one.
pub set_decides :
    (s u i : ℕ) (rows : List Attempt)
    → All
        (λ a. is_sibling s u a ≡ true → a.is_official ≡ has_id i a)
        (set_official_attempt s u i rows)
unfolding set_official_attempt
set_decides s u i [] = tt
set_decides s u i (a ∷ rows) = (ground arith, set_decides s u i rows)

-- It leaves the official attempts of every other Coder and of every other session as they were.
pub set_elsewhere :
    (s u i t v : ℕ) (rows : List Attempt)
    → Belongs s u i rows
    → (s == t && u == v) ≡ false
    → count_where (is_official_sibling t v) (set_official_attempt s u i rows)
      ≡ count_where (is_official_sibling t v) rows
unfolding set_official_attempt
set_elsewhere s u i t v [] own other = refl
set_elsewhere s u i t v (a ∷ rows) own other =
    ground (arith, set_elsewhere s u i t v rows own.1 other, own.0)

only :
    (s u i : ℕ) (rows : List Attempt)
    → count_where (is_official_sibling s u) (set_official_attempt s u i rows)
      ≤ count_where (has_id i) rows
unfolding set_official_attempt
only s u i [] = omega arith
only s u i (a ∷ rows) = ground (arith, only s u i rows)

-- Where ids are unique and the attempt is one of the Coder at the session, setting it as official
-- keeps the rule that nobody has two official attempts at a session.
pub set-OneOfficial :
    (s u i : ℕ) (rows : List Attempt)
    → Belongs s u i rows
    → UniqueIds rows
    → OneOfficial rows
    → OneOfficial (set_official_attempt s u i rows)
set-OneOfficial s u i rows own ids one t v = elim (Bool-cases (s == t && u == v)) [
  | inl same ↦
      let e : s ≡ t = ground arith in
      let e' : u ≡ v = ground arith in rw (← e, ← e') (le_trans (only s u i rows) (ids i))
  | inr other ↦ rw (set_elsewhere s u i t v rows own other) (one t v)
]
