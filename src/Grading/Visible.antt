-- ===== src/Grading/Visible.antt =====
-- What a Coder may see of a Submission's results, and of a Run's.
use mathlib.Core.List.{Memᴰ}
use ambatucode.Common.{
  All, any, find_first, length, length-map, ◌==◌, ◌&&◌, Option-cases, arith, ◌+◌, Bool-cases, inl,
  inr, none, Option, is_some, ==_refl, select, count_where, remove_where, ℕ, zero, suc, ◌≡◌, refl,
  ap, ◌∙◌, ◌⊎◌, inl, inr, Bool, true, false, Option, none, some, List, [], ◌∷◌, map,
}
use ambatucode.Common.Finding.{
  any-Mem, Mem-any, find_first-Mem, append_nil, select-append, select-remove_same,
}
use ambatucode.Domain.{is_terminal}
use ambatucode.Store.{Submission, Assessment, find_assessment}
use ambatucode.Grading.Rows.{
  SavedResult, TestResult, ExecutionResult, named, hidden_test, RunRow, TestCase, TestScript, Books,
}
use ambatucode.Grading.Runs.{run_rows, is_withheld}
use ambatucode.Grading.Ingest.{
  is_public_row, find_submission, is_script_of, own_script, saved_result, is_result_of,
  ingest_submission, is_public_case, shows_names_of,
}

-- The rows that one result is saved as are rows of its Submission.
all_of :
    (i a : ℕ) (cases : List TestCase) (scripts : List TestScript) (ts : List TestResult)
    → select (is_result_of i) (map (saved_result i a cases scripts) ts)
      ≡ map (saved_result i a cases scripts) ts
unfolding saved_result
all_of i a cases scripts [] = refl
all_of i a cases scripts (t ∷ ts) =
    rw (==_refl i) (ap (λ r. saved_result i a cases scripts t ∷ r) (all_of i a cases scripts ts))

-- A result with a terminal status, of a Submission that has none yet, leaves as the Submission's results
-- exactly one row for each test that it reports, in their order, whatever was saved before.
pub results_replaced :
    (i : ℕ) (r : ExecutionResult) (now : ℕ) (b : Books) (s : Submission) (a : Assessment)
    → find_submission i b ≡ some s
    → find_assessment s.assessment_id b.world ≡ some a
    → is_terminal s.status ≡ false
    → is_terminal r.status ≡ true
    → select (is_result_of s.id) (ingest_submission i r now b).1.results
      ≡ map (saved_result s.id s.assessment_id b.cases b.scripts) r.test_results
unfolding ingest_submission
results_replaced i r now b s a found its waiting graded =
    rw (found, ingest_submission, its, waiting, graded)
      (select-append (is_result_of s.id) _ (remove_where (is_result_of s.id) b.results)
        ∙ rw
            (
              all_of s.id s.assessment_id b.cases b.scripts r.test_results,
              select-remove_same (is_result_of s.id) b.results,
            )
            (append_nil _))

-- A row of this Assessment gives away no more than it may. Where it is public, its case is marked PUBLIC in
-- this Assessment or, where it has no case, its script is one of this Assessment's and shows its names; a
-- case that is marked so makes its row public; and a script's row has no excerpt of an output.
pub record IsDiscreet (a : ℕ) (cases : List TestCase) (scripts : List TestScript)
    (row : SavedResult) : Type 0 where
  pub public_from :
      row.is_public ≡ true
      → ((c : TestCase) × Memᴰ c cases
          × (row.test_case_id ≡ some c.id)
          × (c.assessment_id ≡ a)
          × (c.is_public ≡ true))
        ⊎ ((s : TestScript) × Memᴰ s scripts
            × (row.test_case_id ≡ none)
            × (row.test_script_id ≡ some s.id)
            × (s.owner_id ≡ a)
            × (s.shows_names ≡ true))
  pub public_if :
      (c : TestCase)
      → Memᴰ c cases
      → row.test_case_id ≡ some c.id
      → c.assessment_id ≡ a
      → c.is_public ≡ true
      → row.is_public ≡ true
  pub no_output :
      (i : ℕ) → row.test_script_id ≡ some i → (row.stdout_excerpt ≡ "") × (row.stderr_excerpt ≡ "")

public_case :
    (a : ℕ) (cases : List TestCase) (i : ℕ)
    → is_public_case a cases i ≡ true
    → (c : TestCase) × Memᴰ c cases × (i ≡ c.id) × (c.assessment_id ≡ a) × (c.is_public ≡ true)
public_case a cases i h =
    let (c, there, passes) =
      any-Mem (λ c. c.id == i && c.assessment_id == a && c.is_public) cases h in
    (c, there, ground arith, ground arith, ground arith)

shown_script :
    (a : ℕ) (scripts : List TestScript) (i : ℕ)
    → shows_names_of a scripts i ≡ true
    → (s : TestScript) × (find_first (is_script_of a i) scripts ≡ some s) × (s.shows_names ≡ true)
shown_script a scripts i h = elim (Option-cases (find_first (is_script_of a i) scripts)) [
  | inl missing ↦ absurd (let broken = rw (missing, shows_names_of) at h in cc)
  | inr (s, found) ↦ (s, found, rw (found, shows_names_of) at h)
]

found_any :
    (p : TestScript → Bool) (xs : List TestScript) {s : TestScript}
    → find_first p xs ≡ some s
    → any p xs ≡ true
found_any p xs found = let (there, passes) = find_first-Mem p xs found in Mem-any p xs there passes

why_public :
    (a : ℕ) (cases : List TestCase) (scripts : List TestScript) (case_id script_id : Option ℕ)
    → is_public_row a cases scripts case_id script_id ≡ true
    → ((c : TestCase) × Memᴰ c cases
        × (case_id ≡ some c.id)
        × (c.assessment_id ≡ a)
        × (c.is_public ≡ true))
      ⊎ ((s : TestScript) × Memᴰ s scripts
          × (case_id ≡ none)
          × (own_script a scripts script_id ≡ some s.id)
          × (s.owner_id ≡ a)
          × (s.shows_names ≡ true))
why_public a cases scripts (some i) script_id h =
    let (c, there, same, here, marked) = public_case a cases i h in
    inl (c, there, ap (λ k. some k) same, here, marked)
why_public a cases scripts none (some i) h =
    let (s, found, shows) = shown_script a scripts i h in
    let (there, passes) = find_first-Mem (is_script_of a i) scripts found in
    let same : i ≡ s.id = ground arith in
    inr (
      s,
      there,
      refl,
      rw (found_any (is_script_of a i) scripts found) (ap (λ k. some k) same),
      ground arith,
      shows,
    )
why_public a cases scripts none none h = absurd (cc)

marked_public :
    (a : ℕ) (cases : List TestCase) (scripts : List TestScript) (case_id script_id : Option ℕ)
    (c : TestCase)
    → Memᴰ c cases
    → case_id ≡ some c.id
    → c.assessment_id ≡ a
    → c.is_public ≡ true
    → is_public_row a cases scripts case_id script_id ≡ true
marked_public a cases scripts case_id script_id c there same here marked =
    rw same (
      Mem-any (λ k. k.id == c.id && k.assessment_id == a && k.is_public) cases there (ground arith))

own_is_script :
    (a : ℕ) (scripts : List TestScript) (script_id : Option ℕ) {i : ℕ}
    → own_script a scripts script_id ≡ some i
    → is_some script_id ≡ true
own_is_script a scripts none h = absurd (cc)
own_is_script a scripts (some k) h = refl

row_hides :
    (i a : ℕ) (cases : List TestCase) (scripts : List TestScript) (t : TestResult)
    → IsDiscreet a cases scripts (saved_result i a cases scripts t)
unfolding saved_result
row_hides i a cases scripts t = record {
  public_from = why_public a cases scripts t.test_case_id t.test_script_id;
  public_if = marked_public a cases scripts t.test_case_id t.test_script_id;
  no_output =
      λ k own. let script = own_is_script a scripts t.test_script_id own in rw script (refl, refl);
}

each_hides :
    (i a : ℕ) (cases : List TestCase) (scripts : List TestScript) (ts : List TestResult)
    → All (IsDiscreet a cases scripts) (map (saved_result i a cases scripts) ts)
each_hides i a cases scripts [] = tt
each_hides i a cases scripts (t ∷ ts) =
    (row_hides i a cases scripts t, each_hides i a cases scripts ts)

-- When a Submission that has no terminal status yet gets a result with one, it has afterwards one
-- row for each test of that result. Of these rows, one is public only if its case is marked PUBLIC
-- in the Submission's Assessment or, where it has no case, if its script is one of this
-- Assessment's that shows its names; a case that is marked so makes its row public; and no row of a
-- script of this Assessment has an excerpt of an output.
pub graded_rows_hide :
    (i : ℕ) (r : ExecutionResult) (now : ℕ) (b : Books) (s : Submission) (a : Assessment)
    → find_submission i b ≡ some s
    → find_assessment s.assessment_id b.world ≡ some a
    → is_terminal s.status ≡ false
    → is_terminal r.status ≡ true
    → let rows = select (is_result_of s.id) (ingest_submission i r now b).1.results in
      (length rows ≡ length r.test_results)
      × All (IsDiscreet s.assessment_id b.cases b.scripts) rows
graded_rows_hide i r now b s a found its waiting graded =
    rw (results_replaced i r now b s a found its waiting graded) (
      length-map (saved_result s.id s.assessment_id b.cases b.scripts) r.test_results,
      each_hides s.id s.assessment_id b.cases b.scripts r.test_results,
    )

abbrev number_of : RunRow → List ℕ → List ℕ
number_of row rest = elim row.name [ named _ ↦ rest | hidden_test n ↦ n ∷ rest ]

-- The numbers of the rows whose names are withheld, in their order.
abbrev pub hidden_numbers : List RunRow → List ℕ
hidden_numbers [] = []
hidden_numbers (row ∷ rows) = number_of row (hidden_numbers rows)

abbrev pub count_from : ℕ → ℕ → List ℕ
count_from start zero = []
count_from start (suc n) = suc start ∷ count_from (suc start) n

-- A Run shows the tests whose scripts may not be named as hidden tests numbered from 1 up, in their order
-- and without a gap, however many named tests stand between them.
pub withheld_numbered :
    (may : ℕ → Bool) (start : ℕ) (ts : List TestResult)
    → hidden_numbers (run_rows may start ts) ≡ count_from start (count_where (is_withheld may) ts)
unfolding run_rows
withheld_numbered may start [] = refl
withheld_numbered may start (t ∷ ts) = elim (Bool-cases (is_withheld may t)) [
  | inl e ↦
      let one_more : 1 + count_where (is_withheld may) ts ≡ suc (count_where (is_withheld may) ts) =
        omega arith in
      rw (e, one_more) (ap (λ r. suc start ∷ r) (withheld_numbered may (suc start) ts))
  | inr e ↦
      let no_more : 0 + count_where (is_withheld may) ts ≡ count_where (is_withheld may) ts =
        omega arith in
      rw (e, no_more) (withheld_numbered may start ts)
]
