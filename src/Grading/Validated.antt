-- ===== src/Grading/Validated.antt =====
-- What a validation's result does to the scripts that wait for it.
use Prim.Native.String.{String}
use ambatucode.Common.{
  remove_where, none, sym, subst, ◌==◌, Bool-cases, length, every, find_first, count_where, ℕ, ◌≡◌,
  refl, ◌∙◌, inl, inr, Bool, true, false, ◌&&◌, Option, some, List, [], ◌∷◌, arith,
}
use ambatucode.Common.Finding.{find-update, find-removed}
use ambatucode.Domain.{SubmissionStatus}
use ambatucode.Grading.Rows.{
  TestResult, ExecutionResult, TestScript, ValidationStatus, Books, Validating, ValidationTarget,
}
use ambatucode.Grading.Validation.{
  is_validating, summarize_failing, summarize_validation, record_script_validation, is_validation,
  awaits, validated, validate_scripts, rows_of, failing_names,
}

-- The job got as far as running the scripts.
abbrev pub has_run : SubmissionStatus → Bool
has_run SubmissionStatus.system_error = false
has_run SubmissionStatus.compile_error = false
has_run _ = true

abbrev pub is_reported : List TestResult → Bool
is_reported [] = false
is_reported (_ ∷ _) = true

abbrev pub is_passed : ValidationStatus → Bool
is_passed ValidationStatus.passed = true
is_passed _ = false

passed_rows :
    (rows : List TestResult) (total : ℕ)
    → is_passed (summarize_failing total (failing_names rows)).status ≡ every (λ r. r.passed) rows
passed_rows [] total = refl
passed_rows (r ∷ rows) total = elim (Bool-cases r.passed) [
  | inl e ↦ rw e (passed_rows rows total)
  | inr e ↦ rw e refl
]

-- A script passes its validation exactly where the job ran the scripts, the script reported a test, and
-- every test that it reported passed against the reference solution.
pub passed_iff_proved :
    (status : SubmissionStatus) (error : Option String) (rows : List TestResult)
    → is_passed (summarize_validation status error rows).status
      ≡ (has_run status && is_reported rows && every (λ r. r.passed) rows)
unfolding summarize_validation
passed_iff_proved SubmissionStatus.queued error [] = refl
passed_iff_proved SubmissionStatus.queued error (r ∷ rows) =
    passed_rows (r ∷ rows) (length (r ∷ rows))
passed_iff_proved SubmissionStatus.running error [] = refl
passed_iff_proved SubmissionStatus.running error (r ∷ rows) =
    passed_rows (r ∷ rows) (length (r ∷ rows))
passed_iff_proved SubmissionStatus.graded error [] = refl
passed_iff_proved SubmissionStatus.graded error (r ∷ rows) =
    passed_rows (r ∷ rows) (length (r ∷ rows))
passed_iff_proved SubmissionStatus.compile_error error rows = refl
passed_iff_proved SubmissionStatus.runtime_error error [] = refl
passed_iff_proved SubmissionStatus.runtime_error error (r ∷ rows) =
    passed_rows (r ∷ rows) (length (r ∷ rows))
passed_iff_proved SubmissionStatus.time_limit_exceeded error [] = refl
passed_iff_proved SubmissionStatus.time_limit_exceeded error (r ∷ rows) =
    passed_rows (r ∷ rows) (length (r ∷ rows))
passed_iff_proved SubmissionStatus.memory_limit_exceeded error [] = refl
passed_iff_proved SubmissionStatus.memory_limit_exceeded error (r ∷ rows) =
    passed_rows (r ∷ rows) (length (r ∷ rows))
passed_iff_proved SubmissionStatus.system_error error rows = refl

settled_names :
    (total : ℕ) (names : List String) → is_validating (summarize_failing total names).status ≡ false
settled_names total [] = refl
settled_names total (n ∷ names) = refl

settled_status :
    (status : SubmissionStatus) (error : Option String) (rows : List TestResult)
    → is_validating (summarize_validation status error rows).status ≡ false
unfolding summarize_validation
settled_status SubmissionStatus.queued error [] = refl
settled_status SubmissionStatus.queued error (r ∷ rows) =
    settled_names (length (r ∷ rows)) (failing_names (r ∷ rows))
settled_status SubmissionStatus.running error [] = refl
settled_status SubmissionStatus.running error (r ∷ rows) =
    settled_names (length (r ∷ rows)) (failing_names (r ∷ rows))
settled_status SubmissionStatus.graded error [] = refl
settled_status SubmissionStatus.graded error (r ∷ rows) =
    settled_names (length (r ∷ rows)) (failing_names (r ∷ rows))
settled_status SubmissionStatus.compile_error error rows = refl
settled_status SubmissionStatus.runtime_error error [] = refl
settled_status SubmissionStatus.runtime_error error (r ∷ rows) =
    settled_names (length (r ∷ rows)) (failing_names (r ∷ rows))
settled_status SubmissionStatus.time_limit_exceeded error [] = refl
settled_status SubmissionStatus.time_limit_exceeded error (r ∷ rows) =
    settled_names (length (r ∷ rows)) (failing_names (r ∷ rows))
settled_status SubmissionStatus.memory_limit_exceeded error [] = refl
settled_status SubmissionStatus.memory_limit_exceeded error (r ∷ rows) =
    settled_names (length (r ∷ rows)) (failing_names (r ∷ rows))
settled_status SubmissionStatus.system_error error rows = refl

none_awaits :
    (r : ExecutionResult) (now : ℕ) (scripts : List TestScript)
    → count_where (awaits r.job_id) (validate_scripts r now scripts) ≡ 0
none_awaits r now [] = refl
none_awaits r now (s ∷ scripts) = ground (
  arith,
  none_awaits r now scripts,
  settled_status r.status r.system_error (rows_of s.id r.test_results),
)

no_record :
    (r : ExecutionResult) (now : ℕ) (b : Books)
    → find_first (is_validation r.job_id) b.validations ≡ none
    → record_script_validation r now b ≡ (false, b)
unfolding record_script_validation
no_record r now b missing = rw (missing, record_script_validation) refl

abbrev pub is_script : ℕ → TestScript → Bool
is_script i s = s.id == i

-- The result of a validation of an Assessment's scripts leaves no script waiting for its job and every
-- script that did not wait for it as it was, and the same result a second time is no validation any more and changes nothing.
pub validation_settles :
    (r second : ExecutionResult) (now later : ℕ) (b : Books) (v : Validating)
    → find_first (is_validation r.job_id) b.validations ≡ some v
    → v.target ≡ ValidationTarget.assessment
    → second.job_id ≡ r.job_id
    → let after = record_script_validation r now b in
      (after.0 ≡ true)
      × (count_where (awaits r.job_id) after.1.scripts ≡ 0)
      × ((i : ℕ) (s : TestScript)
          → find_first (is_script i) b.scripts ≡ some s
          → awaits r.job_id s ≡ false
          → find_first (is_script i) after.1.scripts ≡ some s)
      × (record_script_validation second later after.1 ≡ (false, after.1))
unfolding record_script_validation
validation_settles r second now later b v waiting target same =
    let settled : Books = record b {
      scripts = validate_scripts r now b.scripts;
      validations = remove_where (is_validation r.job_id) b.validations;
    } in
    let first : record_script_validation r now b ≡ (true, settled) =
      rw (waiting, record_script_validation, target) refl in
    rw first (
      refl,
      none_awaits r now b.scripts,
      λ i s found apart.
          find-update (is_script i) (awaits r.job_id) (validated r now) b.scripts {a = s}
            (λ x. refl) found
          ∙ rw apart refl,
      no_record second later settled (
          subst (λ k. find_first (is_validation k) settled.validations ≡ none) (sym same)
            (find-removed (is_validation r.job_id) b.validations)),
    )
