-- ===== src/Grading/Validation.antt =====
-- Validation of test scripts against the reference solution: summarizeValidation and
-- recordScriptValidation of apps/web/src/server/services/script-validation.ts.
use ambatucode.Common.{
  ◌==◌, length, take, select, find_first, update_where, remove_where, ℕ, ◌-◌, Bool, true, false,
  not, ◌&&◌, Option, none, some, List, [], ◌∷◌, map,
}
use Prim.Native.String.{String}
use ambatucode.Domain.{SubmissionStatus}
use ambatucode.Grading.Rows.{
  TestResult, ExecutionResult, ValidationStatus, Summary, not_run, did_not_compile, out_of_time,
  out_of_memory, no_tests, all_passed, some_failed, TestScript, ValidationTarget, Validating, Books,
  is_id,
}

pub record ValidationOutcome : Type 0 where
  pub status : ValidationStatus
  pub summary : Summary

abbrev failed_with : Summary → ValidationOutcome
failed_with s = record { status = ValidationStatus.failed; summary = s }

-- `LISTED_FAILURES`
abbrev listed_failures : ℕ
listed_failures = 3

abbrev pub failing_names : List TestResult → List String
failing_names rows = map (λ r. r.name) (select (λ r. not r.passed) rows)

-- Of a job that ran and reported no test.
abbrev summarize_silence : SubmissionStatus → ValidationOutcome
summarize_silence SubmissionStatus.time_limit_exceeded = failed_with out_of_time
summarize_silence SubmissionStatus.memory_limit_exceeded = failed_with out_of_memory
summarize_silence _ = failed_with no_tests

abbrev pub summarize_failing : ℕ → List String → ValidationOutcome
summarize_failing total [] = record { status = ValidationStatus.passed; summary = all_passed total }
summarize_failing total (n ∷ names) =
    let failing = n ∷ names in
    failed_with (
      some_failed (total - length failing) total (take listed_failures failing)
        (length failing - listed_failures))

abbrev summarize_reported : SubmissionStatus → List TestResult → ValidationOutcome
summarize_reported status [] = summarize_silence status
summarize_reported status (r ∷ rows) =
    summarize_failing (length (r ∷ rows)) (failing_names (r ∷ rows))

unfoldable pub summarize_validation :
    SubmissionStatus → Option String → List TestResult → ValidationOutcome
summarize_validation SubmissionStatus.system_error error rows = failed_with (not_run error)
summarize_validation SubmissionStatus.compile_error error rows = failed_with did_not_compile
summarize_validation status error rows = summarize_reported status rows

abbrev pub is_validating : ValidationStatus → Bool
is_validating ValidationStatus.validating = true
is_validating _ = false

-- Still waiting on this very job.
abbrev pub awaits : ℕ → TestScript → Bool
awaits job s = is_id job s.validation_job_id && is_validating s.validation_status

abbrev pub rows_of : ℕ → List TestResult → List TestResult
rows_of script rows = select (λ r. is_id script r.test_script_id) rows

abbrev pub validated : ExecutionResult → ℕ → TestScript → TestScript
validated r now s =
    let outcome = summarize_validation r.status r.system_error (rows_of s.id r.test_results) in
    record s {
      validation_status = outcome.status;
      validation_summary = some outcome.summary;
      validation_changed_at = now;
    }

abbrev pub validate_scripts : ExecutionResult → ℕ → List TestScript → List TestScript
validate_scripts r now scripts = update_where (awaits r.job_id) (validated r now) scripts

abbrev validate_target : ExecutionResult → ℕ → ValidationTarget → Books → Books
validate_target r now ValidationTarget.assessment b = record b {
  scripts = validate_scripts r now b.scripts;
}
validate_target r now ValidationTarget.practice b = record b {
  practice_scripts = validate_scripts r now b.practice_scripts;
}

abbrev pub is_validation : ℕ → Validating → Bool
is_validation job v = v.job_id == job

-- Whether the job was a validation.
unfoldable pub record_script_validation : ExecutionResult → ℕ → Books → Bool × Books
unfolding summarize_validation
record_script_validation r now b = elim (find_first (is_validation r.job_id) b.validations) [
  | none ↦ (false, b)
  | some v ↦
      let after = validate_target r now v.target b in
      (true, record after { validations = remove_where (is_validation r.job_id) b.validations })
]
