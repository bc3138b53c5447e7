-- ===== src/Grading/Rows.antt =====
-- The rows and the Redis records that a result is read against (packages/db/prisma/schema.prisma,
-- packages/shared/src/contracts/execution.ts). A job's id is a number, and that of a SUBMIT job is its
-- Submission's. Weights and measures are whole numbers, so `Math.round` leaves them. A Redis record
-- that has expired is one that its table does not hold.
use ambatucode.Common.{◌==◌, ℕ, Bool, false, Option, none, some, List}
use Prim.Native.String.{String}
use ambatucode.Domain.{SubmissionStatus}
use ambatucode.Store.{World}

pub data TestStatus : Type 0 where
  graded runtime_error time_limit_exceeded memory_limit_exceeded : TestStatus

-- `ExecutionTestResult`
pub record TestResult : Type 0 where
  pub test_case_id : Option ℕ
  pub test_script_id : Option ℕ
  pub name : String
  pub status : TestStatus
  pub passed : Bool
  pub weight : ℕ
  pub execution_time_ms : ℕ
  pub memory_used_kb : Option ℕ
  pub stdout_excerpt : String
  pub stderr_excerpt : String
  pub failure_detail : Option String

-- `ExecutionResult`
pub record ExecutionResult : Type 0 where
  pub job_id : ℕ
  pub submission_id : Option ℕ
  pub status : SubmissionStatus
  pub compiler_output : Option String
  pub system_error : Option String
  pub execution_time_ms : ℕ
  pub memory_used_kb : Option ℕ
  pub test_results : List TestResult

-- A row of `submissionTestResult`.
pub record SavedResult : Type 0 where
  pub submission_id : ℕ
  pub test_case_id : Option ℕ
  pub test_script_id : Option ℕ
  pub name : String
  pub status : TestStatus
  pub passed : Bool
  pub weight : ℕ
  pub execution_time_ms : ℕ
  pub memory_used_kb : Option ℕ
  pub stdout_excerpt : String
  pub stderr_excerpt : String
  pub failure_detail : Option String
  pub is_public : Bool

-- The name that a Run's row is shown under: the test's own, or `Hidden test n`.
pub data ShownName : Type 0 where
  named : String → ShownName
  hidden_test : ℕ → ShownName

pub record RunRow : Type 0 where
  pub name : ShownName
  pub status : TestStatus
  pub passed : Bool
  pub execution_time_ms : ℕ
  pub stdout_excerpt : String
  pub stderr_excerpt : String
  pub failure_detail : Option String

-- The payload of a RUN, with the user it is sent to.
pub record RunNotice : Type 0 where
  pub user_id : ℕ
  pub job_id : ℕ
  pub status : SubmissionStatus
  pub test_results : List RunRow
  pub compiler_output : Option String

pub record TestCase : Type 0 where
  pub id : ℕ
  pub assessment_id : ℕ
  pub is_public : Bool

pub data ValidationStatus : Type 0 where
  unvalidated validating passed failed : ValidationStatus

-- The sentences of `summarizeValidation`, with what they are filled in with.
pub data Summary : Type 0 where
  not_run : Option String → Summary
  did_not_compile out_of_time out_of_memory no_tests : Summary
  all_passed : ℕ → Summary
  some_failed : ℕ → ℕ → List String → ℕ → Summary

-- A row of `assessmentTestScript` or `practiceTestScript`, whose owner is the Assessment or the Practice
-- Activity. Only the first has `showTestNames`.
pub record TestScript : Type 0 where
  pub id : ℕ
  pub owner_id : ℕ
  pub shows_names : Bool
  pub validation_status : ValidationStatus
  pub validation_job_id : Option ℕ
  pub validation_summary : Option Summary
  pub validation_changed_at : ℕ

pub data ValidationTarget : Type 0 where
  assessment practice : ValidationTarget

pub record Validating : Type 0 where
  pub job_id : ℕ
  pub target : ValidationTarget

-- Whose a Run is, and the Practice Activity that it is of.
pub record RunOwner : Type 0 where
  pub job_id : ℕ
  pub user_id : ℕ

pub record PracticeRun : Type 0 where
  pub job_id : ℕ
  pub activity_id : ℕ

pub record PracticeProgress : Type 0 where
  pub user_id : ℕ
  pub activity_id : ℕ
  pub run_count : ℕ
  pub last_run_at : ℕ
  pub passed_all_at : Option ℕ

pub record Books : Type 0 where
  pub world : World
  pub results : List SavedResult
  pub cases : List TestCase
  pub scripts : List TestScript
  pub practice_scripts : List TestScript
  pub validations : List Validating
  pub owners : List RunOwner
  pub practice_runs : List PracticeRun
  pub progress : List PracticeProgress
  pub run_notices : List RunNotice

-- `ids.includes(id)` of an id that may be null.
abbrev pub is_id : ℕ → Option ℕ → Bool
is_id i none = false
is_id i (some j) = j == i
