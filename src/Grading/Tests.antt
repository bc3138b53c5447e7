-- ===== src/Grading/Tests.antt =====
-- Results of execution jobs on concrete books.
use ambatucode.Common.{
  select, length, All, Option, ℕ, ◌≡◌, refl, Bool, true, false, Option, none, some, List, [], ◌∷◌,
  map, ok,
}
use ambatucode.Domain.{TimeMode, GradingStrategy, GradingStrategy, TimeMode, SubmissionStatus}
use ambatucode.Scoring.{
  compute_score, strategy_score, counted, total_weight, earned_weight, round_div,
}
use ambatucode.Store.{Submission}
use ambatucode.Sample.{sample_assessment, busy}
use ambatucode.Grading.Rows.{
  TestStatus, TestResult, ExecutionResult, TestCase, TestScript, ValidationStatus, ValidationTarget,
  Books, hidden_test, named,
}
use ambatucode.Grading.Validation.{record_script_validation, summarize_validation}
use ambatucode.Grading.Runs.{ingest_run, deliver_run, may_be_named, run_rows}
use ambatucode.Grading.Practice.{record_practice_run, write_progress, passed_everything}
use ambatucode.Grading.Ingest.{
  ingest_found, is_result_of, find_submission, with_grade, ingest_submission,
  ingest_execution_result, announce, score_of, close_expired_execution, saved_result,
}
use ambatucode.Grading.Final.{terminal_is_final}
use ambatucode.Grading.Again.{graded_once}
use ambatucode.Grading.Visible.{graded_rows_hide, IsDiscreet}

abbrev sample_submission : SubmissionStatus → Option ℕ → Submission
sample_submission status score = record {
  id = 20;
  attempt_id = 6;
  user_id = 1;
  assessment_id = 4;
  session_id = 5;
  language = "python";
  source_code = "print(1)";
  status = status;
  score = score;
  is_auto_submitted = false;
  submitted_at = 3000;
  graded_at = none;
  job_id = some 20;
}

abbrev sample_script : ℕ → Bool → TestScript
sample_script i shows = record {
  id = i;
  owner_id = 4;
  shows_names = shows;
  validation_status = ValidationStatus.validating;
  validation_job_id = some 90;
  validation_summary = none;
  validation_changed_at = 0;
}

abbrev books : SubmissionStatus → Option ℕ → Books
books status score = record {
  world = record busy { submissions = sample_submission status score ∷ [] };
  results = [];
  cases = record { id = 50; assessment_id = 4; is_public = true } ∷ [];
  scripts = sample_script 60 false ∷ sample_script 61 true ∷ [];
  practice_scripts = [];
  validations = record { job_id = 90; target = ValidationTarget.assessment } ∷ [];
  owners = record { job_id = 91; user_id = 1 } ∷ [];
  practice_runs = record { job_id = 91; activity_id = 70 } ∷ [];
  progress = [];
  run_notices = [];
}

abbrev test_of : Option ℕ → Option ℕ → Bool → TestResult
test_of case_id script_id passed = record {
  test_case_id = case_id;
  test_script_id = script_id;
  name = "adds";
  status = TestStatus.graded;
  passed = passed;
  weight = 1;
  execution_time_ms = 12;
  memory_used_kb = none;
  stdout_excerpt = "3";
  stderr_excerpt = "";
  failure_detail = none;
}

abbrev report : ℕ → Option ℕ → SubmissionStatus → ExecutionResult
report job submission status = record {
  job_id = job;
  submission_id = submission;
  status = status;
  compiler_output = none;
  system_error = none;
  execution_time_ms = 30;
  memory_used_kb = none;
  test_results =
      test_of (some 50) none true ∷ test_of none (some 60) false ∷ test_of none (some 61) true ∷ [];
}

abbrev first_report : ExecutionResult
first_report = report 20 (some 20) SubmissionStatus.graded

abbrev public_cases : List TestCase
public_cases = record { id = 50; assessment_id = 4; is_public = true } ∷ []

-- Two tests of three pass, at equal weights.
scored :
    score_of
      (record {
        id = 4;
        module_id = 3;
        is_published = true;
        is_open_access = false;
        time_mode = TimeMode.timed;
        execution_mode = none;
        duration_minutes = none;
        allowed_languages = [];
        grading_strategy = GradingStrategy.weighted_average;
        case_count = 1;
        script_count = 2;
      })
      first_report
    ≡ 67
unfolding compute_score strategy_score counted total_weight earned_weight round_div
scored = refl

shown :
    map
      (λ r. r.is_public)
      (ingest_submission 20 first_report 9000 (books SubmissionStatus.queued none)).1.results
    ≡ true ∷ false ∷ true ∷ []
unfolding ingest_submission saved_result
shown = refl

-- A Run withholds the name of the one script that does not show it.
run_names :
    map
      (λ n. map (λ r. r.name) n.test_results)
      (ingest_run
        (report 91 none SubmissionStatus.graded)
        9000
        (books SubmissionStatus.queued none)).1.run_notices
    ≡ (named "adds" ∷ hidden_test 1 ∷ named "adds" ∷ []) ∷ []
unfolding ingest_run record_script_validation deliver_run may_be_named run_rows record_practice_run
run_names = refl

-- The run did not pass everything, and is counted.
progress_counted :
    map
      (λ p. p.run_count)
      (ingest_run
        (report 91 none SubmissionStatus.graded)
        9000
        (books SubmissionStatus.queued none)).1.progress
    ≡ 1 ∷ []
unfolding ingest_run record_script_validation deliver_run record_practice_run write_progress
    passed_everything
progress_counted = refl

-- The validation's scripts: the first failed, the second passed.
validated_scripts :
    map
      (λ s. s.validation_status)
      (ingest_run
        (report 90 none SubmissionStatus.graded)
        9000
        (books SubmissionStatus.queued none)).1.scripts
    ≡ ValidationStatus.failed ∷ ValidationStatus.passed ∷ []
unfolding ingest_run record_script_validation deliver_run summarize_validation
validated_scripts = refl

closed_late :
    find_submission 20 (close_expired_execution 20 9000 (books SubmissionStatus.running none))
    ≡ some (
        with_grade SubmissionStatus.system_error 0 9000
          (sample_submission SubmissionStatus.running none))
unfolding close_expired_execution record_script_validation
closed_late = refl

graded_once_example :
    let b = books SubmissionStatus.running none in
    let s = sample_submission SubmissionStatus.running none in
    let first = ingest_submission 20 first_report 9000 b in
    let again = ingest_submission 20 (report 20 (some 20) SubmissionStatus.running) 9500 first.1 in
    (first.0 ≡ ok (record { persisted = true; delivered = true }))
    × (find_submission 20 first.1
        ≡ some
            (with_grade SubmissionStatus.graded (score_of sample_assessment first_report) 9000 s))
    × (again.0 ≡ ok (record { persisted = false; delivered = true }))
    × (again.1
        ≡ announce 1 20 SubmissionStatus.graded
            (some (score_of sample_assessment first_report))
            first.1)
graded_once_example =
    graded_once 20 first_report (report 20 (some 20) SubmissionStatus.running) 9000 9500
      (books SubmissionStatus.running none) (sample_submission SubmissionStatus.running none)
      sample_assessment refl refl refl refl

terminal_is_final_example :
    let b = books SubmissionStatus.graded (some 80) in
    let s = sample_submission SubmissionStatus.graded (some 80) in
    (find_submission 20 (ingest_execution_result first_report 9000 b).1 ≡ some s)
    × (find_submission 20 (close_expired_execution 20 9000 b) ≡ some s)
terminal_is_final_example =
    terminal_is_final 20 first_report 20 9000 (books SubmissionStatus.graded (some 80))
      (sample_submission SubmissionStatus.graded (some 80)) refl refl

-- A report of progress that read the Submission before the grade was written, and writes after it, takes the
-- status back.
dragged_back :
    let graded = (ingest_submission 20 first_report 9000 (books SubmissionStatus.queued none)).1 in
    let late =
      ingest_found
        (report 20 (some 20) SubmissionStatus.running)
        9500
        (sample_submission SubmissionStatus.queued none)
        sample_assessment
        graded in
    map (λ s. s.status) late.1.world.submissions ≡ SubmissionStatus.running ∷ []
unfolding ingest_submission
dragged_back = refl

graded_rows_hide_example :
    let b = books SubmissionStatus.queued none in
    let rows = select (is_result_of 20) (ingest_submission 20 first_report 9000 b).1.results in
    (length rows ≡ length first_report.test_results) × All (IsDiscreet 4 b.cases b.scripts) rows
graded_rows_hide_example =
    graded_rows_hide 20 first_report 9000 (books SubmissionStatus.queued none)
      (sample_submission SubmissionStatus.queued none) sample_assessment refl refl refl refl
