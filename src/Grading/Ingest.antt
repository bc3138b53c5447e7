-- ===== src/Grading/Ingest.antt =====
-- The result of a Submission, and what becomes of one whose result came too late: ingestSubmission,
-- closeExpiredExecution and ingestExecutionResult of
-- apps/web/src/server/services/execution-result.ts. The leaderboards and the achievements, which are
-- refreshed after the grade is written, are not modelled. A Submission whose Assessment is missing, which
-- the foreign key excludes, answers as a missing one.
use ambatucode.Common.{
  ◌==◌, if◌then◌else◌, is_some, any, find_first, update_where, remove_where, ℕ, Bool, true, false,
  not, ◌&&◌, ◌||◌, Option, none, some, List, [], ◌++◌, map, Error, Result, ok, err,
}
use ambatucode.Domain.{SubmissionStatus, is_terminal}
use ambatucode.Scoring.{ScoredResult, compute_score}
use ambatucode.Store.{Submission, Assessment, execution_status, publish, find_assessment}
use ambatucode.Grading.Rows.{
  TestResult, ExecutionResult, SavedResult, TestCase, TestScript, Books, is_id,
}
use ambatucode.Grading.Validation.{record_script_validation}
use ambatucode.Grading.Runs.{IngestOutcome, ingest_run}

abbrev pub is_submission : ℕ → Submission → Bool
is_submission i s = s.id == i

abbrev pub find_submission : ℕ → Books → Option Submission
find_submission i b = find_first (is_submission i) b.world.submissions

abbrev pub scored_of : TestResult → ScoredResult
scored_of t = record { passed = t.passed; weight = t.weight }

abbrev pub is_public_case : ℕ → List TestCase → ℕ → Bool
is_public_case assessment cases i =
    any (λ c. c.id == i && c.assessment_id == assessment && c.is_public) cases

abbrev pub is_script_of : ℕ → ℕ → TestScript → Bool
is_script_of assessment i s = s.id == i && s.owner_id == assessment

-- `scriptShowsNames.get(id) ?? false`
abbrev pub shows_names_of : ℕ → List TestScript → ℕ → Bool
shows_names_of assessment scripts i = elim (find_first (is_script_of assessment i) scripts) [
  | none ↦ false
  | some s ↦ s.shows_names
]

abbrev pub is_public_row : ℕ → List TestCase → List TestScript → Option ℕ → Option ℕ → Bool
is_public_row assessment cases scripts (some i) script = is_public_case assessment cases i
is_public_row assessment cases scripts none (some i) = shows_names_of assessment scripts i
is_public_row assessment cases scripts none none = false

-- The script's id where it is one of this Assessment's.
abbrev pub own_script : ℕ → List TestScript → Option ℕ → Option ℕ
own_script assessment scripts none = none
own_script assessment scripts (some i) =
    if any (is_script_of assessment i) scripts then some i else none

unfoldable pub saved_result : ℕ → ℕ → List TestCase → List TestScript → TestResult → SavedResult
saved_result submission assessment cases scripts t = record {
  submission_id = submission;
  test_case_id = t.test_case_id;
  test_script_id = own_script assessment scripts t.test_script_id;
  name = t.name;
  status = t.status;
  passed = t.passed;
  weight = t.weight;
  execution_time_ms = t.execution_time_ms;
  memory_used_kb = t.memory_used_kb;
  stdout_excerpt = if is_some t.test_script_id then "" else t.stdout_excerpt;
  stderr_excerpt = if is_some t.test_script_id then "" else t.stderr_excerpt;
  failure_detail = t.failure_detail;
  is_public = is_public_row assessment cases scripts t.test_case_id t.test_script_id;
}

abbrev pub is_result_of : ℕ → SavedResult → Bool
is_result_of i r = r.submission_id == i

abbrev pub with_progress : SubmissionStatus → Submission → Submission
with_progress status s = record s { status = status }

abbrev pub with_grade : SubmissionStatus → ℕ → ℕ → Submission → Submission
with_grade status score now s = record s {
  status = status;
  score = some score;
  graded_at = some now;
}

abbrev pub write_submission : ℕ → (Submission → Submission) → Books → Books
write_submission i f b = record b {
  world = record b.world { submissions = update_where (is_submission i) f b.world.submissions };
}

abbrev pub announce : ℕ → ℕ → SubmissionStatus → Option ℕ → Books → Books
announce user i status score b = record b {
  world = publish (execution_status user i status score) b.world;
}

-- The score that the written row has.
abbrev score_in : ℕ → Books → Option ℕ
score_in i b = elim (find_submission i b) [ none ↦ none | some s ↦ s.score ]

abbrev pub score_of : Assessment → ExecutionResult → ℕ
score_of a r = compute_score a.grading_strategy r.status (map scored_of r.test_results)

abbrev pub save_results : ℕ → ℕ → ExecutionResult → Books → Books
save_results i assessment r b = record b {
  results =
      map (saved_result i assessment b.cases b.scripts) r.test_results
      ++ remove_where (is_result_of i) b.results;
}

-- The branches of `ingestSubmission` for a Submission that was found. The source holds no lock between the
-- reading and the writing: this is the writing, with the row as it was read and the books as they are.
abbrev pub ingest_found :
    ExecutionResult → ℕ → Submission → Assessment → Books → IngestOutcome × Books
ingest_found r now s a b =
    if is_terminal s.status
    then (
      record { persisted = false; delivered = true },
      announce s.user_id s.id s.status s.score b,
    )
    else (if is_terminal r.status
        then (
          record { persisted = true; delivered = true },
          announce s.user_id s.id r.status (some (score_of a r)) (
              write_submission s.id (with_grade r.status (score_of a r) now)
                (save_results s.id s.assessment_id r b)),
        )
        else (
          record { persisted = true; delivered = true },
          let written = write_submission s.id (with_progress r.status) b in
              announce s.user_id s.id r.status (score_in s.id written) written,
        ))

-- The reading and the writing with no other request between them.
unfoldable pub ingest_submission : ℕ → ExecutionResult → ℕ → Books → Result IngestOutcome × Books
unfolding saved_result
ingest_submission i r now b = elim (find_submission i b) [
  | none ↦ (err Error.not_found, b)
  | some s ↦ elim (find_assessment s.assessment_id b.world) [
    | none ↦ (err Error.not_found, b)
    | some a ↦ let (outcome, after) = ingest_found r now s a b in (ok outcome, after)
  ]
]

abbrev pub ingest_as : Option ℕ → ExecutionResult → ℕ → Books → Result IngestOutcome × Books
ingest_as none r now b = let (outcome, after) = ingest_run r now b in (ok outcome, after)
ingest_as (some i) r now b = ingest_submission i r now b

unfoldable pub ingest_execution_result : ExecutionResult → ℕ → Books → Result IngestOutcome × Books
ingest_execution_result r now b = ingest_as r.submission_id r now b

-- The result that an expired job is given: a system error with no tests.
abbrev pub expired_result : ℕ → ExecutionResult
expired_result job = record {
  job_id = job;
  submission_id = none;
  status = SubmissionStatus.system_error;
  compiler_output = none;
  system_error =
      some
        "The job waited in the queue longer than its result may arrive, so the result was refused. Check that an execution worker is running.";
  execution_time_ms = 0;
  memory_used_kb = none;
  test_results = [];
}

-- The writing of `closeExpiredExecution`, with the row as it was read.
abbrev pub fail_waiting : ℕ → ℕ → Submission → Books → Books
fail_waiting job now s b =
    if not (is_id job s.job_id) || is_terminal s.status
    then b
    else announce s.user_id s.id SubmissionStatus.system_error (some 0)
        (write_submission s.id (with_grade SubmissionStatus.system_error 0 now) b)

-- Likewise with no other request between the reading and the writing.
unfoldable pub close_expired_execution : ℕ → ℕ → Books → Books
close_expired_execution job now b =
    let after = (record_script_validation (expired_result job) now b).1 in
    elim (find_submission job after) [ none ↦ after | some s ↦ fail_waiting job now s after ]
