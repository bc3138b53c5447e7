-- ===== src/Grading/Runs.antt =====
-- The result of a Run: ingestRun and scriptsThatMayBeNamed of
-- apps/web/src/server/services/execution-result.ts.
use ambatucode.Common.{
  ◌==◌, if◌then◌else◌, is_some, any, find_first, ℕ, suc, Bool, true, false, not, ◌&&◌, ◌||◌, none,
  some, List, [], ◌∷◌,
}
use ambatucode.Grading.Rows.{
  TestResult, ExecutionResult, ShownName, named, hidden_test, RunRow, RunNotice, TestScript,
  RunOwner, Books,
}
use ambatucode.Grading.Validation.{record_script_validation}
use ambatucode.Grading.Practice.{record_practice_run}

pub record IngestOutcome : Type 0 where
  pub persisted : Bool
  pub delivered : Bool

-- Whether a script is found by its id: in an Assessment that shows its names, or in practice.
unfoldable pub may_be_named : List TestScript → List TestScript → ℕ → Bool
may_be_named scripts practice_scripts i =
    any (λ s. s.id == i && s.shows_names) scripts || any (λ s. s.id == i) practice_scripts

-- `fromScript && !named.has(scriptId)`
abbrev pub is_withheld : (ℕ → Bool) → TestResult → Bool
is_withheld may t = elim t.test_script_id [ none ↦ false | some i ↦ not (may i) ]

abbrev pub run_row : ShownName → TestResult → RunRow
run_row name t = record {
  name = name;
  status = t.status;
  passed = t.passed;
  execution_time_ms = t.execution_time_ms;
  stdout_excerpt = if is_some t.test_script_id then "" else t.stdout_excerpt;
  stderr_excerpt = if is_some t.test_script_id then "" else t.stderr_excerpt;
  failure_detail = t.failure_detail;
}

-- `anonymous` rows have been numbered before these.
unfoldable pub run_rows : (ℕ → Bool) → ℕ → List TestResult → List RunRow
run_rows may anonymous [] = []
run_rows may anonymous (t ∷ ts) =
    let hidden = run_rows may (suc anonymous) ts in
    let shown = run_rows may anonymous ts in
    if is_withheld may t
    then run_row (hidden_test (suc anonymous)) t ∷ hidden
    else run_row (named t.name) t ∷ shown

abbrev pub run_notice : ExecutionResult → ℕ → Books → RunNotice
run_notice r u b = record {
  user_id = u;
  job_id = r.job_id;
  status = r.status;
  test_results = run_rows (may_be_named b.scripts b.practice_scripts) 0 r.test_results;
  compiler_output = r.compiler_output;
}

abbrev pub is_owner : ℕ → RunOwner → Bool
is_owner job o = o.job_id == job

-- `publishExecutionStatus` of a RUN, and the progress that is written after it.
unfoldable pub deliver_run : ExecutionResult → ℕ → ℕ → Books → Books
unfolding may_be_named run_rows
deliver_run r u now b =
    (record_practice_run r.job_id u r now
      (record b { run_notices = run_notice r u b ∷ b.run_notices })).1

unfoldable pub ingest_run : ExecutionResult → ℕ → Books → IngestOutcome × Books
unfolding deliver_run
ingest_run r now b =
    let (kept, after) = record_script_validation r now b in
    elim (find_first (is_owner r.job_id) after.owners) [
      | none ↦ (record { persisted = kept; delivered = false }, after)
      | some o ↦ (record { persisted = kept; delivered = true }, deliver_run r o.user_id now after)
    ]
