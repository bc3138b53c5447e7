-- ===== src/Grading/Practice.antt =====
-- The progress of a Coder at a Practice Activity: recordPracticeRun of
-- apps/web/src/server/services/practice-progress.ts, where Redis and the database answer. The
-- achievements that it evaluates last are not modelled.
use ambatucode.Common.{
  ◌==◌, if◌then◌else◌, is_none, every, any, find_first, update_where, ℕ, ◌+◌, Bool, true, false,
  not, ◌&&◌, none, some, List, [], ◌∷◌,
}
use ambatucode.Domain.{is_graded}
use ambatucode.Grading.Rows.{ExecutionResult, TestResult, PracticeRun, PracticeProgress, Books}

abbrev is_none_run : List TestResult → Bool
is_none_run [] = true
is_none_run (_ ∷ _) = false

unfoldable pub passed_everything : ExecutionResult → Bool
passed_everything r =
    is_graded r.status && not (is_none_run r.test_results) && every (λ t. t.passed) r.test_results

abbrev pub is_practice_run : ℕ → PracticeRun → Bool
is_practice_run job p = p.job_id == job

abbrev pub is_progress : ℕ → ℕ → PracticeProgress → Bool
is_progress u a p = p.user_id == u && p.activity_id == a

abbrev first_progress : ℕ → ℕ → Bool → ℕ → PracticeProgress
first_progress u a mastered now = record {
  user_id = u;
  activity_id = a;
  run_count = 1;
  last_run_at = now;
  passed_all_at = if mastered then some now else none;
}

abbrev pub count_run : ℕ → PracticeProgress → PracticeProgress
count_run now p = record p { run_count = p.run_count + 1; last_run_at = now }

abbrev pub stamp : ℕ → PracticeProgress → PracticeProgress
stamp now p = record p { passed_all_at = some now }

abbrev pub upsert_progress : ℕ → ℕ → Bool → ℕ → List PracticeProgress → List PracticeProgress
upsert_progress u a mastered now rows =
    if any (is_progress u a) rows
    then update_where (is_progress u a) (count_run now) rows
    else first_progress u a mastered now ∷ rows

abbrev pub stamp_mastery : ℕ → ℕ → Bool → ℕ → List PracticeProgress → List PracticeProgress
stamp_mastery u a mastered now rows =
    if mastered
    then update_where (λ p. is_progress u a p && is_none p.passed_all_at) (stamp now) rows
    else rows

unfoldable pub write_progress : ℕ → ℕ → Bool → ℕ → List PracticeProgress → List PracticeProgress
write_progress u a mastered now rows =
    stamp_mastery u a mastered now (upsert_progress u a mastered now rows)

unfoldable pub record_practice_run : ℕ → ℕ → ExecutionResult → ℕ → Books → Bool × Books
unfolding passed_everything write_progress
record_practice_run job u r now b = elim (find_first (is_practice_run job) b.practice_runs) [
  | none ↦ (false, b)
  | some p ↦ (
    true,
    record b { progress = write_progress u p.activity_id (passed_everything r) now b.progress },
  )
]
