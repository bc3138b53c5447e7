-- ===== src/Attempts/Dispatch.antt =====
-- Queuing a Submission for grading: `dispatchSubmission`. The enqueue itself belongs to BullMQ, so
-- whether it takes a job is the parameter `enqueue`. The limits and the test cases of the job, which
-- nothing here depends on, are left out.
use ambatucode.Common.{
  ◌==◌, if◌then◌else◌, any, find_first, update_where, ℕ, Bool, ◌&&◌, none, some, List, [], ◌∷◌,
}
use Prim.Native.String.{String}
use text.Mathlib.Text.{◌==◌ as str_eq}
use ambatucode.Domain.{SubmissionStatus}
use ambatucode.Store.{World, Submission, ExecutionJob, execution_status, publish}

-- `LANGUAGES`
abbrev languages : List String
languages = "python" ∷ "javascript" ∷ "java" ∷ "cpp" ∷ []

unfoldable pub is_language : String → Bool
is_language l = any (str_eq l) languages

abbrev pub has_submission_id : ℕ → Submission → Bool
has_submission_id i s = s.id == i

abbrev pub job_of : Submission → ExecutionJob
job_of s = record {
  job_id = s.id;
  user_id = s.user_id;
  language = s.language;
  source_code = s.source_code;
}

abbrev pub with_job : Submission → Submission
with_job s = record s { job_id = some s.id }

abbrev pub failed_at : ℕ → Submission → Submission
failed_at now s = record s {
  status = SubmissionStatus.system_error;
  score = some 0;
  graded_at = some now;
}

abbrev dispatch_found : (ExecutionJob → Bool) → ℕ → Submission → World → World
dispatch_found enqueue now s w =
    if is_language s.language && enqueue (job_of s)
    then record w {
      jobs = job_of s ∷ w.jobs;
      submissions = update_where (has_submission_id s.id) with_job w.submissions;
    }
    else publish (execution_status s.user_id s.id SubmissionStatus.system_error (some 0))
        (record w {
          submissions = update_where (has_submission_id s.id) (failed_at now) w.submissions;
        })

unfoldable pub dispatch_submission : (ExecutionJob → Bool) → ℕ → ℕ → World → World
unfolding is_language
dispatch_submission enqueue i now w = elim (find_first (has_submission_id i) w.submissions) [
  | none ↦ w
  | some s ↦ dispatch_found enqueue now s w
]
