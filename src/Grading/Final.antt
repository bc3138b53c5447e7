-- ===== src/Grading/Final.antt =====
-- A Submission that has reached a terminal status keeps it, whatever result comes after it.
use ambatucode.Common.{
  none, Option, Option, ◌==◌, Bool-cases, Option-cases, find_first, ℕ, ◌≡◌, refl, ap, subst, ◌∙◌,
  inl, inr, true, false, not, ◌||◌, some, ◌∷◌, arith,
}
use ambatucode.Common.Counting.{find_first-passes}
use ambatucode.Common.Finding.{find-update}
use ambatucode.Domain.{is_terminal, SubmissionStatus}
use ambatucode.Store.{Submission, Assessment, find_assessment}
use ambatucode.Grading.Rows.{ExecutionResult, Books, is_id}
use ambatucode.Grading.Validation.{record_script_validation}
use ambatucode.Grading.Practice.{record_practice_run}
use ambatucode.Grading.Runs.{ingest_run, is_owner, deliver_run, run_notice}
use ambatucode.Grading.Ingest.{
  find_submission, is_submission, with_grade, with_progress, write_submission, ingest_submission,
  ingest_execution_result, close_expired_execution, ingest_as, ingest_found, expired_result,
  score_of,
}

-- A validation and a Run write no table of the world.
pub validation-world :
    (r : ExecutionResult) (now : ℕ) (b : Books)
    → (record_script_validation r now b).1.world ≡ b.world
unfolding record_script_validation
validation-world r now b = ground arith

pub practice-world :
    (job u : ℕ) (r : ExecutionResult) (now : ℕ) (b : Books)
    → (record_practice_run job u r now b).1.world ≡ b.world
unfolding record_practice_run
practice-world job u r now b = ground arith

pub run-world : (r : ExecutionResult) (now : ℕ) (b : Books) → (ingest_run r now b).1.world ≡ b.world
unfolding ingest_run deliver_run
run-world r now b =
    let kept = record_script_validation r now b in
    elim (Option-cases (find_first (is_owner r.job_id) kept.1.owners)) [
      | inl nobody ↦ rw (nobody, ingest_run) (validation-world r now b)
      | inr (o, found) ↦
          rw (found, ingest_run)
            (practice-world r.job_id o.user_id r now
                (record kept.1 { run_notices = run_notice r o.user_id kept.1 ∷ kept.1.run_notices })
              ∙ validation-world r now b)
    ]

-- A write to a Submission that has not reached a terminal status leaves one that has.
pub write-keeps :
    (f : Submission → Submission) (i j : ℕ) (b : Books) {s t : Submission}
    → ((x : Submission) → (f x).id ≡ x.id)
    → find_submission i b ≡ some s
    → is_terminal s.status ≡ true
    → find_submission j b ≡ some t
    → is_terminal t.status ≡ false
    → find_submission i (write_submission t.id f b) ≡ some s
write-keeps f i j b {s} {t} same found done other waiting =
    elim (Bool-cases (is_submission t.id s)) [
      | inl equal ↦
          let mine = find_first-passes (is_submission i) b.world.submissions found in
          let theirs = find_first-passes (is_submission j) b.world.submissions other in
          let one : i ≡ j = ground arith in
          absurd (let twice = subst (λ k. find_submission k b ≡ some s) one found in cc)
      | inr apart ↦
          find-update (is_submission i) (is_submission t.id) f b.world.submissions {a = s}
            (λ x. ap (λ k. k == i) (same x)) found
          ∙ rw apart refl
    ]

-- What `ingest_found` does to any Submission with a terminal status.
found-keeps :
    (i j : ℕ) (r : ExecutionResult) (now : ℕ) (a : Assessment) (b : Books) {s t : Submission}
    → find_submission i b ≡ some s
    → is_terminal s.status ≡ true
    → find_submission j b ≡ some t
    → find_submission i (ingest_found r now t a b).1 ≡ some s
found-keeps i j r now a b {s} {t} found done other = elim (Bool-cases (is_terminal t.status)) [
  | inl final ↦ rw final found
  | inr waiting ↦ rw waiting (elim (Bool-cases (is_terminal r.status)) [
    | inl graded ↦ rw graded (
        write-keeps (with_grade r.status (score_of a r) now) i j b {s = s} {t = t} (λ x. refl) found
          done other waiting)
    | inr moving ↦ rw moving (
        write-keeps (with_progress r.status) i j b {s = s} {t = t} (λ x. refl) found done other
          waiting)
  ])
]

submission-keeps :
    (i j : ℕ) (r : ExecutionResult) (now : ℕ) (b : Books) {s : Submission}
    → find_submission i b ≡ some s
    → is_terminal s.status ≡ true
    → find_submission i (ingest_submission j r now b).1 ≡ some s
unfolding ingest_submission
submission-keeps i j r now b found done = elim (Option-cases (find_submission j b)) [
  | inl missing ↦ rw (missing, ingest_submission) found
  | inr (t, other) ↦
      rw (other, ingest_submission)
        (elim (Option-cases (find_assessment t.assessment_id b.world)) [
          | inl none_such ↦ rw none_such found
          | inr (a, its) ↦ rw its (found-keeps i j r now a b found done other)
        ])
]

as-keeps :
    (i : ℕ) (o : Option ℕ) (r : ExecutionResult) (now : ℕ) (b : Books) {s : Submission}
    → find_submission i b ≡ some s
    → is_terminal s.status ≡ true
    → find_submission i (ingest_as o r now b).1 ≡ some s
as-keeps i none r now b found done =
    ap (λ w. find_first (is_submission i) w.submissions) (run-world r now b) ∙ found
as-keeps i (some j) r now b found done = submission-keeps i j r now b found done

-- A Submission with a terminal status is the same row after any result of any job, and after any
-- job is closed because its result came too late: its status, score and time of grading are not
-- rewritten.
pub terminal_is_final :
    (i : ℕ) (r : ExecutionResult) (job now : ℕ) (b : Books) (s : Submission)
    → find_submission i b ≡ some s
    → is_terminal s.status ≡ true
    → (find_submission i (ingest_execution_result r now b).1 ≡ some s)
      × (find_submission i (close_expired_execution job now b) ≡ some s)
unfolding ingest_execution_result close_expired_execution
terminal_is_final i r job now b s found done = (
  as-keeps i r.submission_id r now b found done,
  let after = (record_script_validation (expired_result job) now b).1 in
      let still : find_submission i after ≡ some s =
        ap (λ w. find_first (is_submission i) w.submissions)
          (validation-world (expired_result job) now b)
        ∙ found in
      elim (Option-cases (find_submission job after)) [
        | inl missing ↦ rw (missing, close_expired_execution) still
        | inr (t, other) ↦
            rw (other, close_expired_execution)
              (elim (Bool-cases (not (is_id job t.job_id) || is_terminal t.status)) [
                | inl left ↦ rw left still
                | inr waiting ↦ rw waiting (
                    write-keeps (with_grade SubmissionStatus.system_error 0 now) i job after {s = s}
                      {t = t} (λ x. refl) still done other (ground arith))
              ])
      ],
)
