-- ===== src/Grading/Again.antt =====
-- The same callback more than once, and a result that came too late.
use ambatucode.Common.{◌==◌, ==_refl, ℕ, ◌≡◌, refl, ap, ◌∙◌, true, false, some, ok}
use ambatucode.Common.Finding.{find-update}
use ambatucode.Domain.{is_terminal}
use ambatucode.Store.{Submission, Assessment, find_assessment}
use ambatucode.Grading.Rows.{ExecutionResult, Books}
use ambatucode.Grading.Ingest.{
  find_submission, is_submission, with_grade, write_submission, ingest_submission, announce,
  score_of, ingest_found,
}

-- A Submission that the graded row stands for is found after its grade is written.
graded_found :
    (f : Submission → Submission) (i : ℕ) (b : Books) {s : Submission}
    → ((x : Submission) → (f x).id ≡ x.id)
    → find_submission i b ≡ some s
    → find_submission i (write_submission s.id f b) ≡ some (f s)
graded_found f i b {s} same found =
    find-update (is_submission i) (is_submission s.id) f b.world.submissions {a = s}
      (λ x. ap (λ k. k == i) (same x)) found
    ∙ rw (==_refl s.id) refl

ingest_of_found :
    (i : ℕ) (r : ExecutionResult) (now : ℕ) (b : Books) (s : Submission) (a : Assessment)
    → find_submission i b ≡ some s
    → find_assessment s.assessment_id b.world ≡ some a
    → let after = ingest_found r now s a b in ingest_submission i r now b ≡ (ok after.0, after.1)
unfolding ingest_submission
ingest_of_found i r now b s a found its = rw (found, ingest_submission, its) refl

-- The first result with a terminal status that comes for a waiting Submission grades it by the
-- score of its tests, and whatever result comes for it later is answered as a success that persists
-- nothing: it only announces the first grade again.
pub graded_once :
    (i : ℕ) (r second : ExecutionResult) (now later : ℕ) (b : Books) (s : Submission)
    (a : Assessment)
    → find_submission i b ≡ some s
    → find_assessment s.assessment_id b.world ≡ some a
    → is_terminal s.status ≡ false
    → is_terminal r.status ≡ true
    → let first = ingest_submission i r now b in
      let again = ingest_submission i second later first.1 in
      (first.0 ≡ ok (record { persisted = true; delivered = true }))
      × (find_submission i first.1 ≡ some (with_grade r.status (score_of a r) now s))
      × (again.0 ≡ ok (record { persisted = false; delivered = true }))
      × (again.1 ≡ announce s.user_id s.id r.status (some (score_of a r)) first.1)
graded_once i r second now later b s a found its waiting graded =
    let written =
      graded_found (with_grade r.status (score_of a r) now) i b {s = s} (λ x. refl) found in
    let graded_books = (ingest_found r now s a b).1 in
    let first : ingest_submission i r now b
        ≡ (ok (record { persisted = true; delivered = true }), graded_books) =
      ingest_of_found i r now b s a found its ∙ rw (waiting, graded) refl in
    let at : find_submission i graded_books ≡ some (with_grade r.status (score_of a r) now s) =
      rw (waiting, graded) written in
    let again : ingest_submission i second later graded_books ≡ (
      ok (record { persisted = false; delivered = true }),
      announce s.user_id s.id r.status (some (score_of a r)) graded_books,
    ) =
      ingest_of_found i second later graded_books (with_grade r.status (score_of a r) now s) a at
        (rw (waiting, graded) its)
      ∙ rw graded refl in
    rw (first, again) (refl, at, refl, refl)
