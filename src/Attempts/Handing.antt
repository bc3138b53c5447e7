-- ===== src/Attempts/Handing.antt =====
-- Handing an attempt in, by either way, and queuing its Submission keep the invariant.
use ambatucode.Common.{
  ltb, ◌==◌, Bool-cases, Option-cases, All, find_first, count_where, update_where, ℕ, ◌<◌, ◌≡◌,
  refl, ap, inl, inr, Bool, true, false, ◌&&◌, some, List, [], ◌∷◌, arith,
}
use ambatucode.Common.Counting.{count-update_every, All-imp, All-update_every, find_first-All}
use ambatucode.Domain.{AttemptStatus}
use ambatucode.Store.{World, Attempt, Submission, ExecutionJob, EventType, has_id}
use ambatucode.Official.{claim_official_if_unset, is_official_sibling}
use ambatucode.Official.Laws.{Belongs, mark-OneOfficial}
use ambatucode.Attempts.Activity.{CodeInput}
use ambatucode.Attempts.Dispatch.{
  dispatch_submission, has_submission_id, is_language, job_of, with_job, failed_at,
}
use ambatucode.Attempts.Submit.{with_status, new_submission, hand_in}
use ambatucode.Attempts.Invariant.{
  IsValid, Valid, IsSoundRow, found-Belongs, of_attempt, is_unsubmitted,
}
use ambatucode.Attempts.Transitions.{
  with_status-IsValid, with_official-IsValid, add_submission-IsValid,
}

-- A rewrite of Submissions that leaves the attempts they are of.
pub rewrite_submissions-IsValid :
    (p : Submission → Bool) (f : Submission → Submission) {rows : List Attempt}
    {subs : List Submission} {n : ℕ}
    → ((s : Submission) → (f s).attempt_id ≡ s.attempt_id)
    → IsValid rows subs n
    → IsValid rows (update_where p f subs) n
rewrite_submissions-IsValid p f {rows} {subs} {n} same v = record {
  unique_ids = v.unique_ids;
  unique_numbers = v.unique_numbers;
  one_official = v.one_official;
  rows_sound =
      All-imp rows (λ a sound. (sound.0, sound.1, λ h. rw (counts a.id) (sound.2 h))) v.rows_sound;
  one_submission = λ i. rw (counts i) (v.one_submission i);
  subs_old =
      All-update_every (λ s. s.attempt_id < n) p f subs (λ s old. rw (same s) old) v.subs_old;
}
  where
    counts :
        (i : ℕ)
        → count_where (of_attempt i) (update_where p f subs) ≡ count_where (of_attempt i) subs
    counts i = count-update_every (of_attempt i) p f subs (λ s. ap (λ k. k == i) (same s))

pub dispatch-Valid :
    (enqueue : ExecutionJob → Bool) (i now : ℕ) (w : World)
    → Valid w
    → Valid (dispatch_submission enqueue i now w)
unfolding dispatch_submission
dispatch-Valid enqueue i now w v =
    elim (Option-cases (find_first (has_submission_id i) w.submissions)) [
      | inl missing ↦ rw (missing, dispatch_submission) v
      | inr (s, found) ↦
          rw (found, dispatch_submission)
            (elim (Bool-cases (is_language s.language && enqueue (job_of s))) [
              | inl taken ↦
                  rw taken
                    (rewrite_submissions-IsValid (has_submission_id s.id) with_job (λ t. refl) v)
              | inr refused ↦ rw refused (
                  rewrite_submissions-IsValid (has_submission_id s.id) (failed_at now) (λ t. refl)
                    v)
            ])
    ]

closed_rows :
    (i : ℕ) (rows : List Attempt)
    → All
        (λ a. has_id i a ≡ true → is_unsubmitted a.status ≡ false)
        (update_where (has_id i) (with_status AttemptStatus.submitted) rows)
closed_rows i [] = tt
closed_rows i (a ∷ rows) = (ground arith, closed_rows i rows)

pub claim-IsValid :
    (s u i : ℕ) {rows : List Attempt} {subs : List Submission} {n : ℕ}
    → Belongs s u i rows
    → IsValid rows subs n
    → IsValid (claim_official_if_unset s u i rows) subs n
unfolding claim_official_if_unset
claim-IsValid s u i {rows} own v =
    elim (Bool-cases (ltb 0 (count_where (is_official_sibling s u) rows))) [
      | inl chosen ↦ rw chosen v
      | inr unset ↦ rw unset (
          with_official-IsValid (has_id i) true
            (mark-OneOfficial s u i rows own v.unique_ids (ground arith) v.one_official) v)
    ]

-- An attempt that is found and has not been handed in is handed in.
pub hand_in-Valid :
    (a : Attempt) (assessment : ℕ) (input : CodeInput) (auto : Bool) (type : EventType) (now : ℕ)
    (w : World)
    → find_first (has_id a.id) w.attempts ≡ some a
    → is_unsubmitted a.status ≡ true
    → Valid w
    → Valid (hand_in a assessment input auto type now w)
unfolding hand_in
hand_in-Valid a assessment input auto type now w found open_yet v =
    claim-IsValid a.session_id a.user_id a.id
      (All-update_every _ (has_id a.id) (with_status AttemptStatus.submitted) w.attempts
        (λ b same e. same e) (found-Belongs a.id w.attempts v.unique_ids found))
      (add_submission-IsValid (new_submission w.next_id a assessment input auto now) sound.0
        (sound.2 open_yet) (closed_rows a.id w.attempts)
        (with_status-IsValid a.id AttemptStatus.submitted (λ h. absurd (cc)) v))
  where
    sound : IsSoundRow w.attempts w.submissions w.next_id a
    sound = find_first-All _ (has_id a.id) w.attempts found v.rows_sound
