-- ===== src/Sessions/Closing.antt =====
-- What the automatic close of one attempt leaves of the others.
use ambatucode.Common.{
  ltb, ◌==◌, Bool-cases, Option-cases, All, find_first, count_where, update_where, ℕ, ◌≡◌, refl,
  inl, inr, Bool, true, false, ◌&&◌, Option, none, some, List, [], ◌∷◌, arith,
}
use ambatucode.Common.Counting.{All-imp, All-update}
use ambatucode.Domain.{AttemptStatus, is_in_progress, is_running}
use ambatucode.Store.{
  cancel_deadline, attempt_deadline, World, Session, Attempt, Draft, ExecutionJob, EventType,
  has_id, find_attempt, find_session,
}
use ambatucode.Official.{claim_official_if_unset, with_official, is_official_sibling}
use ambatucode.Attempts.Activity.{has_draft}
use ambatucode.Attempts.Dispatch.{dispatch_submission, has_submission_id, is_language, job_of}
use ambatucode.Attempts.Submit.{hand_in, with_status}
use ambatucode.Attempts.Close.{
  AutoReason, auto_submit_attempt, close_found, close_due, expire_attempt, submit_draft, code_of,
}

-- No attempt of the session `s` with the id `k` is in progress.
abbrev pub Shut : ℕ → ℕ → List Attempt → Type 0
Shut s k =
    All (λ a. has_id k a ≡ true → (a.session_id == s) ≡ true → is_in_progress a.status ≡ false)

Shut-status :
    (s k i : ℕ) (status : AttemptStatus) (rows : List Attempt)
    → is_in_progress status ≡ false
    → Shut s k rows
    → Shut s k (update_where (has_id i) (with_status status) rows)
Shut-status s k i status [] closed shut = tt
Shut-status s k i status (a ∷ rows) closed shut =
    (ground (arith, shut.0), Shut-status s k i status rows closed shut.1)

Shut-claim :
    (s k t u i : ℕ) (rows : List Attempt)
    → Shut s k rows
    → Shut s k (claim_official_if_unset t u i rows)
unfolding claim_official_if_unset
Shut-claim s k t u i rows shut =
    elim (Bool-cases (ltb 0 (count_where (is_official_sibling t u) rows))) [
      | inl chosen ↦ rw chosen shut
      | inr unset ↦ rw unset (
          All-update _ (has_id i) (with_official true) rows shut
            (All-imp rows (λ a same _. same) shut))
    ]

-- The attempts after a call of `auto_submit_attempt`: as they were, or with the one attempt expired, or
-- with it submitted.
dispatch-rows :
    (enqueue : ExecutionJob → Bool) (i now : ℕ) (w : World)
    → ((dispatch_submission enqueue i now w).attempts ≡ w.attempts)
      × ((dispatch_submission enqueue i now w).sessions ≡ w.sessions)
unfolding dispatch_submission
dispatch-rows enqueue i now w =
    elim (Option-cases (find_first (has_submission_id i) w.submissions)) [
      | inl missing ↦ rw (missing, dispatch_submission) (refl, refl)
      | inr (t, found) ↦ elim (Bool-cases (is_language t.language && enqueue (job_of t))) [
        | inl taken ↦ rw (found, dispatch_submission, taken) (refl, refl)
        | inr refused ↦ rw (found, dispatch_submission, refused) (refl, refl)
      ]
    ]

abbrev pub closed_rows : Attempt → Option Draft → List Attempt → List Attempt
closed_rows a none rows = update_where (has_id a.id) (with_status AttemptStatus.expired) rows
closed_rows a (some d) rows =
    claim_official_if_unset a.session_id a.user_id a.id
      (update_where (has_id a.id) (with_status AttemptStatus.submitted) rows)

pub close_due-rows :
    (enqueue : ExecutionJob → Bool) (a : Attempt) (s : Session) (d : Option Draft) (now : ℕ)
    (w : World)
    → ((close_due enqueue a s d now w).1.attempts ≡ closed_rows a d w.attempts)
      × ((close_due enqueue a s d now w).1.sessions ≡ w.sessions)
unfolding expire_attempt submit_draft hand_in
close_due-rows enqueue a s none now w = (refl, refl)
close_due-rows enqueue a s (some d) now w =
    let handed =
      hand_in a s.assessment_id (code_of d) true EventType.attempt_auto_submitted now w in
    dispatch-rows enqueue w.next_id now (cancel_deadline (attempt_deadline a.id) handed)

closed-Shut :
    (s k : ℕ) (a : Attempt) (d : Option Draft) (rows : List Attempt)
    → Shut s k rows
    → Shut s k (closed_rows a d rows)
closed-Shut s k a none rows shut = Shut-status s k a.id AttemptStatus.expired rows refl shut
closed-Shut s k a (some d) rows shut =
    Shut-claim s k a.session_id a.user_id a.id _
      (Shut-status s k a.id AttemptStatus.submitted rows refl shut)

status-shuts :
    (s i : ℕ) (status : AttemptStatus) (rows : List Attempt)
    → is_in_progress status ≡ false
    → Shut s i (update_where (has_id i) (with_status status) rows)
status-shuts s i status [] closed = tt
status-shuts s i status (a ∷ rows) closed = (ground arith, status-shuts s i status rows closed)

pub closed-shuts :
    (s : ℕ) (a : Attempt) (d : Option Draft) (rows : List Attempt)
    → Shut s a.id (closed_rows a d rows)
closed-shuts s a none rows = status-shuts s a.id AttemptStatus.expired rows refl
closed-shuts s a (some d) rows =
    Shut-claim s a.id a.session_id a.user_id a.id _
      (status-shuts s a.id AttemptStatus.submitted rows refl)

close_found-keeps :
    (enqueue : ExecutionJob → Bool) (a : Attempt) (now s k : ℕ) (w : World) (t : Option Session)
    → (Shut s k w.attempts
        → Shut s k (close_found enqueue AutoReason.session_ended a now w t).1.attempts)
      × ((close_found enqueue AutoReason.session_ended a now w t).1.sessions ≡ w.sessions)
close_found-keeps enqueue a now s k w none = (λ shut. shut, refl)
close_found-keeps enqueue a now s k w (some t) = elim (Bool-cases (is_in_progress a.status)) [
  | inr closed ↦ rw closed (λ shut. shut, refl)
  | inl active ↦ elim (Bool-cases (is_running t.status)) [
    | inl early ↦ rw (active, early) (λ shut. shut, refl)
    | inr due ↦
        let d = find_first (has_draft a.id) w.drafts in
        let (rows, sessions) = close_due-rows enqueue a t d now w in
        rw (active, due) (λ shut. rw rows (closed-Shut s k a d w.attempts shut), sessions)
  ]
]

-- Closing one attempt leaves every closed one closed, and the sessions as they are.
pub auto_submit-keeps :
    (enqueue : ExecutionJob → Bool) (i now s k : ℕ) (w : World)
    → (Shut s k w.attempts
        → Shut s k (auto_submit_attempt enqueue i AutoReason.session_ended now w).1.attempts)
      × ((auto_submit_attempt enqueue i AutoReason.session_ended now w).1.sessions ≡ w.sessions)
unfolding auto_submit_attempt
auto_submit-keeps enqueue i now s k w = elim (Option-cases (find_attempt i w)) [
  | inl missing ↦ rw (missing, auto_submit_attempt) (λ shut. shut, refl)
  | inr (a, found) ↦
      rw (found, auto_submit_attempt)
        (close_found-keeps enqueue a now s k w (find_session a.session_id w))
]
