-- ===== src/Attempts/Refusals.antt =====
-- What settles an attempt, and what a settled attempt answers.
use ambatucode.Common.{
  Bool-cases, Option, Option-cases, find_first, ℕ, ◌<◌, ◌≡◌, refl, subst, inl, inr, Bool, true,
  false, none, some, arith, Error, ok, err, Result-cases,
}
use ambatucode.Common.Counting.{find_first-All, find_first-passes}
use ambatucode.Domain.{AttemptStatus, is_in_progress}
use ambatucode.Store.{
  cancel_deadline, attempt_deadline, World, Attempt, Session, ExecutionJob, EventType, has_id,
  find_attempt, find_session,
}
use ambatucode.Access.{Actor}
use ambatucode.Attempts.Activity.{CodeInput, has_draft}
use ambatucode.Attempts.Submit.{hand_in, submit_attempt, submit_checks}
use ambatucode.Attempts.Close.{
  code_of, AutoOutcome, not_due, expired, submitted, is_too_early, expire_attempt, submit_draft,
  close_found, AutoReason, not_active, auto_submit_attempt,
}
use ambatucode.Attempts.Invariant.{Valid}
use ambatucode.Attempts.Once.{
  submitted-IsFinal, Settled, is_final, dispatch-Settled, hand_in-settles,
}
use ambatucode.Attempts.Requests.{submit_checks-ok, assert_active-ok}

pub auto_submit-Settled :
    (enqueue : ExecutionJob → Bool) (i : ℕ) (reason : AutoReason) (now : ℕ) (w : World)
    → Settled i w
    → auto_submit_attempt enqueue i reason now w ≡ (not_active, w)
unfolding auto_submit_attempt
auto_submit-Settled enqueue i reason now w (old, final) = elim (Option-cases (find_attempt i w)) [
  | inl missing ↦ rw (missing, auto_submit_attempt) refl
  | inr (a, found) ↦
      let passes = find_first-passes (has_id i) w.attempts found in
      let ended : is_final a.status ≡ true =
        find_first-All _ (has_id i) w.attempts found final passes in
      let closed : is_in_progress a.status ≡ false = ground arith in
      rw (found, auto_submit_attempt)
        (elim (Option-cases (find_session a.session_id w)) [
          | inl missing ↦ rw missing refl
          | inr (s, e) ↦ rw (e, closed) refl
        ])
]

pub submit-Settled :
    (enqueue : ExecutionJob → Bool) (actor : Actor) (i : ℕ) (input : CodeInput) (now : ℕ)
    (w : World)
    → Settled i w
    → (e : Error) × (submit_attempt enqueue actor i input now w ≡ (err e, w))
unfolding submit_attempt
submit-Settled enqueue actor i input now w (old, final) =
    elim (Result-cases (submit_checks actor i input now w)) [
      | inl (e, refused) ↦ (e, rw (refused, submit_attempt) refl)
      | inr (scope, accepted) ↦
          let (found, active) = submit_checks-ok actor i input now w accepted in
          let (status, _, _) = assert_active-ok scope.attempt scope.session now active in
          let passes = find_first-passes (has_id i) w.attempts found in
          let ended = find_first-All _ (has_id i) w.attempts found final passes in
          absurd (let broken = rw status at ended in cc)
    ]

pub submit-settles :
    (enqueue : ExecutionJob → Bool) (actor : Actor) (i n : ℕ) (input : CodeInput) (now : ℕ)
    (w : World)
    → Valid w
    → (submit_attempt enqueue actor i input now w).0 ≡ ok n
    → Settled i (submit_attempt enqueue actor i input now w).1
unfolding submit_attempt
submit-settles enqueue actor i n input now w v h =
    elim (Result-cases (submit_checks actor i input now w)) [
      | inl (e, refused) ↦ absurd (let broken = rw (refused, submit_attempt) at h in cc)
      | inr (scope, accepted) ↦
          let (found, active) = submit_checks-ok actor i input now w accepted in
          let same : scope.attempt.id ≡ i =
            ground (arith, find_first-passes (has_id i) w.attempts found) in
          let old : scope.attempt.id < w.next_id =
            (find_first-All _ (has_id i) w.attempts found v.rows_sound).0 in
          let handed =
            hand_in scope.attempt scope.assessment.id input false EventType.attempt_submitted now
              w in
          rw (accepted, submit_attempt)
            (dispatch-Settled enqueue w.next_id now i (cancel_deadline (attempt_deadline i) handed)
              (subst (λ k. Settled k handed) same
                (hand_in-settles scope.attempt scope.assessment.id input false
                  EventType.attempt_submitted now w old)))
    ]

-- Whether an automatic close has closed the attempt.
abbrev pub has_closed : AutoOutcome → Bool
has_closed not_active = false
has_closed not_due = false
has_closed expired = true
has_closed (submitted n) = true

close_found-settles :
    (enqueue : ExecutionJob → Bool) (reason : AutoReason) (a : Attempt) (now : ℕ) (w : World)
    (t : Option Session)
    → a.id < w.next_id
    → has_closed (close_found enqueue reason a now w t).0 ≡ true
    → Settled a.id (close_found enqueue reason a now w t).1
unfolding submit_draft expire_attempt
close_found-settles enqueue reason a now w none old h = absurd (cc)
close_found-settles enqueue reason a now w (some t) old h =
    elim (Bool-cases (is_in_progress a.status)) [
      | inr closed ↦ absurd (let broken = rw closed at h in cc)
      | inl active ↦ elim (Bool-cases (is_too_early reason a t now)) [
        | inl early ↦ absurd (let broken = rw (active, early) at h in cc)
        | inr due ↦ elim (Option-cases (find_first (has_draft a.id) w.drafts)) [
          | inl missing ↦
              rw (active, due, missing)
                (old, submitted-IsFinal AttemptStatus.expired a.id w.attempts refl)
          | inr (d, saved) ↦
              let handed =
                hand_in a t.assessment_id (code_of d) true EventType.attempt_auto_submitted now w in
              rw (active, due, saved)
                (dispatch-Settled enqueue w.next_id now a.id
                  (cancel_deadline (attempt_deadline a.id) handed)
                  (hand_in-settles a t.assessment_id (code_of d) true
                    EventType.attempt_auto_submitted now w old))
        ]
      ]
    ]

pub auto_submit-settles :
    (enqueue : ExecutionJob → Bool) (i : ℕ) (reason : AutoReason) (now : ℕ) (w : World)
    → Valid w
    → has_closed (auto_submit_attempt enqueue i reason now w).0 ≡ true
    → Settled i (auto_submit_attempt enqueue i reason now w).1
unfolding auto_submit_attempt
auto_submit-settles enqueue i reason now w v h = elim (Option-cases (find_attempt i w)) [
  | inl missing ↦ absurd (let broken = rw (missing, auto_submit_attempt) at h in cc)
  | inr (a, found) ↦
      let same : a.id ≡ i = ground (arith, find_first-passes (has_id i) w.attempts found) in
      let old : a.id < w.next_id = (find_first-All _ (has_id i) w.attempts found v.rows_sound).0 in
      let t = find_session a.session_id w in
      rw (found, auto_submit_attempt)
        (subst (λ k. Settled k (close_found enqueue reason a now w t).1) same
          (close_found-settles enqueue reason a now w t old (rw (found, auto_submit_attempt) at h)))
]
