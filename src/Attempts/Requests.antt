-- ===== src/Attempts/Requests.antt =====
-- Each request on an attempt keeps the invariant.
use ambatucode.Common.{
  refuse_if-ok, sym, subst, ◌==◌, Bool-cases, Option-cases, find_first, ℕ, ◌≡◌, refl, inl, inr,
  Bool, true, false, not, Option, none, some, List, arith, Error, ok, refuse_if, or_refuse,
  Result-cases, bind-ok, or_refuse-ok,
}
use ambatucode.Domain.{is_in_progress, SessionStatus, AttemptStatus}
use ambatucode.Common.Counting.{find_first-passes, find_first-All}
use ambatucode.Clock.Laws.{activity_accepted_iff}
use ambatucode.Clock.{
  is_individual, attempt_deadline_ms, is_attempt_overdue, attempt_activity_problem,
}
use ambatucode.Store.{
  find_session, find_assessment, World, Attempt, Draft, Session, ExecutionJob, EventType, has_id,
  find_attempt, find_session,
}
use ambatucode.Access.{Actor, AttemptScope, scope_for_own_attempt, scope_for_session}
use ambatucode.Attempts.Activity.{
  save_draft, has_draft, draft_checks, assert_language_allowed, CodeInput, assert_active,
  effective_session_status, clock_for,
}
use ambatucode.Attempts.Transitions.{with_status-IsValid}
use ambatucode.Attempts.Close.{
  AutoReason, expire_attempt, submit_draft, code_of, reschedule, close_found, is_too_early,
  auto_submit_attempt,
}
use ambatucode.Attempts.Submit.{submit_checks, submit_attempt}
use ambatucode.Attempts.Invariant.{Valid, is_unsubmitted}
use ambatucode.Attempts.Handing.{dispatch-Valid, hand_in-Valid}

-- The attempt of a scope is the row that its id finds.
pub scope_for_own_attempt-finds :
    (i user : ℕ) (w : World) {scope : AttemptScope}
    → scope_for_own_attempt i user w ≡ ok scope
    → find_attempt i w ≡ some scope.attempt
unfolding scope_for_own_attempt
scope_for_own_attempt-finds i user w {scope} h =
    let (a, e, rest) = bind-ok (or_refuse (find_attempt i w) Error.not_found) h in
    let (u, _, rest') = bind-ok (refuse_if (not (a.user_id == user)) Error.not_found) rest in
    let (p, _, rest'') = bind-ok (scope_for_session a.session_id w) rest' in
    let found = or_refuse-ok (find_attempt i w) _ e in
    let same : record { attempt = a; session = p.0; assessment = p.1 } ≡ scope = cc in
    rw (← same) found

pub scope_for_own_attempt-own :
    (i user : ℕ) (w : World) {scope : AttemptScope}
    → scope_for_own_attempt i user w ≡ ok scope
    → scope.attempt.user_id ≡ user
unfolding scope_for_own_attempt
scope_for_own_attempt-own i user w {scope} h =
    let (a, e, rest) = bind-ok (or_refuse (find_attempt i w) Error.not_found) h in
    let (u, own, rest') = bind-ok (refuse_if (not (a.user_id == user)) Error.not_found) rest in
    let (p, _, rest'') = bind-ok (scope_for_session a.session_id w) rest' in
    let same : record { attempt = a; session = p.0; assessment = p.1 } ≡ scope = cc in
    let is_own : a.user_id ≡ user = ground (arith, refuse_if-ok _ Error.not_found own) in
    rw (← same) is_own

pub scope_for_own_attempt-reads :
    (i user : ℕ) (w : World) {scope : AttemptScope}
    → scope_for_own_attempt i user w ≡ ok scope
    → (find_session scope.attempt.session_id w ≡ some scope.session)
      × (find_assessment scope.session.assessment_id w ≡ some scope.assessment)
unfolding scope_for_own_attempt scope_for_session
scope_for_own_attempt-reads i user w {scope} h =
    let (a, e, rest) = bind-ok (or_refuse (find_attempt i w) Error.not_found) h in
    let (u, _, rest') = bind-ok (refuse_if (not (a.user_id == user)) Error.not_found) rest in
    let (p, looked, rest'') = bind-ok (scope_for_session a.session_id w) rest' in
    let (s, at, more) = bind-ok (or_refuse (find_session a.session_id w) Error.not_found) looked in
    let (t, its, last) =
      bind-ok (or_refuse (find_assessment s.assessment_id w) Error.not_found) more in
    let pair : (s, t) ≡ p = cc in
    let same : record { attempt = a; session = p.0; assessment = p.1 } ≡ scope = cc in
    let session = or_refuse-ok (find_session a.session_id w) _ at in
    let assessment = or_refuse-ok (find_assessment s.assessment_id w) _ its in
    rw (← same, ← pair) (session, assessment)

-- What is accepted is in progress, in a running session or granted outside it, and not overdue.
pub assert_active-ok :
    (a : Attempt) (s : Session) (now : ℕ)
    → assert_active a s now ≡ ok tt
    → (a.status ≡ AttemptStatus.in_progress)
      × (effective_session_status a s ≡ SessionStatus.running)
      × (is_attempt_overdue (clock_for a s) now ≡ false)
unfolding assert_active
assert_active-ok a s now h =
    elim (Option-cases
      (attempt_activity_problem a.status (effective_session_status a s) (clock_for a s) now)) [
        | inl accepted ↦
            (activity_accepted_iff a.status (effective_session_status a s) (clock_for a s) now).0
              accepted
        | inr (p, e) ↦ absurd (let broken = rw (e, assert_active) at h in cc)
      ]

pub submit_checks-ok :
    (actor : Actor) (i : ℕ) (input : CodeInput) (now : ℕ) (w : World) {scope : AttemptScope}
    → submit_checks actor i input now w ≡ ok scope
    → (find_attempt i w ≡ some scope.attempt)
      × (assert_active scope.attempt scope.session now ≡ ok tt)
unfolding submit_checks
submit_checks-ok actor i input now w {scope} h =
    let (sc, e, rest) = bind-ok (scope_for_own_attempt i actor.id w) h in
    let (l, _, rest') =
      bind-ok (assert_language_allowed sc.assessment.allowed_languages input.language) rest in
    let (u, active, last) = bind-ok (assert_active sc.attempt sc.session now) rest' in
    let same : sc ≡ scope = cc in rw (← same) (scope_for_own_attempt-finds i actor.id w e, active)

-- A row that is found is found again by its own id.
pub found_again :
    (i : ℕ) (rows : List Attempt) {a : Attempt}
    → find_first (has_id i) rows ≡ some a
    → find_first (has_id a.id) rows ≡ some a
found_again i rows {a} found =
    let same : a.id ≡ i = ground (arith, find_first-passes (has_id i) rows found) in
    subst (λ k. find_first (has_id k) rows ≡ some a) (sym same) found

pub submit_attempt-Valid :
    (enqueue : ExecutionJob → Bool) (actor : Actor) (i : ℕ) (input : CodeInput) (now : ℕ)
    (w : World)
    → Valid w
    → Valid (submit_attempt enqueue actor i input now w).1
unfolding submit_attempt
submit_attempt-Valid enqueue actor i input now w v =
    elim (Result-cases (submit_checks actor i input now w)) [
      | inl (e, refused) ↦ rw (refused, submit_attempt) v
      | inr (scope, accepted) ↦
          let (found, active) = submit_checks-ok actor i input now w accepted in
          let (status, _, _) = assert_active-ok scope.attempt scope.session now active in
          rw (accepted, submit_attempt)
            (dispatch-Valid enqueue w.next_id now _ (
              hand_in-Valid scope.attempt scope.assessment.id input false
                EventType.attempt_submitted now w (found_again i w.attempts found) (rw status refl)
                v))
    ]

pub save_draft-Valid :
    (actor : Actor) (i : ℕ) (input : CodeInput) (now : ℕ) (w : World)
    → Valid w
    → Valid (save_draft actor i input now w).1
unfolding save_draft
save_draft-Valid actor i input now w v = elim (Result-cases (draft_checks actor i input now w)) [
  | inl (e, refused) ↦ rw (refused, save_draft) v
  | inr (u, accepted) ↦ rw (accepted, save_draft) v
]

expire_attempt-Valid :
    (a : Attempt) (now : ℕ) (w : World)
    → find_first (has_id a.id) w.attempts ≡ some a
    → is_unsubmitted a.status ≡ true
    → Valid w
    → Valid (expire_attempt a now w)
unfolding expire_attempt
expire_attempt-Valid a now w found open_yet v =
    with_status-IsValid a.id AttemptStatus.expired
      (λ _. (find_first-All _ (has_id a.id) w.attempts found v.rows_sound).2 open_yet) v

submit_draft-Valid :
    (enqueue : ExecutionJob → Bool) (a : Attempt) (s : Session) (d : Draft) (now : ℕ) (w : World)
    → find_first (has_id a.id) w.attempts ≡ some a
    → is_unsubmitted a.status ≡ true
    → Valid w
    → Valid (submit_draft enqueue a s d now w)
unfolding submit_draft
submit_draft-Valid enqueue a s d now w found open_yet v = dispatch-Valid enqueue w.next_id now _ (
    hand_in-Valid a s.assessment_id (code_of d) true EventType.attempt_auto_submitted now w found
      open_yet v)

reschedule-Valid :
    (reason : AutoReason) (a : Attempt) (s : Session) (w : World)
    → Valid w
    → Valid (reschedule reason a s w)
reschedule-Valid AutoReason.session_ended a s w v = v
reschedule-Valid AutoReason.focus_loss a s w v = v
reschedule-Valid AutoReason.deadline a s w v = elim (Bool-cases (is_individual s.execution_mode)) [
  | inl own ↦ elim (Option-cases (attempt_deadline_ms (clock_for a s))) [
    | inl unset ↦ rw (own, unset) v
    | inr (at, set) ↦ rw (own, set) v
  ]
  | inr shared ↦ rw shared v
]

close_found-Valid :
    (enqueue : ExecutionJob → Bool) (reason : AutoReason) (a : Attempt) (now : ℕ) (w : World)
    (session : Option Session)
    → find_first (has_id a.id) w.attempts ≡ some a
    → Valid w
    → Valid (close_found enqueue reason a now w session).1
close_found-Valid enqueue reason a now w none found v = v
close_found-Valid enqueue reason a now w (some s) found v =
    elim (Bool-cases (is_in_progress a.status)) [
      | inr closed ↦ rw closed v
      | inl active ↦ elim (Bool-cases (is_too_early reason a s now)) [
        | inl early ↦ rw (active, early) (reschedule-Valid reason a s w v)
        | inr due ↦ elim (Option-cases (find_first (has_draft a.id) w.drafts)) [
          | inl missing ↦
              rw (active, due, missing)
                (expire_attempt-Valid a now w found (unsubmitted a.status active) v)
          | inr (d, saved) ↦
              rw (active, due, saved)
                (submit_draft-Valid enqueue a s d now w found (unsubmitted a.status active) v)
        ]
      ]
    ]
  where
    unsubmitted :
        (status : AttemptStatus) → is_in_progress status ≡ true → is_unsubmitted status ≡ true
    unsubmitted status active = ground arith

pub auto_submit_attempt-Valid :
    (enqueue : ExecutionJob → Bool) (i : ℕ) (reason : AutoReason) (now : ℕ) (w : World)
    → Valid w
    → Valid (auto_submit_attempt enqueue i reason now w).1
unfolding auto_submit_attempt
auto_submit_attempt-Valid enqueue i reason now w v = elim (Option-cases (find_attempt i w)) [
  | inl missing ↦ rw (missing, auto_submit_attempt) v
  | inr (a, found) ↦
      rw (found, auto_submit_attempt)
        (close_found-Valid enqueue reason a now w (find_session a.session_id w)
          (found_again i w.attempts found) v)
]
