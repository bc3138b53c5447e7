-- ===== src/Attempts/Regrade.antt =====
-- The Architect's operations on an attempt keep the invariant.
use ambatucode.Common.{
  ◌==◌, Option-cases, any, find_first, count_where, update_where, ℕ, ◌≡◌, refl, inl, inr, Bool,
  true, false, not, ◌&&◌, some, List, ◌∷◌, arith, Error, ok, refuse_if, or_refuse, Result-cases,
  bind-ok, or_refuse-ok,
}
use ambatucode.Common.Counting.{
  count-update_every, any-update, find_first-All, find_last-none, find_last-max, count-eq_zero,
  All-imp, All-of,
}
use ambatucode.Clock.{is_live}
use ambatucode.Domain.{is_running}
use ambatucode.Store.{World, Attempt, Session, Submission, has_id, find_attempt, is_sibling}
use ambatucode.Official.{set_official_attempt, clear_official_attempts, with_official}
use ambatucode.Official.Laws.{
  set-OneOfficial, lower-OneOfficial, lower-OneOfficial, clear-OneOfficial,
}
use ambatucode.Access.{
  Actor, AttemptScope, scope_for_session, scope_for_attempt, assert_not_root, require_module_owner,
}
use ambatucode.Attempts.Start.{latest_attempt, is_numbered}
use ambatucode.Attempts.Grades.{
  reset_checks, reset_attempt, reset_commit, retake, with_reset, is_reset, next_number,
  official_checks, choose_official, set_attempt_official,
}
use ambatucode.Attempts.Invariant.{IsValid, rewrite-IsValid, Valid, IsSoundRow, found-Belongs}
use ambatucode.Attempts.Transitions.{insert-IsValid, with_official-IsValid}
use ambatucode.Attempts.Requests.{found_again}

pub scope_for_attempt-finds :
    (i : ℕ) (w : World) {scope : AttemptScope}
    → scope_for_attempt i w ≡ ok scope
    → find_attempt i w ≡ some scope.attempt
unfolding scope_for_attempt
scope_for_attempt-finds i w {scope} h =
    let (a, e, rest) = bind-ok (or_refuse (find_attempt i w) Error.not_found) h in
    let (p, _, rest') = bind-ok (scope_for_session a.session_id w) rest in
    let found = or_refuse-ok (find_attempt i w) _ e in
    let same : record { attempt = a; session = p.0; assessment = p.1 } ≡ scope = cc in
    rw (← same) found

with_reset-IsValid :
    (i by now : ℕ) {rows : List Attempt} {subs : List Submission} {n : ℕ}
    → IsValid rows subs n
    → IsValid (update_where (has_id i) (with_reset by now) rows) subs n
with_reset-IsValid i by now {rows} v =
    rewrite-IsValid (has_id i) (with_reset by now)
      (record {
        same_id = λ a. refl;
        same_session = λ a. refl;
        same_user = λ a. refl;
        same_number = λ a. refl;
      })
      (All-of rows (λ a e h. absurd (cc)))
      (lower-OneOfficial (has_id i) (with_reset by now) rows (λ s u a h. ground arith)
        v.one_official)
      v

clear-IsValid :
    (s u : ℕ) {rows : List Attempt} {subs : List Submission} {n : ℕ}
    → IsValid rows subs n
    → IsValid (clear_official_attempts s u rows) subs n
unfolding clear_official_attempts
clear-IsValid s u {rows} v =
    with_official-IsValid (is_sibling s u) false (clear-OneOfficial s u rows v.one_official) v

-- No attempt of the Coder at the session has the number of the retake.
pub next_number-fresh :
    (a : Attempt) (rows : List Attempt)
    → count_where (is_numbered a.session_id a.user_id (next_number a rows)) rows ≡ 0
next_number-fresh a rows = elim (Option-cases (latest_attempt a.session_id a.user_id rows)) [
  | inl none_yet ↦ count-eq_zero _ rows (
      All-imp rows (λ b other. rw other refl)
        (find_last-none _ (is_sibling a.session_id a.user_id) rows none_yet))
  | inr (b, latest) ↦
      rw (latest, next_number)
        (count-eq_zero _ rows (
          All-imp rows (λ c le. ground (arith, le))
            (find_last-max (λ c. c.attempt_number) (is_sibling a.session_id a.user_id) rows
              latest)))
]

reset_commit-Valid :
    (by : ℕ) (a : Attempt) (s : Session) (now : ℕ) (w : World)
    → find_first (has_id a.id) w.attempts ≡ some a
    → Valid w
    → Valid (reset_commit by a s now w)
unfolding reset_commit retake clear_official_attempts
reset_commit-Valid by a s now w found v =
    insert-IsValid (retake w.next_id a (not (is_running s.status)) w.attempts) refl
      (rw
        (
          count-update_every numbered (is_sibling a.session_id a.user_id) (with_official false)
              reset (λ b. refl),
          count-update_every numbered (has_id a.id) (with_reset by now) w.attempts (λ b. refl),
        )
        (next_number-fresh a w.attempts))
      (any-cons first granted (clear_official_attempts a.session_id a.user_id reset) (
        rw
          (
            any-update first (is_sibling a.session_id a.user_id) (with_official false) reset
                (λ b. refl),
            any-update first (has_id a.id) (with_reset by now) w.attempts (λ b. refl),
          )
          sound.1))
      (λ s u. ground (arith, kept.one_official s u)) kept
  where
    granted : Attempt
    granted = retake w.next_id a (not (is_running s.status)) w.attempts

    reset : List Attempt
    reset = update_where (has_id a.id) (with_reset by now) w.attempts

    numbered : Attempt → Bool
    numbered = is_numbered a.session_id a.user_id (next_number a w.attempts)

    first : Attempt → Bool
    first = is_numbered a.session_id a.user_id 1

    sound : IsSoundRow w.attempts w.submissions w.next_id a
    sound = find_first-All _ (has_id a.id) w.attempts found v.rows_sound

    kept :
        IsValid
          (clear_official_attempts a.session_id a.user_id
            (update_where (has_id a.id) (with_reset by now) w.attempts))
          w.submissions
          w.next_id
    kept = clear-IsValid a.session_id a.user_id (with_reset-IsValid a.id by now v)

    any-cons :
        (p : Attempt → Bool) (b : Attempt) (rows : List Attempt)
        → any p rows ≡ true
        → any p (b ∷ rows) ≡ true
    any-cons p b rows h = ground arith

reset_checks-finds :
    (actor : Actor) (i : ℕ) (w : World) {scope : AttemptScope}
    → reset_checks actor i w ≡ ok scope
    → find_attempt i w ≡ some scope.attempt
unfolding reset_checks
reset_checks-finds actor i w {scope} h =
    let (_, _, h1) = bind-ok (assert_not_root actor) h in
    let (sc, e, h2) = bind-ok (scope_for_attempt i w) h1 in
    let (_, _, h3) = bind-ok (require_module_owner actor sc.assessment.module_id w) h2 in
    let (_, _, h4) = bind-ok (refuse_if (is_reset sc.attempt.status) Error.conflict) h3 in
    let (_, _, h5) =
      bind-ok
        (refuse_if (not (is_running sc.session.status) && is_live sc.session.execution_mode)
          Error.conflict)
        h4 in
    let same : sc ≡ scope = cc in rw (← same) (scope_for_attempt-finds i w e)

pub reset_attempt-Valid :
    (actor : Actor) (i now : ℕ) (w : World) → Valid w → Valid (reset_attempt actor i now w).1
unfolding reset_attempt
reset_attempt-Valid actor i now w v = elim (Result-cases (reset_checks actor i w)) [
  | inl (e, refused) ↦ rw (refused, reset_attempt) v
  | inr (scope, accepted) ↦
      rw (accepted, reset_attempt)
        (reset_commit-Valid actor.id scope.attempt scope.session now w
          (found_again i w.attempts (reset_checks-finds actor i w accepted)) v)
]

choose-IsValid :
    (a : Attempt) (chosen : Bool) {rows : List Attempt} {subs : List Submission} {n : ℕ}
    → find_first (has_id a.id) rows ≡ some a
    → IsValid rows subs n
    → IsValid (choose_official a chosen rows) subs n
unfolding choose_official set_official_attempt
choose-IsValid a true {rows} found v =
    with_official-IsValid (has_id a.id) true
      (set-OneOfficial a.session_id a.user_id a.id rows (found-Belongs a.id rows v.unique_ids found)
        v.unique_ids v.one_official)
      (with_official-IsValid others false
        (lower-OneOfficial others (with_official false) rows (λ s u b h. ground arith)
          v.one_official)
        v)
  where
    others : Attempt → Bool
    others b = is_sibling a.session_id a.user_id b && not (b.id == a.id)
choose-IsValid a false {rows} found v =
    with_official-IsValid (has_id a.id) false
      (lower-OneOfficial (has_id a.id) (with_official false) rows (λ s u b h. ground arith)
        v.one_official)
      v

official_checks-finds :
    (actor : Actor) (i : ℕ) (w : World) {scope : AttemptScope}
    → official_checks actor i w ≡ ok scope
    → find_attempt i w ≡ some scope.attempt
official_checks-finds actor i w {scope} h =
    let (_, _, h1) = bind-ok (assert_not_root actor) h in
    let (sc, e, h2) = bind-ok (scope_for_attempt i w) h1 in
    let (_, _, h3) = bind-ok (require_module_owner actor sc.assessment.module_id w) h2 in
    let same : sc ≡ scope = cc in rw (← same) (scope_for_attempt-finds i w e)

pub set_attempt_official-Valid :
    (actor : Actor) (i : ℕ) (chosen : Bool) (w : World)
    → Valid w
    → Valid (set_attempt_official actor i chosen w).1
unfolding set_attempt_official
set_attempt_official-Valid actor i chosen w v = elim (Result-cases (official_checks actor i w)) [
  | inl (e, refused) ↦ rw (refused, set_attempt_official) v
  | inr (scope, accepted) ↦
      rw (accepted, set_attempt_official)
        (choose-IsValid scope.attempt chosen
          (found_again i w.attempts (official_checks-finds actor i w accepted)) v)
]
