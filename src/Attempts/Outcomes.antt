-- ===== src/Attempts/Outcomes.antt =====
-- Who closes an attempt, and that nobody closes it twice.
use ambatucode.Attempts.Refusals.{
  has_closed, auto_submit-Settled, submit-Settled, submit-settles, auto_submit-settles,
}
use ambatucode.Common.Counting.{All-imp}
use ambatucode.Common.{
  All, Option-cases, inl, inr, find_first, ℕ, ◌≡◌, refl, ◌↔◌, Bool, true, false, none, some, arith,
  Error, ok, err,
}
use ambatucode.Domain.{AttemptStatus, SessionStatus, is_in_progress, is_running}
use ambatucode.Clock.{is_attempt_overdue, attempt_activity_problem}
use ambatucode.Clock.Laws.{activity_accepted_iff}
use ambatucode.Store.{has_id, World, Attempt, Session, ExecutionJob, find_attempt, find_session}
use ambatucode.Access.{Actor}
use ambatucode.Attempts.Activity.{
  CodeInput, assert_active, clock_for, effective_session_status, has_draft,
}
use ambatucode.Attempts.Submit.{submit_attempt}
use ambatucode.Attempts.Close.{is_too_early, AutoReason, not_active, auto_submit_attempt}
use ambatucode.Attempts.History.{Reach}
use ambatucode.Attempts.Invariant.{Valid}
use ambatucode.Attempts.Final.{reach-Settled}
use ambatucode.Attempts.Requests.{assert_active-ok}

-- In a valid world, once a Submit of an attempt has been accepted, then, whatever requests on
-- attempts follow, no automatic close finds the attempt active and every further Submit of it is
-- refused, and neither changes anything.
pub submitted_for_good :
    (enqueue : ExecutionJob → Bool) (actor other : Actor) (i n : ℕ) (input again : CodeInput)
    (reason : AutoReason) (now moment : ℕ) (w u : World)
    → Valid w
    → (submit_attempt enqueue actor i input now w).0 ≡ ok n
    → Reach enqueue (submit_attempt enqueue actor i input now w).1 u
    → (auto_submit_attempt enqueue i reason moment u ≡ (not_active, u))
      × ((e : Error) × (submit_attempt enqueue other i again moment u ≡ (err e, u)))
submitted_for_good enqueue actor other i n input again reason now moment w u v accepted path =
    let settled = reach-Settled i path (submit-settles enqueue actor i n input now w v accepted) in
    (
      auto_submit-Settled enqueue i reason moment u settled,
      submit-Settled enqueue other i again moment u settled,
    )

-- In a valid world, once an alarm, the end of the session or a loss of focus has closed an attempt,
-- then, whatever requests on attempts follow, no automatic close finds it active and every Submit
-- of it is refused, and neither changes anything.
pub closed_for_good :
    (enqueue : ExecutionJob → Bool) (other : Actor) (i : ℕ) (input : CodeInput)
    (first reason : AutoReason) (now moment : ℕ) (w u : World)
    → Valid w
    → has_closed (auto_submit_attempt enqueue i first now w).0 ≡ true
    → Reach enqueue (auto_submit_attempt enqueue i first now w).1 u
    → (auto_submit_attempt enqueue i reason moment u ≡ (not_active, u))
      × ((e : Error) × (submit_attempt enqueue other i input moment u ≡ (err e, u)))
closed_for_good enqueue other i input first reason now moment w u v closed path =
    let settled = reach-Settled i path (auto_submit-settles enqueue i first now w v closed) in
    (
      auto_submit-Settled enqueue i reason moment u settled,
      submit-Settled enqueue other i input moment u settled,
    )

assert_active-of :
    (a : Attempt) (s : Session) (now : ℕ)
    → a.status ≡ AttemptStatus.in_progress
    → effective_session_status a s ≡ SessionStatus.running
    → is_attempt_overdue (clock_for a s) now ≡ false
    → assert_active a s now ≡ ok tt
unfolding assert_active
assert_active-of a s now status running time =
    let accepted : attempt_activity_problem a.status (effective_session_status a s) (clock_for a s)
          now
        ≡ none =
      (activity_accepted_iff a.status (effective_session_status a s) (clock_for a s) now).1
        (status, running, time) in
    rw (accepted, assert_active) refl

-- For an attempt in progress whose session is running, or that was granted outside it, the Coder's
-- work is accepted exactly while a deadline alarm would find the attempt not yet due.
pub accepted_iff_not_due :
    (a : Attempt) (s : Session) (now : ℕ)
    → a.status ≡ AttemptStatus.in_progress
    → effective_session_status a s ≡ SessionStatus.running
    → (assert_active a s now ≡ ok tt) ↔ (is_too_early AutoReason.deadline a s now ≡ true)
unfolding assert_active
accepted_iff_not_due a s now status running = (
  λ accepted. let (_, _, time) = assert_active-ok a s now accepted in ground (arith, time),
  λ early. assert_active-of a s now status running (ground (arith, early)),
)

-- An attempt in progress whose session is not running is closed for its end.
ends_stranded :
    (enqueue : ExecutionJob → Bool) (i now : ℕ) (w : World) {a : Attempt} {s : Session}
    → find_attempt i w ≡ some a
    → find_session a.session_id w ≡ some s
    → a.status ≡ AttemptStatus.in_progress
    → is_running s.status ≡ false
    → has_closed (auto_submit_attempt enqueue i AutoReason.session_ended now w).0 ≡ true
unfolding auto_submit_attempt
ends_stranded enqueue i now w {a} found session status ended =
    let active : is_in_progress a.status ≡ true = rw status refl in
    rw (found, auto_submit_attempt, session, active, ended)
      (elim (Option-cases (find_first (has_draft a.id) w.drafts)) [
        | inl missing ↦ rw missing refl
        | inr (d, saved) ↦ rw saved refl
      ])

-- In a valid world, a retake that was granted outside its session, is in progress and not overdue,
-- and whose session is not running, is an attempt on which the Coder's work is accepted; an
-- automatic close for the end of the session closes it at that very moment all the same: no row of
-- it is in progress afterwards, and whatever requests on attempts follow, every Submit of it is
-- refused and changes nothing.
pub retake_closed_while_accepted :
    (enqueue : ExecutionJob → Bool) (other : Actor) (i now moment : ℕ) (input : CodeInput)
    (w u : World) {a : Attempt} {s : Session}
    → Valid w
    → find_attempt i w ≡ some a
    → find_session a.session_id w ≡ some s
    → a.status ≡ AttemptStatus.in_progress
    → a.granted_outside_session ≡ true
    → is_running s.status ≡ false
    → is_attempt_overdue (clock_for a s) now ≡ false
    → Reach enqueue (auto_submit_attempt enqueue i AutoReason.session_ended now w).1 u
    → (assert_active a s now ≡ ok tt)
      × All
          (λ b. has_id i b ≡ true → is_in_progress b.status ≡ false)
          (auto_submit_attempt enqueue i AutoReason.session_ended now w).1.attempts
      × ((e : Error) × (submit_attempt enqueue other i input moment u ≡ (err e, u)))
unfolding assert_active
retake_closed_while_accepted enqueue other i now moment input w u {a} {s} v found session status
      granted ended time path =
    let closed = ends_stranded enqueue i now w found session status ended in
    let settled = auto_submit-settles enqueue i AutoReason.session_ended now w v closed in
    (
      assert_active-of a s now status (ground (arith, granted)) time,
      All-imp _ (λ b final same. ground (arith, final same)) settled.1,
      submit-Settled enqueue other i input moment u (reach-Settled i path settled),
    )
