-- ===== src/Attempts/RunLaws.antt =====
-- What a Run leaves behind, and the time that its job is given.
use ambatucode.Common.{
  if◌then◌else◌, Bool-cases, sum, length, ℕ, ◌+◌, ◌*◌, ◌≤◌, ◌≡◌, refl, ◌↔◌, ◌⊎◌, inl, inr, Bool,
  true, false, not, none, some, List, [], ◌∷◌, arith, Error, ok, err, refuse_if,
}
use mathlib.Core.List.{Memᴰ}
use ambatucode.Common.{bind-ok, refuse_if-ok, Result-cases}
use ambatucode.Common.Counting.{find_first-passes}
use ambatucode.Common.Finding.{find-update_apart, select-Mem, find-update}
use ambatucode.Domain.{AttemptStatus}
use ambatucode.Store.{
  Session, find_session, find_assessment, World, Assessment, Attempt, ExecutionJob, has_id,
  find_attempt,
}
use ambatucode.Access.{Actor, AttemptScope, scope_for_own_attempt}
use ambatucode.Attempts.Activity.{CodeInput, assert_active, assert_language_allowed}
use ambatucode.Attempts.Requests.{
  assert_active-ok, scope_for_own_attempt-finds, scope_for_own_attempt-own,
  scope_for_own_attempt-reads,
}
use ambatucode.Attempts.Running.{
  RunCase, RunJob, RunSetup, LimiterAnswer, run_attempt, run_checks, run_job, limits_for,
  consume_rate_limit, snapshot_run, with_snapshot, case_limits, case_budget,
}

-- What the cases may take one after the other, each its own limit or else the Assessment's.
abbrev pub time_of_cases : ℕ → List RunCase → ℕ
time_of_cases limit [] = 0
time_of_cases limit (c ∷ cases) =
    (elim c.time_limit_ms [ none ↦ limit | some own ↦ own ]) + time_of_cases limit cases

-- The job of a Run: the Coder's own code, the public cases and no others, and time for its compilation
-- (15 s), for each of its cases, and 30 s for the container of each of its scripts.
pub record IsRunJob (setup : RunSetup) (actor : Actor) (job_id : ℕ) (input : CodeInput) (r : RunJob)
    : Type 0 where
  pub job_is : r.job ≡ record {
    job_id = job_id;
    user_id = actor.id;
    language = input.language;
    source_code = input.source_code;
  }
  pub cases_are : (c : RunCase) → Memᴰ c r.cases ↔ (Memᴰ c setup.cases × (c.is_public ≡ true))
  pub time_is :
      15000 + time_of_cases setup.time_limit_ms r.cases + length r.scripts * 30000
      ≤ r.limits.wall_timeout_ms

-- The world after a Run: one job more, and the Run counted and copied on the attempt where that was written.
pub record IsAfterRun (i : ℕ) (input : CodeInput) (written : Bool) (later : ℕ) (job : ExecutionJob)
    (a : Attempt) (before after : World) : Type 0 where
  pub jobs_are : after.jobs ≡ job ∷ before.jobs
  pub rest_is : after ≡ record before { jobs = after.jobs; attempts = after.attempts }
  pub attempt_is :
      find_attempt i after
      ≡ some (
          if written
          then (record a {
            run_count = a.run_count + 1;
            last_run =
                some (record {
                  language = input.language;
                  source_code = input.source_code;
                  at = later;
                });
          })
          else a)
  pub others_are : (k : ℕ) → (k ≡ i → ⊥) → find_attempt k after ≡ find_attempt k before

sum_is_time :
    (limit : ℕ) (cases : List RunCase) → sum (case_limits limit cases) ≡ time_of_cases limit cases
sum_is_time limit [] = refl
sum_is_time limit (c ∷ cases) = ground (arith, sum_is_time limit cases)

budget_covers :
    (limit : ℕ) (cases : List RunCase) → time_of_cases limit cases ≤ case_budget limit cases
budget_covers limit [] = omega arith
budget_covers limit (c ∷ cases) = omega (arith, sum_is_time limit (c ∷ cases))

wall_covers :
    (setup : RunSetup) (cases : List RunCase) (n : ℕ)
    → 15000 + time_of_cases setup.time_limit_ms cases + n * 30000
      ≤ (limits_for setup cases n).wall_timeout_ms
unfolding limits_for
wall_covers setup cases n = ground (arith, budget_covers setup.time_limit_ms cases)

run_job-IsRunJob :
    (setup : RunSetup) (actor : Actor) (job_id : ℕ) (input : CodeInput)
    → IsRunJob setup actor job_id input (run_job setup actor job_id input)
unfolding run_job
run_job-IsRunJob setup actor job_id input = record {
  job_is = refl;
  cases_are = select-Mem (λ c. c.is_public) setup.cases;
  time_is = wall_covers setup _ _;
}

snapshot-IsAfterRun :
    (i : ℕ) (input : CodeInput) (written : Bool) (later : ℕ) (job : ExecutionJob) {a : Attempt}
    (w : World)
    → find_attempt i w ≡ some a
    → IsAfterRun i input written later job a w
        (snapshot_run written i input later (record w { jobs = job ∷ w.jobs }))
snapshot-IsAfterRun i input false later job w found = record {
  jobs_are = refl;
  rest_is = refl;
  attempt_is = found;
  others_are = λ k other. refl;
}
snapshot-IsAfterRun i input true later job {a} w found = record {
  jobs_are = refl;
  rest_is = refl;
  attempt_is =
      rw
        (find-update (has_id i) (has_id i) (with_snapshot input later) w.attempts (λ x. refl) found)
        (let own : has_id i a ≡ true = find_first-passes (has_id i) w.attempts found in
          rw own refl);
  others_are = λ k other.
      find-update_apart (has_id k) (has_id i) (with_snapshot input later) w.attempts (λ x. refl)
        (λ x here. ground (arith, other, here));
}

-- What has passed the checks is the actor's own attempt, in progress, under the rate limit, and the
-- Assessment is that of its session.
checked :
    (actor : Actor) (i : ℕ) (input : CodeInput) (answer : LimiterAnswer) (now : ℕ) (w : World)
    {scope : AttemptScope}
    → run_checks actor i input answer now w ≡ ok scope
    → (find_attempt i w ≡ some scope.attempt)
      × (find_session scope.attempt.session_id w ≡ some scope.session)
      × (find_assessment scope.session.assessment_id w ≡ some scope.assessment)
      × (scope.attempt.user_id ≡ actor.id)
      × (scope.attempt.status ≡ AttemptStatus.in_progress)
      × (answer.count ≤ 30)
unfolding consume_rate_limit
checked actor i input answer now w {scope} h =
    let (sc, e, rest) = bind-ok (scope_for_own_attempt i actor.id w) h in
    let (u, active, rest') = bind-ok (assert_active sc.attempt sc.session now) rest in
    let (l, _, rest'') =
      bind-ok (assert_language_allowed sc.assessment.allowed_languages input.language) rest' in
    let (r, limited, last) =
      bind-ok
        (refuse_if (not (consume_rate_limit 30 60 answer.count answer.ttl).allowed)
          Error.rate_limited)
        rest'' in
    let same : sc ≡ scope = cc in
    let (status, _, _) = assert_active-ok sc.attempt sc.session now active in
    rw (← same) (
      scope_for_own_attempt-finds i actor.id w e,
      (scope_for_own_attempt-reads i actor.id w e).0,
      (scope_for_own_attempt-reads i actor.id w e).1,
      scope_for_own_attempt-own i actor.id w e,
      status,
      ground (arith, refuse_if-ok _ Error.rate_limited limited),
    )

-- A Run is refused, because a check refuses it or the queue does not take its job, and leaves the
-- world as it is; or it is of the actor's own attempt, which is in progress, and at most the 30th
-- that Redis has counted, and then the queue has taken a job with the Coder's code, the public
-- cases of the attempt's Assessment and no others, and a wall clock that covers 15 s for its
-- compilation, each case's own limit and 30 s for each of its scripts; the world has that job more,
-- the attempt counts one Run more and keeps a copy of the code where that write succeeded, and
-- nothing else has changed.
pub run_leaves_no_history :
    (enqueue : RunJob → Bool) (setup_of : Assessment → RunSetup) (written : Bool) (actor : Actor)
    (i job_id : ℕ) (input : CodeInput) (answer : LimiterAnswer) (now later : ℕ) (w : World)
    → let (result, after) =
        run_attempt enqueue setup_of written actor i job_id input answer now later w in
      ((e : Error) × (result ≡ err e)
        × (after ≡ w)
        × ((run_checks actor i input answer now w ≡ err e)
            ⊎ ((r : RunJob) × (enqueue r ≡ false) × (e ≡ Error.internal))))
      ⊎ ((a : Attempt) × (s : Session) × (t : Assessment) × (r : RunJob) × (result ≡ ok job_id)
          × (find_attempt i w ≡ some a)
          × (find_session a.session_id w ≡ some s)
          × (find_assessment s.assessment_id w ≡ some t)
          × (a.user_id ≡ actor.id)
          × (a.status ≡ AttemptStatus.in_progress)
          × (answer.count ≤ 30)
          × (enqueue r ≡ true)
          × IsRunJob (setup_of t) actor job_id input r
          × IsAfterRun i input written later r.job a w after)
unfolding run_attempt
run_leaves_no_history enqueue setup_of written actor i job_id input answer now later w =
    elim (Result-cases (run_checks actor i input answer now w)) [
      | inl (e, refused) ↦
          inl (e, rw (refused, run_attempt) refl, rw (refused, run_attempt) refl, inl refused)
      | inr (scope, accepted) ↦
          let r = run_job (setup_of scope.assessment) actor job_id input in
          let (found, session, its, own, status, counted) =
            checked actor i input answer now w accepted in
          elim (Bool-cases (enqueue r)) [
            | inl taken ↦ inr (
              scope.attempt,
              scope.session,
              scope.assessment,
              r,
              rw (accepted, run_attempt, taken) refl,
              found,
              session,
              its,
              own,
              status,
              counted,
              taken,
              run_job-IsRunJob (setup_of scope.assessment) actor job_id input,
              rw (accepted, run_attempt, taken)
                  (snapshot-IsAfterRun i input written later r.job w found),
            )
            | inr lost ↦ inl (
              Error.internal,
              rw (accepted, run_attempt, lost) refl,
              rw (accepted, run_attempt, lost) refl,
              inr (r, lost, refl),
            )
          ]
    ]
