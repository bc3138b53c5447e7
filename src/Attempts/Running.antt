-- ===== src/Attempts/Running.antt =====
-- Running the editor's code: runAttempt and limitsFor of apps/web/src/server/services/attempts.ts, with
-- consumeRateLimit of apps/web/src/server/auth/rate-limit.ts. What Redis answers to INCR and TTL, the id of
-- the job, and the columns of an Assessment that only a Run reads are parameters. The count and the
-- copy of the code that the attempt keeps are written at the best effort, so whether that write succeeds
-- (`written`) is a parameter too, and it has its own reading of the clock, `later`.
use ambatucode.Common.{
  some, ltb, leb, if◌then◌else◌, or_default, sum, length, select, update_where, ℕ, ◌+◌, ◌-◌, ◌*◌,
  max, Bool, not, Option, List, [], ◌∷◌, map, Error, Result, ok, err, ◌>>=◌, ◌>>◌, refuse_if,
}
use Prim.Native.String.{String}
use text.Mathlib.Text.{◌==◌ as str_eq}
use ambatucode.Store.{World, Attempt, Assessment, ExecutionJob, has_id}
use ambatucode.Access.{Actor, AttemptScope, scope_for_own_attempt}
use ambatucode.Attempts.Activity.{CodeInput, assert_active, assert_language_allowed}

pub record RateLimitResult : Type 0 where
  pub allowed : Bool
  pub remaining : ℕ
  pub retry_after_seconds : ℕ

-- `ttl` is `none` where Redis answers a negative number.
unfoldable pub consume_rate_limit : ℕ → ℕ → ℕ → Option ℕ → RateLimitResult
consume_rate_limit limit window count ttl =
    let left = or_default ttl 0 in
    record {
      allowed = leb count limit;
      remaining = limit - count;
      retry_after_seconds = if ltb 0 left then left else window;
    }

pub record RunCase : Type 0 where
  pub id : ℕ
  pub is_public : Bool
  pub time_limit_ms : Option ℕ

pub record RunScript : Type 0 where
  pub id : ℕ
  pub language : String

pub record RunSetup : Type 0 where
  pub time_limit_ms : ℕ
  pub memory_limit_mb : ℕ
  pub cases : List RunCase
  pub scripts : List RunScript

-- `ExecutionLimits`, without the two limits that are always the default ones.
pub record RunLimits : Type 0 where
  pub compile_timeout_ms : ℕ
  pub run_timeout_ms : ℕ
  pub wall_timeout_ms : ℕ
  pub memory_limit_mb : ℕ

abbrev pub default_compile_ms : ℕ
default_compile_ms = 15000

abbrev pub default_wall_ms : ℕ
default_wall_ms = 30000

abbrev pub case_limits : ℕ → List RunCase → List ℕ
case_limits limit cases = map (λ c. or_default c.time_limit_ms limit) cases

abbrev pub case_budget : ℕ → List RunCase → ℕ
case_budget limit [] = limit
case_budget limit (c ∷ cases) = sum (case_limits limit (c ∷ cases))

unfoldable pub limits_for : RunSetup → List RunCase → ℕ → RunLimits
limits_for setup cases script_count = record {
  compile_timeout_ms = default_compile_ms;
  run_timeout_ms = setup.time_limit_ms;
  wall_timeout_ms =
      max default_wall_ms (
        default_compile_ms
        + case_budget setup.time_limit_ms cases
        + script_count * default_wall_ms);
  memory_limit_mb = setup.memory_limit_mb;
}

pub record RunJob : Type 0 where
  pub job : ExecutionJob
  pub cases : List RunCase
  pub scripts : List RunScript
  pub limits : RunLimits

unfoldable pub run_job : RunSetup → Actor → ℕ → CodeInput → RunJob
unfolding limits_for
run_job setup actor job_id input =
    let cases = select (λ c. c.is_public) setup.cases in
    let scripts = select (λ s. str_eq s.language input.language) setup.scripts in
    record {
      job = record {
        job_id = job_id;
        user_id = actor.id;
        language = input.language;
        source_code = input.source_code;
      };
      cases = cases;
      scripts = scripts;
      limits = limits_for setup cases (length scripts);
    }

-- `RUN_RATE_LIMIT`
abbrev run_max : ℕ
run_max = 30

abbrev run_window : ℕ
run_window = 60

abbrev pub with_snapshot : CodeInput → ℕ → Attempt → Attempt
with_snapshot input later a = record a {
  run_count = a.run_count + 1;
  last_run =
      some (record { language = input.language; source_code = input.source_code; at = later });
}

-- What Redis answers.
pub record LimiterAnswer : Type 0 where
  pub count : ℕ
  pub ttl : Option ℕ

abbrev pub run_checks : Actor → ℕ → CodeInput → LimiterAnswer → ℕ → World → Result AttemptScope
run_checks actor i input answer now w = do
  scope ← scope_for_own_attempt i actor.id w
  assert_active scope.attempt scope.session now
  assert_language_allowed scope.assessment.allowed_languages input.language
  refuse_if (not (consume_rate_limit run_max run_window answer.count answer.ttl).allowed)
      Error.rate_limited
  ok scope

-- A write that fails is logged and passed over.
abbrev pub snapshot_run : Bool → ℕ → CodeInput → ℕ → World → World
snapshot_run written i input later w =
    if written
    then record w { attempts = update_where (has_id i) (with_snapshot input later) w.attempts }
    else w

-- The answer is the job's id. A job that the queue does not take is an error of the server.
unfoldable pub run_attempt :
    (RunJob → Bool)
    → (Assessment → RunSetup)
    → Bool
    → Actor
    → ℕ
    → ℕ
    → CodeInput
    → LimiterAnswer
    → ℕ
    → ℕ
    → World
    → Result ℕ × World
unfolding run_job consume_rate_limit assert_active assert_language_allowed
run_attempt enqueue setup_of written actor i job_id input answer now later w =
    elim (run_checks actor i input answer now w) [
      | err e ↦ (err e, w)
      | ok scope ↦
          let r = run_job (setup_of scope.assessment) actor job_id input in
          if enqueue r
          then (ok job_id, snapshot_run written i input later (record w { jobs = r.job ∷ w.jobs }))
          else (err Error.internal, w)
    ]
