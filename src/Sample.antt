-- ===== src/Sample.antt =====
-- One small world: a Coder with an attempt in progress at a running session, as the tests use it.
use ambatucode.Common.{refl, Bool, true, false, none, some, List, [], ◌∷◌, arith}
use ambatucode.Domain.{
  UserRole, ModuleVisibility, EnrollmentStatus, TimeMode, ExecutionMode, GradingStrategy,
  SessionStatus, SessionAccess, ReadyState, ConnectionState, AttemptStatus,
}
use ambatucode.Store.{Assessment, World, Session, Attempt}
use ambatucode.Access.{Actor}
use ambatucode.Attempts.Activity.{CodeInput}
use ambatucode.Attempts.Invariant.{Valid}

abbrev pub coder : Actor
coder = record { id = 1; role = UserRole.coder }

abbrev pub owner : Actor
owner = record { id = 2; role = UserRole.architect }

abbrev pub code : CodeInput
code = record { language = "python"; source_code = "print(1)" }

abbrev pub sample_session : SessionStatus → Session
sample_session status = record {
  id = 5;
  assessment_id = 4;
  execution_mode = some ExecutionMode.individual;
  duration_minutes = some 30;
  status = status;
  access = SessionAccess.listed;
  is_open_access = false;
  started_at = some 0;
  ends_at = none;
  closes_at = none;
  require_all_ready = true;
  started_by = some 2;
  started_with_missing = false;
}

abbrev pub sample_attempt : Bool → Attempt
sample_attempt granted = record {
  id = 6;
  session_id = 5;
  user_id = 1;
  attempt_number = 1;
  status = AttemptStatus.in_progress;
  started_at = some 1000;
  individual_deadline_at = some 1801000;
  consumed_ms = 0;
  paused_at = none;
  run_count = 0;
  last_run = none;
  is_official = true;
  granted_outside_session = granted;
  reset_by = none;
  reset_at = none;
}

abbrev pub sample_assessment : Assessment
sample_assessment = record {
  id = 4;
  module_id = 3;
  is_published = true;
  is_open_access = false;
  time_mode = TimeMode.timed;
  execution_mode = some ExecutionMode.individual;
  duration_minutes = some 30;
  allowed_languages = "python" ∷ [];
  grading_strategy = GradingStrategy.weighted_average;
  case_count = 2;
  script_count = 0;
}

abbrev pub sample_world : SessionStatus → List Attempt → World
sample_world status attempts = record {
  users = record { id = 1; role = UserRole.coder; is_active = true } ∷ [];
  modules =
      record { id = 3; owner_id = 2; visibility = ModuleVisibility.closed; is_published = true }
      ∷ [];
  enrollments =
      record {
        id = 7;
        module_id = 3;
        user_id = 1;
        status = EnrollmentStatus.approved;
        decided_at = none;
        decided_by = none;
      }
      ∷ [];
  assessments = sample_assessment ∷ [];
  sessions = sample_session status ∷ [];
  participants =
      record {
        session_id = 5;
        user_id = 1;
        is_listed = true;
        ready_state = ReadyState.ready;
        connection_state = ConnectionState.online;
        active_connection = none;
        last_seen_at = none;
      }
      ∷ [];
  attempts = attempts;
  drafts =
      record { attempt_id = 6; language = "python"; source_code = "print(0)"; saved_at = 2000 }
      ∷ [];
  submissions = [];
  events = [];
  alarms = [];
  jobs = [];
  outbox = [];
  next_id = 10;
}

abbrev pub busy : World
busy = sample_world SessionStatus.running (sample_attempt false ∷ [])

pub busy-Valid : Valid busy
busy-Valid = record {
  unique_ids = λ i. ground arith;
  unique_numbers = λ s u k. ground arith;
  one_official = λ s u. ground arith;
  rows_sound = ((omega arith, refl, λ _. refl), tt);
  one_submission = λ i. omega arith;
  subs_old = tt;
}
