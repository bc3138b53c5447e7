-- ===== src/Store/Rows.antt =====
-- The rows of the tables, with the columns that the services modelled here read or write.
use ambatucode.Common.{ℕ, Bool, Option, List}
use Prim.Native.String.{String}
use ambatucode.Domain.{
  UserRole, ModuleVisibility, EnrollmentStatus, TimeMode, ExecutionMode, GradingStrategy,
  SessionStatus, SessionAccess, ReadyState, ConnectionState, AttemptStatus, SubmissionStatus,
}

pub record User : Type 0 where
  pub id : ℕ
  pub role : UserRole
  pub is_active : Bool

pub record Module : Type 0 where
  pub id : ℕ
  pub owner_id : ℕ
  pub visibility : ModuleVisibility
  pub is_published : Bool

pub record Enrollment : Type 0 where
  pub id : ℕ
  pub module_id : ℕ
  pub user_id : ℕ
  pub status : EnrollmentStatus
  pub decided_at : Option ℕ
  pub decided_by : Option ℕ

-- An Assessment with its Module's id, which the services read through its Section.
pub record Assessment : Type 0 where
  pub id : ℕ
  pub module_id : ℕ
  pub is_published : Bool
  pub is_open_access : Bool
  pub time_mode : TimeMode
  pub execution_mode : Option ExecutionMode
  pub duration_minutes : Option ℕ
  pub allowed_languages : List String
  pub grading_strategy : GradingStrategy
  pub case_count : ℕ
  pub script_count : ℕ

pub record Session : Type 0 where
  pub id : ℕ
  pub assessment_id : ℕ
  pub execution_mode : Option ExecutionMode
  pub duration_minutes : Option ℕ
  pub status : SessionStatus
  pub access : SessionAccess
  pub is_open_access : Bool
  pub started_at : Option ℕ
  pub ends_at : Option ℕ
  pub closes_at : Option ℕ
  pub require_all_ready : Bool
  pub started_by : Option ℕ
  pub started_with_missing : Bool

pub record Participant : Type 0 where
  pub session_id : ℕ
  pub user_id : ℕ
  pub is_listed : Bool
  pub ready_state : ReadyState
  pub connection_state : ConnectionState
  pub active_connection : Option ℕ
  pub last_seen_at : Option ℕ

-- `lastRunLanguage`, `lastRunSourceCode` and `lastRunAt`, which are written together.
pub record LastRun : Type 0 where
  pub language : String
  pub source_code : String
  pub at : ℕ

pub record Attempt : Type 0 where
  pub id : ℕ
  pub session_id : ℕ
  pub user_id : ℕ
  pub attempt_number : ℕ
  pub status : AttemptStatus
  pub started_at : Option ℕ
  pub individual_deadline_at : Option ℕ
  pub consumed_ms : ℕ
  pub paused_at : Option ℕ
  pub run_count : ℕ
  pub last_run : Option LastRun
  pub is_official : Bool
  pub granted_outside_session : Bool
  pub reset_by : Option ℕ
  pub reset_at : Option ℕ

pub record Draft : Type 0 where
  pub attempt_id : ℕ
  pub language : String
  pub source_code : String
  pub saved_at : ℕ

pub record Submission : Type 0 where
  pub id : ℕ
  pub attempt_id : ℕ
  pub user_id : ℕ
  pub assessment_id : ℕ
  pub session_id : ℕ
  pub language : String
  pub source_code : String
  pub status : SubmissionStatus
  pub score : Option ℕ
  pub is_auto_submitted : Bool
  pub submitted_at : ℕ
  pub graded_at : Option ℕ
  pub job_id : Option ℕ
