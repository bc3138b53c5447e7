-- ===== src/Domain.antt =====
-- The domain enums of packages/shared/src/enums.ts, and the tests of them that the services make.
use ambatucode.Common.{Bool, true, false}

pub data UserRole : Type 0 where
  root architect coder : UserRole

pub data ModuleVisibility : Type 0 where
  public closed : ModuleVisibility

pub data EnrollmentStatus : Type 0 where
  pending approved rejected : EnrollmentStatus

pub data TimeMode : Type 0 where
  untimed timed : TimeMode

pub data ExecutionMode : Type 0 where
  individual live : ExecutionMode

pub data GradingStrategy : Type 0 where
  all_or_nothing weighted_average : GradingStrategy

pub data SessionStatus : Type 0 where
  draft ready running ended cancelled : SessionStatus

pub data SessionAccess : Type 0 where
  listed module_wide : SessionAccess

pub data ReadyState : Type 0 where
  not_ready ready : ReadyState

pub data ConnectionState : Type 0 where
  offline online : ConnectionState

pub data Presence : Type 0 where
  here elsewhere offline : Presence

pub data AttemptStatus : Type 0 where
  not_started in_progress submitted expired reset : AttemptStatus

pub data SubmissionStatus : Type 0 where
  queued running graded compile_error runtime_error : SubmissionStatus
  time_limit_exceeded memory_limit_exceeded system_error : SubmissionStatus

abbrev pub is_coder : UserRole → Bool
is_coder UserRole.coder = true
is_coder _ = false

abbrev pub is_approved : EnrollmentStatus → Bool
is_approved EnrollmentStatus.approved = true
is_approved _ = false

abbrev pub is_running : SessionStatus → Bool
is_running SessionStatus.running = true
is_running _ = false

-- `EDITABLE_STATUSES.includes(status)`
abbrev pub is_editable : SessionStatus → Bool
is_editable SessionStatus.draft = true
is_editable SessionStatus.ready = true
is_editable _ = false

abbrev pub is_in_progress : AttemptStatus → Bool
is_in_progress AttemptStatus.in_progress = true
is_in_progress _ = false

abbrev pub is_not_started : AttemptStatus → Bool
is_not_started AttemptStatus.not_started = true
is_not_started _ = false

abbrev pub is_graded : SubmissionStatus → Bool
is_graded SubmissionStatus.graded = true
is_graded _ = false

-- `isTerminalSubmissionStatus`
abbrev pub is_terminal : SubmissionStatus → Bool
is_terminal SubmissionStatus.queued = false
is_terminal SubmissionStatus.running = false
is_terminal _ = true
