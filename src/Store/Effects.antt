-- ===== src/Store/Effects.antt =====
-- What the services leave behind beside rows: logged events, alarms, jobs and messages.
use ambatucode.Common.{◌==◌, ℕ, Bool, false, Option}
use Prim.Native.String.{String}
use ambatucode.Domain.{SessionStatus, SubmissionStatus}

pub data EventType : Type 0 where
  session_started session_ended attempt_started attempt_submitted : EventType
  attempt_auto_submitted attempt_expired timer_paused timer_resumed attempt_reset : EventType
  connected disconnected reconnected focus_lost focus_regained clipboard_blocked : EventType

pub record Event : Type 0 where
  pub session_id : ℕ
  pub type : EventType
  pub user_id : Option ℕ
  pub attempt_id : Option ℕ
  pub occurred_at : ℕ

-- A `DeadlineJob`.
pub data Deadline : Type 0 where
  attempt_deadline session_deadline : ℕ → Deadline

-- Equality of `deadlineJobId`.
abbrev pub same_deadline : Deadline → Deadline → Bool
same_deadline (attempt_deadline a) (attempt_deadline b) = a == b
same_deadline (session_deadline a) (session_deadline b) = a == b
same_deadline _ _ = false

pub record Alarm : Type 0 where
  pub deadline : Deadline
  pub due_at : ℕ

pub record ExecutionJob : Type 0 where
  pub job_id : ℕ
  pub user_id : ℕ
  pub language : String
  pub source_code : String

pub data Message : Type 0 where
  session_started : ℕ → Option ℕ → Message
  session_state : ℕ → SessionStatus → Option ℕ → Message
  attempt_closed : ℕ → ℕ → Message
  attempt_auto_submitted : ℕ → ℕ → ℕ → Message
  execution_status : ℕ → ℕ → SubmissionStatus → Option ℕ → Message
