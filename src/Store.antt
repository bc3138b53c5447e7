-- ===== src/Store.antt =====
-- The rows that the services read and write (packages/db/prisma/schema.prisma), and the world around
-- them: the tables, the alarms of the deadline queue, the execution jobs and the messages sent to
-- apps/realtime. An id is a number, a moment a number of milliseconds, and a table a list of rows.
mod Rows
mod Effects
pub use Rows.*
pub use Effects.*
use ambatucode.Common.{
  ltb, leb, ◌==◌, if◌then◌else◌, is_some, is_none, or_default, ltb→lt, lt→ltb, leb→le, ==_iff,
  ==_refl, Bool-cases, Option-cases, sum, length, get_elem?, take, every, any, select, All,
  length-append, length-select-le, length-map, find_first, count_where, update_where, pick_later,
  find_last, remove_where, ℕ, zero, suc, ◌+◌, ◌-◌, ◌*◌, ◌/◌, ◌%◌, ◌≤◌, ◌<◌, min, max, ◌≡◌, refl,
  sym, ap, subst, ◌∙◌, ◌≢◌, ◌↔◌, ◌⊎◌, inl, inr, Bool, true, false, not, ◌&&◌, ◌||◌, Option, none,
  some, List, [], ◌∷◌, ◌++◌, map, arith, Error, forbidden, not_found, conflict, validation_failed,
  session_not_running, attempt_already_submitted, attempt_expired, language_not_allowed,
  rate_limited, internal, Result, ok, err, ◌>>=◌, ◌>>◌, refuse_if, or_refuse,
}

pub record World : Type 0 where
  pub users : List User
  pub modules : List Module
  pub enrollments : List Enrollment
  pub assessments : List Assessment
  pub sessions : List Session
  pub participants : List Participant
  pub attempts : List Attempt
  pub drafts : List Draft
  pub submissions : List Submission
  pub events : List Event
  pub alarms : List Alarm
  pub jobs : List ExecutionJob
  pub outbox : List Message
  -- The id that the next row gets.
  pub next_id : ℕ

abbrev pub find_user : ℕ → World → Option User
find_user i w = find_first (λ u. u.id == i) w.users

abbrev pub find_module : ℕ → World → Option Module
find_module i w = find_first (λ m. m.id == i) w.modules

abbrev pub find_assessment : ℕ → World → Option Assessment
find_assessment i w = find_first (λ a. a.id == i) w.assessments

abbrev pub find_session : ℕ → World → Option Session
find_session i w = find_first (λ s. s.id == i) w.sessions

abbrev pub has_id : ℕ → Attempt → Bool
has_id i a = a.id == i

abbrev pub find_attempt : ℕ → World → Option Attempt
find_attempt i w = find_first (has_id i) w.attempts

-- Every attempt at one session by one Coder: `siblingsOf`.
abbrev pub is_sibling : ℕ → ℕ → Attempt → Bool
is_sibling s u a = a.session_id == s && a.user_id == u

abbrev pub is_participant : ℕ → ℕ → Participant → Bool
is_participant s u p = p.session_id == s && p.user_id == u

abbrev pub is_enrollment : ℕ → ℕ → Enrollment → Bool
is_enrollment m u e = e.module_id == m && e.user_id == u

-- `scheduleDeadline` replaces an alarm for the same job; `cancelDeadline` removes it.
abbrev pub cancel_deadline : Deadline → World → World
cancel_deadline d w = record w { alarms = remove_where (λ a. same_deadline a.deadline d) w.alarms }

abbrev pub schedule_deadline : Deadline → ℕ → World → World
schedule_deadline d at w = record w {
  alarms =
      record { deadline = d; due_at = at }
      ∷ remove_where (λ a. same_deadline a.deadline d) w.alarms;
}

-- `publishAssessmentBroadcast` and `publishExecutionStatus`: the newest message first.
abbrev pub publish : Message → World → World
publish m w = record w { outbox = m ∷ w.outbox }

-- `recordEvent`, and `announceEvents` after it.
abbrev pub record_event : Event → World → World
record_event e w = record w { events = e ∷ w.events }
