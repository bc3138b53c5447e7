-- ===== src/Deadlines.antt =====
-- The deadline worker of apps/realtime: fire and sweep of apps/realtime/src/deadlines.ts. The queue is
-- BullMQ, and a call of apps/web that fails is logged and passed over, so `reaches` says which calls
-- arrive. `later` is the clock reading of apps/web, where `now` is that of the worker.
pub mod Sweeping
mod Tests
use ambatucode.Common.{
  ltb, leb, ◌==◌, if◌then◌else◌, is_some, is_none, or_default, ltb→lt, lt→ltb, leb→le, ==_iff,
  ==_refl, Bool-cases, Option-cases, sum, length, get_elem?, take, every, any, select, All,
  length-append, length-select-le, length-map, find_first, count_where, update_where, pick_later,
  find_last, remove_where, ℕ, zero, suc, ◌+◌, ◌-◌, ◌*◌, ◌/◌, ◌%◌, ◌≤◌, ◌<◌, min, max, ◌≡◌, refl,
  sym, ap, subst, ◌∙◌, ◌≢◌, ◌↔◌, ◌⊎◌, inl, inr, Bool, true, false, not, ◌&&◌, ◌||◌, Option, none,
  some, List, [], ◌∷◌, ◌++◌, map, arith, Error, Result, ok, err, ◌>>=◌, ◌>>◌, refuse_if, or_refuse,
}
use ambatucode.Domain.{SessionStatus, is_in_progress, is_running}
use ambatucode.Store.{
  World, Session, Attempt, ExecutionJob, Deadline, attempt_deadline, session_deadline, find_session,
}
use ambatucode.Attempts.Close.{AutoReason, auto_submit_attempt}
use ambatucode.Sessions.Lifecycle.{expire_session}

-- What rings when an alarm goes off.
unfoldable pub fire : (ExecutionJob → Bool) → Deadline → ℕ → World → World
unfolding auto_submit_attempt expire_session
fire enqueue (attempt_deadline i) later w =
    (auto_submit_attempt enqueue i AutoReason.deadline later w).1
fire enqueue (session_deadline i) later w = (expire_session enqueue i later w).1

abbrev is_reached : Option ℕ → ℕ → Bool
is_reached none now = false
is_reached (some at) now = leb at now

-- In progress, running, and past its own deadline.
abbrev pub is_overdue_row : ℕ → Attempt → Bool
is_overdue_row now a =
    is_in_progress a.status && is_none a.paused_at && is_reached a.individual_deadline_at now

abbrev pub is_overdue_session : ℕ → Session → Bool
is_overdue_session now s = is_running s.status && is_reached s.ends_at now

abbrev pub is_over : SessionStatus → Bool
is_over SessionStatus.ended = true
is_over SessionStatus.cancelled = true
is_over _ = false

-- Left open in a session that has ended.
abbrev pub is_stranded : World → Attempt → Bool
is_stranded w a =
    is_in_progress a.status
    && (elim (find_session a.session_id w) [ none ↦ false | some s ↦ is_over s.status ])

-- `SWEEP_BATCH`
abbrev pub sweep_batch : ℕ
sweep_batch = 200

abbrev pub expire_sessions :
    (ExecutionJob → Bool) → (Deadline → Bool) → List Session → ℕ → World → World
expire_sessions enqueue reaches [] later w = w
expire_sessions enqueue reaches (s ∷ ss) later w =
    expire_sessions enqueue reaches ss later
      (if reaches (session_deadline s.id) then (expire_session enqueue s.id later w).1 else w)

abbrev pub close_attempts :
    (ExecutionJob → Bool) → (Deadline → Bool) → AutoReason → List Attempt → ℕ → World → World
close_attempts enqueue reaches reason [] later w = w
close_attempts enqueue reaches reason (a ∷ rest) later w =
    close_attempts enqueue reaches reason rest later (
      if reaches (attempt_deadline a.id)
      then (auto_submit_attempt enqueue a.id reason later w).1
      else w)

-- One sweep runs at a time, which the flag `sweeping` sees to. The three lists are read before anything is closed.
unfoldable pub sweep : (ExecutionJob → Bool) → (Deadline → Bool) → ℕ → ℕ → World → World
unfolding auto_submit_attempt expire_session
sweep enqueue reaches now later w =
    let attempts = take sweep_batch (select (is_overdue_row now) w.attempts) in
    let sessions = take sweep_batch (select (is_overdue_session now) w.sessions) in
    let stranded = take sweep_batch (select (is_stranded w) w.attempts) in
    close_attempts enqueue reaches AutoReason.session_ended stranded later (
      close_attempts enqueue reaches AutoReason.deadline attempts later
        (expire_sessions enqueue reaches sessions later w))
