-- ===== src/Clock/Budget.antt =====
-- The working time of an Individual attempt, over any sequence of work, pauses and resumes.
use ambatucode.Common.{◌∙◌, or_default, ℕ, ◌+◌, ◌*◌, ◌≤◌, ◌≡◌, refl, true, false, none, some, arith}
use ambatucode.Clock.{
  AttemptClock, attempt_remaining_ms, is_attempt_overdue, pause_attempt_clock, resume_attempt_clock,
}
use ambatucode.Clock.Pause.{IsIndividual, with_pause, with_resume}

-- A clock, the moment, and how long the Coder has worked so far.
pub record Sitting : Type 0 where
  pub clock : AttemptClock
  pub now : ℕ
  pub worked : ℕ

-- `pause` and `resume` are guarded as `pauseIfIndividual` and `resumeIfPaused` guard them.
pub data Step (r s : Sitting) : Type 0 where
  work :
      (d t : ℕ)
      → r.clock.paused_at_ms ≡ none
      → r.clock.individual_deadline_at_ms ≡ some d
      → r.now + t ≤ d
      → s ≡ record r { now = r.now + t; worked = r.worked + t }
      → Step r s
  overrun :
      (t : ℕ)
      → is_attempt_overdue r.clock r.now ≡ true
      → s ≡ record r { now = r.now + t }
      → Step r s
  away : (p t : ℕ) → r.clock.paused_at_ms ≡ some p → s ≡ record r { now = r.now + t } → Step r s
  pause :
      r.clock.paused_at_ms ≡ none
      → is_attempt_overdue r.clock r.now ≡ false
      → s ≡ record r { clock = with_pause r.clock (pause_attempt_clock r.clock r.now) }
      → Step r s
  resume :
      (p : ℕ)
      → r.clock.paused_at_ms ≡ some p
      → s ≡ record r { clock = with_resume r.clock (resume_attempt_clock r.clock r.now) }
      → Step r s

pub data Reach (r : Sitting) : Sitting → Type 0 where
  here : Reach r r
  next : {s t : Sitting} → Reach r s → Step s t → Reach r t

-- What the clock holds between two steps: an Individual session of `m` minutes, a deadline, no more
-- than the duration consumed, and no more than the duration left.
pub record IsSound (m : ℕ) (r : Sitting) : Type 0 where
  pub mode : IsIndividual r.clock m
  pub deadline : ℕ
  pub has_deadline : r.clock.individual_deadline_at_ms ≡ some deadline
  pub consumed_within : r.clock.consumed_ms ≤ m * 60000
  pub left_within : r.clock.paused_at_ms ≡ none → deadline ≤ r.now + m * 60000

abbrev pub left : Sitting → ℕ
left r = or_default (attempt_remaining_ms r.clock r.now) 0

Step-IsSound : (m : ℕ) (r s : Sitting) → Step r s → IsSound m r → IsSound m s
unfolding with_pause with_resume pause_attempt_clock resume_attempt_clock is_attempt_overdue
Step-IsSound m r s (Step.work d t p q w e) h = rw e (record {
  mode = h.mode;
  deadline = h.deadline;
  has_deadline = h.has_deadline;
  consumed_within = h.consumed_within;
  left_within = ground arith;
})
Step-IsSound m r s (Step.overrun t o e) h = rw e (record {
  mode = h.mode;
  deadline = h.deadline;
  has_deadline = h.has_deadline;
  consumed_within = h.consumed_within;
  left_within = ground arith;
})
Step-IsSound m r s (Step.away p t q e) h = rw e (record {
  mode = h.mode;
  deadline = h.deadline;
  has_deadline = h.has_deadline;
  consumed_within = h.consumed_within;
  left_within = ground arith;
})
Step-IsSound m r s (Step.pause p o e) h = rw e (record {
  mode = ground arith;
  deadline = h.deadline;
  has_deadline = h.has_deadline;
  consumed_within = ground arith;
  left_within = ground arith;
})
Step-IsSound m r s (Step.resume p q e) h = rw e (record {
  mode = ground arith;
  deadline = resume_attempt_clock r.clock r.now;
  has_deadline = refl;
  consumed_within = h.consumed_within;
  left_within = ground arith;
})

-- One step keeps the sum of the time worked and the time left.
Step-conserves :
    (m : ℕ) (r s : Sitting) → Step r s → IsSound m r → s.worked + left s ≡ r.worked + left r
unfolding with_pause with_resume pause_attempt_clock resume_attempt_clock is_attempt_overdue
    attempt_remaining_ms
Step-conserves m r s (Step.work d t p q w e) h = ground arith
Step-conserves m r s (Step.overrun t o e) h = ground arith
Step-conserves m r s (Step.away p t q e) h = ground arith
Step-conserves m r s (Step.pause p o e) h = ground arith
Step-conserves m r s (Step.resume p q e) h = ground arith

Reach-IsSound : (m : ℕ) {r s : Sitting} → Reach r s → IsSound m r → IsSound m s
Reach-IsSound m here h = h
Reach-IsSound m (next {s = u} {t = v} reached taken) h =
    Step-IsSound m u v taken (Reach-IsSound m reached h)

-- From a sound Individual clock, over any sequence of work, overrun, absence, pauses and resumes,
-- the time worked and the time left add up to what they added up to at first.
pub reach_conserves :
    (m : ℕ) {r s : Sitting} → Reach r s → IsSound m r → s.worked + left s ≡ r.worked + left r
reach_conserves m here h = refl
reach_conserves m (next {s = u} {t = v} reached taken) h =
    Step-conserves m u v taken (Reach-IsSound m reached h) ∙ reach_conserves m reached h
