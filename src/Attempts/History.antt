-- ===== src/Attempts/History.antt =====
-- Any sequence of requests on attempts. The two halves of a start are separate, so other requests may
-- write between what a start reads and what it writes.
use ambatucode.Common.{ℕ, Bool}
use ambatucode.Store.{World, ExecutionJob}
use ambatucode.Access.{Actor}
use ambatucode.Attempts.Activity.{CodeInput, save_draft}
use ambatucode.Attempts.Start.{Start, start_commit}
use ambatucode.Attempts.Submit.{submit_attempt}
use ambatucode.Attempts.Close.{AutoReason, auto_submit_attempt}
use ambatucode.Attempts.Grades.{reset_attempt, set_attempt_official}
use ambatucode.Attempts.Invariant.{Valid}
use ambatucode.Attempts.Starting.{start_commit-Valid}
use ambatucode.Attempts.Requests.{submit_attempt-Valid, auto_submit_attempt-Valid, save_draft-Valid}
use ambatucode.Attempts.Regrade.{reset_attempt-Valid, set_attempt_official-Valid}

-- One write, by any actor and at any moment. `start` is any decision that an earlier read led to.
pub data Step (enqueue : ExecutionJob → Bool) : World → World → Type 0 where
  starts :
      (actor : Actor) (i now : ℕ) (start : Start) (w : World)
      → Step enqueue w (start_commit actor i now start w).1
  saves :
      (actor : Actor) (i : ℕ) (input : CodeInput) (now : ℕ) (w : World)
      → Step enqueue w (save_draft actor i input now w).1
  submits :
      (actor : Actor) (i : ℕ) (input : CodeInput) (now : ℕ) (w : World)
      → Step enqueue w (submit_attempt enqueue actor i input now w).1
  closes :
      (i : ℕ) (reason : AutoReason) (now : ℕ) (w : World)
      → Step enqueue w (auto_submit_attempt enqueue i reason now w).1
  resets : (actor : Actor) (i now : ℕ) (w : World) → Step enqueue w (reset_attempt actor i now w).1
  chooses :
      (actor : Actor) (i : ℕ) (chosen : Bool) (w : World)
      → Step enqueue w (set_attempt_official actor i chosen w).1

pub data Reach (enqueue : ExecutionJob → Bool) : World → World → Type 0 where
  here : (w : World) → Reach enqueue w w
  later : {u v w : World} → Reach enqueue u v → Step enqueue v w → Reach enqueue u w

Step-Valid : {enqueue : ExecutionJob → Bool} {v w : World} → Step enqueue v w → Valid v → Valid w
Step-Valid (starts actor i now start w) v = start_commit-Valid actor i now start w v
Step-Valid (saves actor i input now w) v = save_draft-Valid actor i input now w v
Step-Valid {enqueue} (submits actor i input now w) v =
    submit_attempt-Valid enqueue actor i input now w v
Step-Valid {enqueue} (closes i reason now w) v = auto_submit_attempt-Valid enqueue i reason now w v
Step-Valid (resets actor i now w) v = reset_attempt-Valid actor i now w v
Step-Valid (chooses actor i chosen w) v = set_attempt_official-Valid actor i chosen w v

-- Any sequence of requests on attempts (starts, drafts, submits, automatic closes, resets and
-- choices of the official attempt, a start being any decision and its later write) keeps a valid
-- world valid: ids and attempt numbers stay unique, a Coder has at most one official attempt at a
-- session, and an attempt has at most one Submission, and none before it is handed in.
pub reach-Valid :
    {enqueue : ExecutionJob → Bool} {v w : World} → Reach enqueue v w → Valid v → Valid w
reach-Valid (here w) v = v
reach-Valid (later path step) v = Step-Valid step (reach-Valid path v)
