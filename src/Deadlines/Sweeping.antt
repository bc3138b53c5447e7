-- ===== src/Deadlines/Sweeping.antt =====
-- What the sweep does with the attempts that an interrupted end has left open.
use ambatucode.Common.{
  ◌==◌, any, select, Bool-cases, inr, ℕ, ◌≡◌, refl, inl, Bool, true, List, [], ◌∷◌, map,
}
use ambatucode.Store.{World, Attempt, ExecutionJob, Deadline, attempt_deadline}
use ambatucode.Attempts.Close.{AutoReason}
use ambatucode.Attempts.Invariant.{Valid}
use ambatucode.Sessions.Lifecycle.{close_each}
use ambatucode.Sessions.Closing.{Shut}
use ambatucode.Sessions.Settling.{IsOver, close_each-Shut}
use ambatucode.Deadlines.{close_attempts}

-- The attempts whose call arrives.
abbrev pub reached_ids : (Deadline → Bool) → List Attempt → List ℕ
reached_ids reaches rows = map (λ a. a.id) (select (λ a. reaches (attempt_deadline a.id)) rows)

-- The sweep closes the stranded attempts whose call arrives as the end of their session would have.
pub close_attempts-close_each :
    (enqueue : ExecutionJob → Bool) (reaches : Deadline → Bool) (rows : List Attempt) (later : ℕ)
    (w : World)
    → close_attempts enqueue reaches AutoReason.session_ended rows later w
      ≡ close_each enqueue later (reached_ids reaches rows) w
close_attempts-close_each enqueue reaches [] later w = refl
close_attempts-close_each enqueue reaches (a ∷ rows) later w =
    elim (Bool-cases (reaches (attempt_deadline a.id))) [
      | inl arrives ↦ rw arrives (close_attempts-close_each enqueue reaches rows later _)
      | inr lost ↦ rw lost (close_attempts-close_each enqueue reaches rows later w)
    ]

-- In a valid world, once the sweep has gone through its list of stranded attempts, each one whose
-- session is over and whose call arrived is in progress no longer, whichever other calls were lost.
pub stranded_closed :
    (enqueue : ExecutionJob → Bool) (reaches : Deadline → Bool) (rows : List Attempt)
    (later s k : ℕ) (w : World)
    → Valid w
    → IsOver s w
    → any (λ j. j == k) (reached_ids reaches rows) ≡ true
    → Shut s k (close_attempts enqueue reaches AutoReason.session_ended rows later w).attempts
stranded_closed enqueue reaches rows later s k w valid over listed =
    rw (close_attempts-close_each enqueue reaches rows later w)
      (close_each-Shut enqueue later s k (reached_ids reaches rows) w valid over (inl listed))
