-- ===== src/Sessions/Settling.antt =====
-- Closing the attempts of an ended session one after the other closes them all.
use ambatucode.Common.{
  ◌==◌, Bool-cases, Option-cases, any, find_first, ℕ, ◌≡◌, sym, subst, ◌⊎◌, inl, inr, Bool, true,
  false, ◌&&◌, some, List, [], ◌∷◌, arith,
}
use ambatucode.Common.Counting.{All-imp, find_first-passes, find_first-none, All-unique}
use ambatucode.Domain.{is_in_progress, is_running}
use ambatucode.Store.{World, Session, ExecutionJob, has_id, find_attempt, find_session}
use ambatucode.Attempts.Activity.{has_draft}
use ambatucode.Attempts.Close.{AutoReason, auto_submit_attempt}
use ambatucode.Attempts.Invariant.{Valid}
use ambatucode.Attempts.Requests.{auto_submit_attempt-Valid}
use ambatucode.Sessions.Closing.{Shut, auto_submit-keeps, close_due-rows, closed_rows, closed-shuts}
use ambatucode.Sessions.Lifecycle.{close_each}

-- The session `s` is there and not running.
abbrev pub IsOver : ℕ → World → Type 0
IsOver s w = (t : Session) × (find_session s w ≡ some t) × (is_running t.status ≡ false)

keeps-IsOver : (s : ℕ) (v w : World) → w.sessions ≡ v.sessions → IsOver s v → IsOver s w
keeps-IsOver s v w e (t, found, over) = (t, rw e found, over)

-- The attempt that is named is closed, where its session is over.
auto_submit-shuts :
    (enqueue : ExecutionJob → Bool) (k now s : ℕ) (w : World)
    → Valid w
    → IsOver s w
    → Shut s k (auto_submit_attempt enqueue k AutoReason.session_ended now w).1.attempts
unfolding auto_submit_attempt
auto_submit-shuts enqueue k now s w v (t, session, over) = elim (Option-cases (find_attempt k w)) [
  | inl missing ↦ (auto_submit-keeps enqueue k now s k w).0 (
      All-imp w.attempts (λ a absent same here. absurd (cc)) (find_first-none _ w.attempts missing))
  | inr (a, found) ↦
      let only = All-unique (has_id k) w.attempts (v.unique_ids k) found in
      elim (Bool-cases (a.session_id == s && is_in_progress a.status)) [
        | inr other ↦ (auto_submit-keeps enqueue k now s k w).0 (
            All-imp w.attempts
              (λ b e same here.
                let here_too = subst (λ x. (x.session_id == s) ≡ true) (e same) here in
                subst (λ x. is_in_progress x.status ≡ false) (sym (e same)) (ground arith))
              only)
        | inl due ↦
            let here : a.session_id ≡ s = ground arith in
            let active : is_in_progress a.status ≡ true = ground arith in
            let same : a.id ≡ k = ground (arith, find_first-passes (has_id k) w.attempts found) in
            let d = find_first (has_draft a.id) w.drafts in
            let its_session : find_session a.session_id w ≡ some t =
              subst (λ j. find_session j w ≡ some t) (sym here) session in
            let (rows, _) = close_due-rows enqueue a t d now w in
            rw (found, auto_submit_attempt, its_session, active, over, rows)
              (subst (λ j. Shut s j (closed_rows a d w.attempts)) same
                (closed-shuts s a d w.attempts))
      ]
]

pub close_each-Shut :
    (enqueue : ExecutionJob → Bool) (now s k : ℕ) (ks : List ℕ) (w : World)
    → Valid w
    → IsOver s w
    → (any (λ j. j == k) ks ≡ true) ⊎ Shut s k w.attempts
    → Shut s k (close_each enqueue now ks w).attempts
close_each-Shut enqueue now s k [] w v over (inl e) = absurd (cc)
close_each-Shut enqueue now s k [] w v over (inr shut) = shut
close_each-Shut enqueue now s k (j ∷ ks) w v over h =
    let (shut, sessions) = auto_submit-keeps enqueue j now s k w in
    let after = (auto_submit_attempt enqueue j AutoReason.session_ended now w).1 in
    close_each-Shut enqueue now s k ks after
      (auto_submit_attempt-Valid enqueue j AutoReason.session_ended now w v)
      (keeps-IsOver s w after sessions over)
      (elim (Bool-cases (j == k)) [
        | inl same ↦
            let eq : j ≡ k = ground arith in
            inr
              (subst (λ i. Shut s i after.attempts) eq (auto_submit-shuts enqueue j now s w v over))
        | inr other ↦ elim h [ inl named ↦ inl (ground arith) | inr closed ↦ inr (shut closed) ]
      ])
