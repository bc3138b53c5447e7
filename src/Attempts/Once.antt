-- ===== src/Attempts/Once.antt =====
-- An attempt that is handed in, closed or reset stays so.
use ambatucode.Common.{
  ltb, Bool-cases, Option-cases, All, find_first, count_where, update_where, ℕ, ◌<◌, ◌≡◌, refl, inl,
  inr, Bool, true, false, ◌&&◌, List, [], ◌∷◌, arith,
}
use ambatucode.Common.Counting.{All-update, All-imp}
use ambatucode.Domain.{AttemptStatus}
use ambatucode.Store.{World, Attempt, ExecutionJob, EventType, has_id}
use ambatucode.Official.{claim_official_if_unset, with_official, is_official_sibling}
use ambatucode.Attempts.Activity.{CodeInput}
use ambatucode.Attempts.Dispatch.{dispatch_submission, has_submission_id, is_language, job_of}
use ambatucode.Attempts.Submit.{hand_in, with_status}

-- `SUBMITTED`, `EXPIRED` and `RESET`
abbrev pub is_final : AttemptStatus → Bool
is_final AttemptStatus.not_started = false
is_final AttemptStatus.in_progress = false
is_final _ = true

abbrev pub IsFinal : ℕ → List Attempt → Type 0
IsFinal i = All (λ a. has_id i a ≡ true → is_final a.status ≡ true)

-- The attempt `i` exists and is final.
abbrev pub Settled : ℕ → World → Type 0
Settled i w = (i < w.next_id) × IsFinal i w.attempts

-- An update that writes a final status, or leaves the status alone.
pub update-IsFinal :
    (i : ℕ) (p : Attempt → Bool) (f : Attempt → Attempt) (rows : List Attempt)
    → ((a : Attempt)
        → p a ≡ true
        → has_id i (f a) ≡ true
        → (has_id i a ≡ true → is_final a.status ≡ true)
        → is_final (f a).status ≡ true)
    → IsFinal i rows
    → IsFinal i (update_where p f rows)
update-IsFinal i p f rows keep final =
    All-update _ p f rows final (All-imp rows (λ a same e h. keep a e h same) final)

pub official-IsFinal :
    (i : ℕ) (p : Attempt → Bool) (b : Bool) (rows : List Attempt)
    → IsFinal i rows
    → IsFinal i (update_where p (with_official b) rows)
official-IsFinal i p b rows = update-IsFinal i p (with_official b) rows (λ a e h same. same h)

claim-IsFinal :
    (s u j i : ℕ) (rows : List Attempt)
    → IsFinal i rows
    → IsFinal i (claim_official_if_unset s u j rows)
unfolding claim_official_if_unset
claim-IsFinal s u j i rows final =
    elim (Bool-cases (ltb 0 (count_where (is_official_sibling s u) rows))) [
      | inl chosen ↦ rw chosen final
      | inr unset ↦ rw unset (official-IsFinal i (has_id j) true rows final)
    ]

pub dispatch-Settled :
    (enqueue : ExecutionJob → Bool) (j now i : ℕ) (w : World)
    → Settled i w
    → Settled i (dispatch_submission enqueue j now w)
unfolding dispatch_submission
dispatch-Settled enqueue j now i w settled =
    elim (Option-cases (find_first (has_submission_id j) w.submissions)) [
      | inl missing ↦ rw (missing, dispatch_submission) settled
      | inr (s, found) ↦ elim (Bool-cases (is_language s.language && enqueue (job_of s))) [
        | inl taken ↦ rw (found, dispatch_submission, taken) settled
        | inr refused ↦ rw (found, dispatch_submission, refused) settled
      ]
    ]

-- Handing in any attempt keeps `i` settled, and settles the attempt that is handed in.
pub hand_in-Settled :
    (i : ℕ) (a : Attempt) (assessment : ℕ) (input : CodeInput) (auto : Bool) (type : EventType)
    (now : ℕ) (w : World)
    → Settled i w
    → Settled i (hand_in a assessment input auto type now w)
unfolding hand_in
hand_in-Settled i a assessment input auto type now w (old, final) = (
  omega arith,
  claim-IsFinal a.session_id a.user_id a.id i _ (
      update-IsFinal i (has_id a.id) (with_status AttemptStatus.submitted) w.attempts
        (λ b e h same. refl) final),
)

pub submitted-IsFinal :
    (status : AttemptStatus) (i : ℕ) (rows : List Attempt)
    → is_final status ≡ true
    → IsFinal i (update_where (has_id i) (with_status status) rows)
submitted-IsFinal status i [] final = tt
submitted-IsFinal status i (a ∷ rows) final = (ground arith, submitted-IsFinal status i rows final)

pub hand_in-settles :
    (a : Attempt) (assessment : ℕ) (input : CodeInput) (auto : Bool) (type : EventType) (now : ℕ)
    (w : World)
    → a.id < w.next_id
    → Settled a.id (hand_in a assessment input auto type now w)
unfolding hand_in
hand_in-settles a assessment input auto type now w old = (
  omega arith,
  claim-IsFinal a.session_id a.user_id a.id a.id _
      (submitted-IsFinal AttemptStatus.submitted a.id w.attempts refl),
)
