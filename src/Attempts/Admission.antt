-- ===== src/Attempts/Admission.antt =====
-- Admitting a Coder who is not listed leaves the rule of who may take part as it was.
use ambatucode.Common.{
  ◌==◌, Bool-cases, any, find_first, count_where, ℕ, ◌≡◌, refl, inl, inr, Bool, false, ◌||◌, Option,
  none, List, [], ◌∷◌, arith,
}
use ambatucode.Domain.{ExecutionMode, SessionAccess}
use ambatucode.Store.{Participant, is_participant}
use ambatucode.Access.{session_eligibility, is_listed_participant, listed_here}
use ambatucode.Attempts.Start.{admit}

listed_kept :
    (s u v : ℕ) (already : Bool) (ps : List Participant)
    → (is_listed_participant s v (admit s u already ps) ≡ is_listed_participant s v ps)
      × (count_where (listed_here s) (admit s u already ps) ≡ count_where (listed_here s) ps)
unfolding admit
listed_kept s u v already ps = elim (Bool-cases (already || any (is_participant s u) ps)) [
  | inl there ↦ rw there (refl, refl)
  | inr absent ↦
      let alone : any (is_participant s u) ps ≡ false = ground arith in
      let missing : find_first (is_participant s u) ps ≡ none = unseen ps alone in
      elim (Bool-cases (u == v)) [
        | inl same ↦
            let e : u ≡ v = ground arith in
            rw absent (ground (arith, rw e at missing), ground arith)
        | inr other ↦ rw absent (ground arith, ground arith)
      ]
]
  where
    unseen :
        (xs : List Participant)
        → any (is_participant s u) xs ≡ false
        → find_first (is_participant s u) xs ≡ none
    unseen [] h = refl
    unseen (x ∷ xs) h = ground (arith, unseen xs)

-- Admitting a Coder to a session leaves everybody's eligibility for it as it was: the row that
-- tracks an unlisted Coder does not turn the session into a restricted one.
pub admit-keeps_eligibility :
    (s u v : ℕ) (already : Bool) (mode : Option ExecutionMode) (access : SessionAccess)
    (open_access : Bool) (ps : List Participant)
    → session_eligibility s v mode access open_access (admit s u already ps)
      ≡ session_eligibility s v mode access open_access ps
unfolding session_eligibility
admit-keeps_eligibility s u v already mode access open_access ps =
    let (listed, count) = listed_kept s u v already ps in rw (listed, count) refl
