-- ===== src/Access.antt =====
-- Who may do what: apps/web/src/server/auth/guards.ts, the scope lookups of
-- apps/web/src/server/services/assessment-scope.ts and participation.ts.
use ambatucode.Common.{
  ◌==◌, if◌then◌else◌, find_first, count_where, ℕ, Bool, true, false, not, ◌&&◌, Option, none, some,
  List, Error, Result, ok, err, ◌>>=◌, ◌>>◌, refuse_if, or_refuse,
}
use ambatucode.Domain.{UserRole, ExecutionMode, SessionAccess, is_coder, is_approved}
use ambatucode.Clock.{is_live}
use ambatucode.Store.{
  World, Module, Session, Assessment, Attempt, Participant, find_module, find_session,
  find_assessment, find_attempt, is_participant, is_enrollment,
}

-- The signed-in user.
pub record Actor : Type 0 where
  pub id : ℕ
  pub role : UserRole

abbrev pub is_root : UserRole → Bool
is_root UserRole.root = true
is_root _ = false

abbrev pub is_architect : UserRole → Bool
is_architect UserRole.architect = true
is_architect _ = false

unfoldable pub assert_not_root : Actor → Result (Unit {0})
assert_not_root actor = refuse_if (is_root actor.role) Error.forbidden

unfoldable pub require_module_owner : Actor → ℕ → World → Result Module
require_module_owner actor i w = do
  m ← or_refuse (find_module i w) Error.not_found
  refuse_if (not (is_architect actor.role && m.owner_id == actor.id)) Error.forbidden
  ok m

-- `enrollment?.status === "APPROVED"`
abbrev pub is_enrolled : ℕ → ℕ → World → Bool
is_enrolled m u w = elim (find_first (is_enrollment m u) w.enrollments) [
  | none ↦ false
  | some e ↦ is_approved e.status
]

abbrev check_enrolled : Actor → World → Module → Result Module
check_enrolled actor w m =
    if is_architect actor.role && m.owner_id == actor.id
    then ok m
    else (if is_coder actor.role && m.is_published
        then (if is_enrolled m.id actor.id w then ok m else err Error.forbidden)
        else err Error.not_found)

unfoldable pub require_enrolled : Actor → ℕ → World → Result Module
require_enrolled actor i w = do
  m ← or_refuse (find_module i w) Error.not_found
  check_enrolled actor w m

unfoldable pub scope_for_session : ℕ → World → Result (Session × Assessment)
scope_for_session i w = do
  s ← or_refuse (find_session i w) Error.not_found
  a ← or_refuse (find_assessment s.assessment_id w) Error.not_found
  ok (s, a)

pub record AttemptScope : Type 0 where
  pub attempt : Attempt
  pub session : Session
  pub assessment : Assessment

unfoldable pub scope_for_attempt : ℕ → World → Result AttemptScope
unfolding scope_for_session
scope_for_attempt i w = do
  a ← or_refuse (find_attempt i w) Error.not_found
  (s, t) ← scope_for_session a.session_id w
  ok (record { attempt = a; session = s; assessment = t })

-- An attempt of someone else answers as a missing one does.
unfoldable pub scope_for_own_attempt : ℕ → ℕ → World → Result AttemptScope
unfolding scope_for_session
scope_for_own_attempt i user w = do
  a ← or_refuse (find_attempt i w) Error.not_found
  refuse_if (not (a.user_id == user)) Error.not_found
  (s, t) ← scope_for_session a.session_id w
  ok (record { attempt = a; session = s; assessment = t })

pub record Eligibility : Type 0 where
  pub eligible : Bool
  pub is_listed : Bool
  pub on_roster : Bool

abbrev pub is_module_wide : SessionAccess → Bool
is_module_wide SessionAccess.module_wide = true
is_module_wide SessionAccess.listed = false

abbrev pub listed_here : ℕ → Participant → Bool
listed_here s p = p.session_id == s && p.is_listed

abbrev pub is_listed_participant : ℕ → ℕ → List Participant → Bool
is_listed_participant s u ps = elim (find_first (is_participant s u) ps) [
  | none ↦ false
  | some p ↦ p.is_listed
]

unfoldable pub session_eligibility :
    ℕ → ℕ → Option ExecutionMode → SessionAccess → Bool → List Participant → Eligibility
session_eligibility s u mode access open_access ps =
    if is_listed_participant s u ps
    then record { eligible = true; is_listed = true; on_roster = not open_access }
    else (if is_module_wide access
        then record { eligible = true; is_listed = false; on_roster = not open_access }
        else (if is_live mode
            then record { eligible = false; is_listed = false; on_roster = false }
            else record {
              eligible = count_where (listed_here s) ps == 0;
              is_listed = false;
              on_roster = false;
            }))
