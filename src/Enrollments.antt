-- ===== src/Enrollments.antt =====
-- Enrollment in a Module: requestEnrollment, decideEnrollment and decideEnrollments of
-- apps/web/src/server/services/enrollments.ts. The paged list of requests, which changes nothing, is not
-- modelled.
pub mod Standing
mod Tests
use ambatucode.Common.{
  ltb, leb, ◌==◌, if◌then◌else◌, is_some, is_none, or_default, ltb→lt, lt→ltb, leb→le, ==_iff,
  ==_refl, Bool-cases, Option-cases, sum, length, get_elem?, take, every, any, select, All,
  length-append, length-select-le, length-map, find_first, count_where, update_where, pick_later,
  find_last, remove_where, ℕ, zero, suc, ◌+◌, ◌-◌, ◌*◌, ◌/◌, ◌%◌, ◌≤◌, ◌<◌, min, max, ◌≡◌, refl,
  sym, ap, subst, ◌∙◌, ◌≢◌, ◌↔◌, ◌⊎◌, inl, inr, Bool, true, false, not, ◌&&◌, ◌||◌, Option, none,
  some, List, [], ◌∷◌, ◌++◌, map, arith, Error, Result, ok, err, ◌>>=◌, ◌>>◌, refuse_if, or_refuse,
}
use ambatucode.Domain.{EnrollmentStatus, ModuleVisibility, is_coder}
use ambatucode.Store.{World, Enrollment, Module, find_module, is_enrollment}
use ambatucode.Access.{Actor, require_module_owner}

pub record EnrollmentAnswer : Type 0 where
  pub status : EnrollmentStatus
  pub can_read : Bool

abbrev pub find_enrollment : ℕ → ℕ → World → Option Enrollment
find_enrollment m u w = find_first (is_enrollment m u) w.enrollments

-- The status that a request is given by the Module's visibility.
abbrev pub asked_status : ModuleVisibility → EnrollmentStatus
asked_status ModuleVisibility.public = EnrollmentStatus.approved
asked_status ModuleVisibility.closed = EnrollmentStatus.pending

abbrev answer_of : EnrollmentStatus → EnrollmentAnswer
answer_of EnrollmentStatus.approved = record { status = EnrollmentStatus.approved; can_read = true }
answer_of s = record { status = s; can_read = false }

-- A direct enrollment records when access was granted, and nobody as the one who decided.
abbrev pub with_request : EnrollmentStatus → ℕ → Enrollment → Enrollment
with_request EnrollmentStatus.approved now e = record e {
  status = EnrollmentStatus.approved;
  decided_at = some now;
  decided_by = none;
}
with_request s now e = record e { status = s; decided_at = none; decided_by = none }

abbrev pub blank : ℕ → ℕ → ℕ → Enrollment
blank i m u = record {
  id = i;
  module_id = m;
  user_id = u;
  status = EnrollmentStatus.pending;
  decided_at = none;
  decided_by = none;
}

-- `upsert` of the row of this Module and Coder.
abbrev pub upsert_request : ℕ → ℕ → EnrollmentStatus → ℕ → World → World
upsert_request m u s now w =
    if any (is_enrollment m u) w.enrollments
    then record w {
      enrollments = update_where (is_enrollment m u) (with_request s now) w.enrollments;
    }
    else record w {
      enrollments = with_request s now (blank w.next_id m u) ∷ w.enrollments;
      next_id = suc w.next_id;
    }

abbrev pub ask_again : ℕ → ℕ → ModuleVisibility → ℕ → World → EnrollmentAnswer × World
ask_again m u visibility now w =
    (answer_of (asked_status visibility), upsert_request m u (asked_status visibility) now w)

abbrev pub ask :
    ℕ → ℕ → ModuleVisibility → ℕ → World → Option EnrollmentStatus → EnrollmentAnswer × World
ask m u visibility now w (some EnrollmentStatus.approved) = (answer_of EnrollmentStatus.approved, w)
ask m u visibility now w (some EnrollmentStatus.pending) = (answer_of EnrollmentStatus.pending, w)
ask m u visibility now w _ = ask_again m u visibility now w

abbrev status_of : Option Enrollment → Option EnrollmentStatus
status_of none = none
status_of (some e) = some e.status

-- Where a Coder stands with a Module: nowhere, or at the status of the row.
abbrev pub standing : ℕ → ℕ → World → Option EnrollmentStatus
standing m u w = status_of (find_enrollment m u w)

abbrev pub request_checks : Actor → ℕ → World → Result Module
request_checks actor m w = do
  refuse_if (not (is_coder actor.role)) Error.forbidden
  found ← or_refuse (find_module m w) Error.not_found
  refuse_if (not found.is_published) Error.not_found
  ok found

unfoldable pub request_enrollment : Actor → ℕ → ℕ → World → Result EnrollmentAnswer × World
request_enrollment actor m now w = elim (request_checks actor m w) [
  | err e ↦ (err e, w)
  | ok found ↦
      let (answer, after) = ask m actor.id found.visibility now w (standing m actor.id w) in
      (ok answer, after)
]

abbrev has_enrollment_id : ℕ → Enrollment → Bool
has_enrollment_id i e = e.id == i

abbrev pub with_decision : EnrollmentStatus → ℕ → ℕ → Enrollment → Enrollment
with_decision s by now e = record e { status = s; decided_at = some now; decided_by = some by }

abbrev decision_checks : Actor → ℕ → ℕ → World → Result (Unit {0})
decision_checks actor m i w = do
  owned ← require_module_owner actor m w
  e ← or_refuse (find_first (has_enrollment_id i) w.enrollments) Error.not_found
  refuse_if (not (e.module_id == m)) Error.not_found

unfoldable pub decide_enrollment :
    Actor → ℕ → ℕ → EnrollmentStatus → ℕ → World → Result (Unit {0}) × World
unfolding require_module_owner
decide_enrollment actor m i s now w = elim (decision_checks actor m i w) [
  | err e ↦ (err e, w)
  | ok _ ↦ (
    ok tt,
    record w {
      enrollments = update_where (has_enrollment_id i) (with_decision s actor.id now) w.enrollments;
    },
  )
]

pub data DecisionTarget : Type 0 where
  all_pending : DecisionTarget
  selected : List ℕ → DecisionTarget

abbrev is_pending : EnrollmentStatus → Bool
is_pending EnrollmentStatus.pending = true
is_pending _ = false

abbrev same_status : EnrollmentStatus → EnrollmentStatus → Bool
same_status EnrollmentStatus.pending EnrollmentStatus.pending = true
same_status EnrollmentStatus.approved EnrollmentStatus.approved = true
same_status EnrollmentStatus.rejected EnrollmentStatus.rejected = true
same_status _ _ = false

-- `bulkDecisionWhere`
unfoldable pub is_bulk_row : ℕ → DecisionTarget → EnrollmentStatus → Enrollment → Bool
is_bulk_row m all_pending s e = e.module_id == m && is_pending e.status
is_bulk_row m (selected ids) s e =
    e.module_id == m && any (λ i. i == e.id) ids && not (same_status e.status s)

abbrev held_count : ℕ → List ℕ → World → ℕ
held_count m ids w = count_where (λ e. e.module_id == m && any (λ i. i == e.id) ids) w.enrollments

abbrev check_selection : ℕ → DecisionTarget → World → Result (Unit {0})
check_selection m all_pending w = ok tt
check_selection m (selected ids) w =
    refuse_if (not (held_count m ids w == length ids)) Error.not_found

abbrev bulk_checks : Actor → ℕ → DecisionTarget → World → Result (Unit {0})
bulk_checks actor m target w = do owned ← require_module_owner actor m w; check_selection m target w

-- The number of rows that were written.
unfoldable pub decide_enrollments :
    Actor → ℕ → DecisionTarget → EnrollmentStatus → ℕ → World → Result ℕ × World
unfolding require_module_owner is_bulk_row
decide_enrollments actor m target s now w = elim (bulk_checks actor m target w) [
  | err e ↦ (err e, w)
  | ok _ ↦ (
    ok (count_where (is_bulk_row m target s) w.enrollments),
    record w {
      enrollments =
          update_where (is_bulk_row m target s) (with_decision s actor.id now) w.enrollments;
    },
  )
]
