-- ===== src/Enrollments/Tests.antt =====
-- Enrollment on a small world.
use ambatucode.Common.{if◌then◌else◌, ℕ, ◌≡◌, refl, ◌⊎◌, none, some, [], ◌∷◌, map, Error, err}
use ambatucode.Domain.{UserRole, EnrollmentStatus}
use ambatucode.Store.{World, Module, find_module}
use ambatucode.Access.{Actor, require_module_owner}
use ambatucode.Sample.{busy, owner}
use ambatucode.Enrollments.{
  request_enrollment, decide_enrollments, standing, all_pending, is_bulk_row,
}
use ambatucode.Enrollments.Standing.{asked, same_pair, request-asked}

abbrev newcomer : Actor
newcomer = record { id = 8; role = UserRole.coder }

abbrev waiting : World
waiting = (request_enrollment newcomer 3 7000 busy).1

-- The Module is closed, so the newcomer waits.
waits_for_owner : standing 3 8 waiting ≡ some EnrollmentStatus.pending
unfolding request_enrollment
waits_for_owner = refl

-- The owner takes everyone who waits; the one who was in keeps the decision of then.
bulk_takes :
    map
      (λ e. e.decided_at)
      (decide_enrollments owner 3 all_pending EnrollmentStatus.approved 8000 waiting).1.enrollments
    ≡ some 8000 ∷ none ∷ []
unfolding request_enrollment decide_enrollments require_module_owner is_bulk_row
bulk_takes = refl

request-asked_example :
    ((e : Error) × (request_enrollment newcomer 3 7000 busy ≡ (err e, busy)))
    ⊎ ((found : Module) × (find_module 3 busy ≡ some found)
        × ((m2 u2 : ℕ)
            → standing m2 u2 (request_enrollment newcomer 3 7000 busy).1 ≡ (
                if same_pair m2 u2 3 8
                then asked found.visibility (standing 3 8 busy)
                else standing m2 u2 busy)))
request-asked_example = request-asked newcomer 3 7000 busy
