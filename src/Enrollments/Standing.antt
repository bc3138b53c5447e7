-- ===== src/Enrollments/Standing.antt =====
-- The service against a table of standings: a function from Modules and Coders.
use ambatucode.Common.Counting.{find_first-passes}
use ambatucode.Common.{
  bind-ok, or_refuse-ok, refuse_if, or_refuse, not, ok, ◌&&◌, ◌∙◌, Error, Result-cases, ◌⊎◌, err,
  ◌==◌, refl, ap, true, false, none, some, ◌==◌, if◌then◌else◌, Bool-cases, Option-cases, any,
  find_first, ℕ, ◌≡◌, refl, ap, ◌∙◌, ◌⊎◌, inl, inr, Bool, true, false, not, ◌&&◌, Option, none,
  some, List, [], ◌∷◌, arith, Error, ok, err, refuse_if, or_refuse,
}
use ambatucode.Common.Finding.{find-update, find-update_none}
use ambatucode.Domain.{is_coder, EnrollmentStatus, ModuleVisibility}
use ambatucode.Store.{find_module, World, Enrollment, Module, is_enrollment}
use ambatucode.Access.{Actor}
use ambatucode.Enrollments.{
  request_enrollment, standing, find_enrollment, upsert_request, with_request, ask, request_checks,
  blank,
}

-- What a request makes of a standing: who is in or waiting stays so, and all others get what the Module's
-- visibility gives: a place in a public Module, and a wait for the decision in a closed one.
unfoldable pub asked : ModuleVisibility → Option EnrollmentStatus → Option EnrollmentStatus
asked visibility (some EnrollmentStatus.approved) = some EnrollmentStatus.approved
asked visibility (some EnrollmentStatus.pending) = some EnrollmentStatus.pending
asked ModuleVisibility.public (some EnrollmentStatus.rejected) = some EnrollmentStatus.approved
asked ModuleVisibility.public none = some EnrollmentStatus.approved
asked ModuleVisibility.closed (some EnrollmentStatus.rejected) = some EnrollmentStatus.pending
asked ModuleVisibility.closed none = some EnrollmentStatus.pending

abbrev pub same_pair : ℕ → ℕ → ℕ → ℕ → Bool
same_pair m u m2 u2 = m == m2 && u == u2

keeps_pair :
    (s : EnrollmentStatus) (now m u : ℕ) (e : Enrollment)
    → is_enrollment m u (with_request s now e) ≡ is_enrollment m u e
keeps_pair EnrollmentStatus.pending now m u e = refl
keeps_pair EnrollmentStatus.approved now m u e = refl
keeps_pair EnrollmentStatus.rejected now m u e = refl

takes_status : (s : EnrollmentStatus) (now : ℕ) (e : Enrollment) → (with_request s now e).status ≡ s
takes_status EnrollmentStatus.pending now e = refl
takes_status EnrollmentStatus.approved now e = refl
takes_status EnrollmentStatus.rejected now e = refl

any-of_none :
    (p : Enrollment → Bool) (rows : List Enrollment) → find_first p rows ≡ none → any p rows ≡ false
any-of_none p [] h = refl
any-of_none p (x ∷ rows) h = ground (arith, any-of_none p rows)

pair_of_found :
    (m u : ℕ) (rows : List Enrollment) {e : Enrollment}
    → find_first (is_enrollment m u) rows ≡ some e
    → (m2 u2 : ℕ) → is_enrollment m2 u2 e ≡ same_pair m u m2 u2
pair_of_found m u rows {e} found m2 u2 =
    ground (arith, find_first-passes (is_enrollment m u) rows found)

apart_of_missing :
    (m u m2 u2 : ℕ) (rows : List Enrollment)
    → any (is_enrollment m u) rows ≡ true
    → find_first (is_enrollment m2 u2) rows ≡ none
    → same_pair m2 u2 m u ≡ false
apart_of_missing m u m2 u2 [] there missing = absurd (cc)
apart_of_missing m u m2 u2 (x ∷ rows) there missing =
    ground (arith, apart_of_missing m u m2 u2 rows)

pair_comm : (m u m2 u2 : ℕ) → (m == m2 && u == u2) ≡ same_pair m2 u2 m u
pair_comm m u m2 u2 = ground arith

pair_eq : (m u m2 u2 : ℕ) → same_pair m2 u2 m u ≡ true → (m2 ≡ m) × (u2 ≡ u)
pair_eq m u m2 u2 same = (ground arith, ground arith)

kept :
    (m u m2 u2 : ℕ) (w : World) {before : Option EnrollmentStatus}
    → standing m u w ≡ before
    → standing m2 u2 w ≡ (if same_pair m2 u2 m u then before else standing m2 u2 w)
kept m u m2 u2 w at = elim (Bool-cases (same_pair m2 u2 m u)) [
  | inl same ↦ let (first, second) = pair_eq m u m2 u2 same in rw same (rw (first, second) at)
  | inr apart ↦ rw apart refl
]

-- The standing of any pair after a request of one.
upsert-standing :
    (m u : ℕ) (s : EnrollmentStatus) (now : ℕ) (w : World) (m2 u2 : ℕ)
    → standing m2 u2 (upsert_request m u s now w)
      ≡ (if same_pair m2 u2 m u then some s else standing m2 u2 w)
upsert-standing m u s now w m2 u2 = elim (Bool-cases (any (is_enrollment m u) w.enrollments)) [
  | inl there ↦ elim (Option-cases (find_enrollment m2 u2 w)) [
    | inl missing ↦
        let still =
          find-update_none (is_enrollment m2 u2) (is_enrollment m u) (with_request s now)
            w.enrollments (keeps_pair s now m2 u2) missing in
        rw
          (
            there,
            upsert_request,
            still,
            missing,
            apart_of_missing m u m2 u2 w.enrollments there missing,
          )
          refl
    | inr (e, found) ↦
        let kept =
          find-update (is_enrollment m2 u2) (is_enrollment m u) (with_request s now) w.enrollments
            {a = e} (keeps_pair s now m2 u2) found in
        rw (there, upsert_request, kept, found, pair_of_found m2 u2 w.enrollments found m u)
          (elim (Bool-cases (same_pair m2 u2 m u)) [
            | inl same ↦ rw same (ap (λ x. some x) (takes_status s now e))
            | inr apart ↦ rw apart refl
          ])
  ]
  | inr new ↦
      let this : is_enrollment m2 u2 (with_request s now (blank w.next_id m u))
          ≡ same_pair m2 u2 m u =
        keeps_pair s now m2 u2 (blank w.next_id m u) ∙ pair_comm m u m2 u2 in
      rw (new, upsert_request, this)
        (elim (Bool-cases (same_pair m2 u2 m u)) [
          | inl same ↦ rw same (ap (λ x. some x) (takes_status s now (blank w.next_id m u)))
          | inr apart ↦ rw apart refl
        ])
]

ask-standing :
    (m u : ℕ) (v : ModuleVisibility) (now : ℕ) (w : World) (m2 u2 : ℕ)
    (before : Option EnrollmentStatus)
    → standing m u w ≡ before
    → standing m2 u2 (ask m u v now w before).1
      ≡ (if same_pair m2 u2 m u then asked v before else standing m2 u2 w)
unfolding asked
ask-standing m u ModuleVisibility.public now w m2 u2 none at =
    upsert-standing m u EnrollmentStatus.approved now w m2 u2
ask-standing m u ModuleVisibility.public now w m2 u2 (some EnrollmentStatus.rejected) at =
    upsert-standing m u EnrollmentStatus.approved now w m2 u2
ask-standing m u ModuleVisibility.closed now w m2 u2 none at =
    upsert-standing m u EnrollmentStatus.pending now w m2 u2
ask-standing m u ModuleVisibility.closed now w m2 u2 (some EnrollmentStatus.rejected) at =
    upsert-standing m u EnrollmentStatus.pending now w m2 u2
ask-standing m u v now w m2 u2 (some EnrollmentStatus.approved) at = kept m u m2 u2 w at
ask-standing m u v now w m2 u2 (some EnrollmentStatus.pending) at = kept m u m2 u2 w at

checked_module :
    (actor : Actor) (m : ℕ) (w : World) {found : Module}
    → request_checks actor m w ≡ ok found
    → find_module m w ≡ some found
checked_module actor m w checked =
    let (_, _, looked) = bind-ok (refuse_if (not (is_coder actor.role)) Error.forbidden) checked in
    let (f, at, rest) = bind-ok (or_refuse (find_module m w) Error.not_found) looked in
    let (_, _, same) = bind-ok (refuse_if (not f.is_published) Error.not_found) rest in
    or_refuse-ok (find_module m w) Error.not_found (at ∙ same)

-- A request to enroll is refused and leaves the world, or the Module is found and the table of
-- standings is as before but for this Coder's standing with it: approved and pending stay, and
-- nothing and rejected become approved in a public Module and pending in a closed one.
pub request-asked :
    (actor : Actor) (m now : ℕ) (w : World)
    → ((e : Error) × (request_enrollment actor m now w ≡ (err e, w)))
      ⊎ ((found : Module) × (find_module m w ≡ some found)
          × ((m2 u2 : ℕ)
              → standing m2 u2 (request_enrollment actor m now w).1 ≡ (
                  if same_pair m2 u2 m actor.id
                  then asked found.visibility (standing m actor.id w)
                  else standing m2 u2 w)))
unfolding request_enrollment
request-asked actor m now w = elim (Result-cases (request_checks actor m w)) [
  | inl (e, refused) ↦ inl (e, rw (refused, request_enrollment) refl)
  | inr (found, checked) ↦ inr (
    found,
    checked_module actor m w checked,
    λ m2 u2.
        rw (checked, request_enrollment)
          (ask-standing m actor.id found.visibility now w m2 u2 (standing m actor.id w) refl),
  )
]
