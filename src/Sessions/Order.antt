-- ===== src/Sessions/Order.antt =====
-- One start of a session stops the others, and an unforced start had the readiness that the session asks for.
use ambatucode.Common.{
  ◌||◌, subst, bind-ok, refuse_if-ok, or_refuse-ok, or_refuse, refuse_if, Result-cases, ◌==◌, ◌&&◌,
  not, is_none, ◌<◌, ◌+◌, refl, Bool-cases, any, update_where, ℕ, ◌≡◌, inl, inr, Bool, true, false,
  Option, none, some, List, [], ◌∷◌, arith, Error, ok, err,
}
use ambatucode.Domain.{is_editable}
use ambatucode.Clock.{is_live}
use ambatucode.Store.{find_session, find_assessment, World, Session}
use ambatucode.Access.{scope_for_session, Actor}
use ambatucode.Readiness.{everyone_ready, Readiness, readiness_for}
use ambatucode.Sessions.Setup.{
  assert_can_write, is_past, SessionScope, owned_session, is_editable_session,
}
use ambatucode.Sessions.Lifecycle.{
  start_rows, started, session_start_checks, session_start_commit, start_session, is_missing,
  with_session_start, schedule_end, is_from_none,
}
use ambatucode.Sessions.Ended.{broadcast-tables}

owned_session-finds :
    (actor : Actor) (i : ℕ) (w : World) {scope : SessionScope}
    → owned_session actor i w ≡ ok scope
    → find_session i w ≡ some scope.session
unfolding owned_session scope_for_session
owned_session-finds actor i w {scope} h =
    let (p, e, h1) = bind-ok (scope_for_session i w) h in
    let (s, e1, h2) = bind-ok (or_refuse (find_session i w) Error.not_found) e in
    let (a, _, h3) = bind-ok (or_refuse (find_assessment s.assessment_id w) Error.not_found) h2 in
    let (_, _, h4) = bind-ok (assert_can_write actor p.1.module_id w) h1 in
    let first : (s, a) ≡ p = cc in
    let same : record { session = p.0; assessment = p.1 } ≡ scope = cc in
    rw (← same, ← first) (or_refuse-ok (find_session i w) _ e1)

session_start_checks-ok :
    (online : ℕ → Bool) (actor : Actor) (i now : ℕ) (w : World) {s : Session} {r : Readiness}
    → session_start_checks online actor i now w ≡ ok (s, r)
    → (find_session i w ≡ some s)
      × (is_editable s.status ≡ true)
      × (readiness_for online i w ≡ ok r)
      × (0 < r.counts.total)
unfolding session_start_checks
session_start_checks-ok online actor i now w {s} {r} h =
    let (scope, owned, h1) = bind-ok (owned_session actor i w) h in
    let (_, editable, h2) =
      bind-ok (refuse_if (not (is_editable scope.session.status)) Error.conflict) h1 in
    let (_, _, h3) =
      bind-ok (refuse_if (not scope.assessment.is_published) Error.validation_failed) h2 in
    let (_, _, h4) =
      bind-ok
        (refuse_if (scope.assessment.case_count + scope.assessment.script_count == 0)
          Error.validation_failed)
        h3 in
    let (_, _, h5) =
      bind-ok
        (refuse_if (is_live scope.session.execution_mode && is_none scope.session.duration_minutes)
          Error.validation_failed)
        h4 in
    let (_, _, h6) =
      bind-ok (refuse_if (is_past scope.session.closes_at (some now)) Error.validation_failed) h5 in
    let (found, readiness, h7) = bind-ok (readiness_for online i w) h6 in
    let (_, _, h8) = bind-ok (refuse_if (is_from_none found.source) Error.validation_failed) h7 in
    let (_, total, h9) = bind-ok (refuse_if (found.counts.total == 0) Error.validation_failed) h8 in
    let same_session : scope.session ≡ s = cc in
    let same_readiness : found ≡ r = cc in
    let open_yet = refuse_if-ok (not (is_editable scope.session.status)) _ editable in
    let people = refuse_if-ok (found.counts.total == 0) _ total in
    (
      rw (← same_session) (owned_session-finds actor i w owned),
      subst (λ x. is_editable x.status ≡ true) same_session (ground arith),
      rw (← same_readiness) readiness,
      subst (λ x. 0 < x.counts.total) same_readiness (ground arith),
    )

-- A start of a session that is not forced and succeeds has found a session that could still be
-- edited, at least one Coder on its roster, and, where the session is Live or waits for everyone,
-- everyone ready.
pub started_ready :
    (online : ℕ → Bool) (actor : Actor) (i now : ℕ) (w : World)
    → (start_session online actor i false now w).0 ≡ ok started
    → (s : Session) × (r : Readiness) × (find_session i w ≡ some s)
      × (is_editable s.status ≡ true)
      × (readiness_for online i w ≡ ok r)
      × (0 < r.counts.total)
      × (((is_live s.execution_mode || s.require_all_ready) && not (everyone_ready r.counts))
          ≡ false)
unfolding start_session is_missing
started_ready online actor i now w h =
    elim (Result-cases (session_start_checks online actor i now w)) [
      | inl (e, refused) ↦ absurd (let broken = rw (refused, start_session) at h in cc)
      | inr ((s, r), accepted) ↦
          let (found, editable, readiness, some_one) =
            session_start_checks-ok online actor i now w accepted in
          (
            s,
            r,
            found,
            editable,
            readiness,
            some_one,
            elim (Bool-cases (is_missing s r.counts)) [
              | inr all ↦ all
              | inl missing ↦ absurd (let broken = rw (accepted, start_session, missing) at h in cc)
            ],
          )
    ]

flip-uneditable :
    (by i now : ℕ) (ends_at : Option ℕ) (missing : Bool) (xs : List Session)
    → any
        (is_editable_session i)
        (update_where (is_editable_session i) (with_session_start by now ends_at missing) xs)
      ≡ false
flip-uneditable by i now ends_at missing [] = refl
flip-uneditable by i now ends_at missing (x ∷ xs) =
    ground (arith, flip-uneditable by i now ends_at missing xs)

schedule_end-sessions :
    (i : ℕ) (at : Option ℕ) (w : World) → (schedule_end i at w).sessions ≡ w.sessions
schedule_end-sessions i none w = refl
schedule_end-sessions i (some at) w = refl

uneditable_after :
    (by i now : ℕ) (ends_at : Option ℕ) (missing : Bool) (w : World)
    → (session_start_commit by i now ends_at missing w).0 ≡ ok started
    → any (is_editable_session i) (session_start_commit by i now ends_at missing w).1.sessions
      ≡ false
unfolding session_start_commit
uneditable_after by i now ends_at missing w h =
    elim (Bool-cases (any (is_editable_session i) w.sessions)) [
      | inr fixed ↦ absurd (let broken = rw (fixed, session_start_commit) at h in cc)
      | inl editable ↦
          let (sessions, _, _, _, _) = broadcast-tables i (start_rows by i now ends_at missing w) in
          rw (editable, session_start_commit, sessions, schedule_end-sessions i ends_at _)
            (flip-uneditable by i now ends_at missing w.sessions)
    ]

refused :
    (by i now : ℕ) (ends_at : Option ℕ) (missing : Bool) (w : World)
    → any (is_editable_session i) w.sessions ≡ false
    → session_start_commit by i now ends_at missing w ≡ (err Error.conflict, w)
unfolding session_start_commit
refused by i now ends_at missing w fixed = rw (fixed, session_start_commit) refl

-- Once one start of a session has written, every other start of it that has passed its checks is
-- refused at its write and changes nothing.
pub starts_once :
    (by other i now later : ℕ) (ends_at again : Option ℕ) (missing missing_again : Bool) (w : World)
    → (session_start_commit by i now ends_at missing w).0 ≡ ok started
    → session_start_commit other i later again missing_again
        (session_start_commit by i now ends_at missing w).1
      ≡ (err Error.conflict, (session_start_commit by i now ends_at missing w).1)
starts_once by other i now later ends_at again missing missing_again w h =
    refused other i later again missing_again _ (uneditable_after by i now ends_at missing w h)
