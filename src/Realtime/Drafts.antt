-- ===== src/Realtime/Drafts.antt =====
-- The two ways to autosave a draft.
use ambatucode.Common.{
  Option-cases, Result-cases, inl, inr, refl, sym, ◌∙◌, Option-cases, ℕ, ◌≡◌, refl, sym, ◌∙◌, inl,
  inr, arith, Error, Result, ok, err, ◌>>◌, or_refuse,
}
use ambatucode.Clock.{attempt_activity_problem}
use ambatucode.Store.{World}
use ambatucode.Access.{AttemptScope, scope_for_own_attempt, scope_for_session}
use ambatucode.Attempts.Activity.{
  CodeInput, clock_for, effective_session_status, save_draft, assert_active,
  assert_language_allowed,
}
use ambatucode.Realtime.State.{Hub, Socket, in_world}
use ambatucode.Realtime.Clocks.{load_own_attempt}
use ambatucode.Realtime.Reports.{handle_draft, draft_problem}

-- Answering a saved draft without the moment at which it was saved.
abbrev pub acknowledged : Result ℕ → Result (Unit {0})
acknowledged r = r >> ok tt

same_scope :
    (i user : ℕ) (w : World)
    → or_refuse (load_own_attempt i user w) Error.not_found ≡ scope_for_own_attempt i user w
unfolding load_own_attempt scope_for_own_attempt scope_for_session
same_scope i user w = ground arith

same_checks :
    (row : AttemptScope) (input : CodeInput) (now : ℕ)
    → draft_problem row input now ≡ (
        assert_active row.attempt row.session now
        >> assert_language_allowed row.assessment.allowed_languages input.language)
unfolding assert_active
same_checks row input now =
    elim (Option-cases (
      attempt_activity_problem row.attempt.status (effective_session_status row.attempt row.session)
        (clock_for row.attempt row.session) now)) [
          | inl fine ↦ rw (fine, assert_active, draft_problem) refl
          | inr (p, problem) ↦ rw (problem, assert_active, draft_problem) refl
        ]

-- A draft that a Coder's socket sends is refused with the same error as one that the request for
-- saving a draft brings, and one that is taken leaves the same world.
pub handle_draft-save_draft :
    (s : Socket) (attempt : ℕ) (input : CodeInput) (now : ℕ) (h : Hub)
    → let saved = save_draft s.actor attempt input now h.world in
      handle_draft s attempt input now h ≡ (acknowledged saved.0, in_world (λ _. saved.1) h)
unfolding handle_draft save_draft assert_active
handle_draft-save_draft s attempt input now h =
    let same = same_scope attempt s.actor.id h.world in
    elim (Option-cases (load_own_attempt attempt s.actor.id h.world)) [
      | inl missing ↦
          let scope : scope_for_own_attempt attempt s.actor.id h.world ≡ err Error.not_found =
            sym same ∙ rw missing refl in
          rw (missing, handle_draft, scope, save_draft) refl
      | inr (row, found) ↦
          let scope : scope_for_own_attempt attempt s.actor.id h.world ≡ ok row =
            sym same ∙ rw found refl in
          rw (found, handle_draft, scope, save_draft, ← same_checks row input now)
            (elim (Result-cases (draft_problem row input now)) [
              | inl (e, refused) ↦ rw refused refl
              | inr (u, fine) ↦ rw fine refl
            ])
    ]
