-- ===== src/Sessions/Open.antt =====
-- The open-access session of an Assessment, asked for again.
use ambatucode.Common.{
  Option-cases, find_first, ℕ, suc, ◌≡◌, refl, sym, subst, ◌∙◌, ◌⊎◌, inl, inr, some, ◌∷◌, arith, ok,
  Result-cases,
}
use ambatucode.Store.{World, Session, Assessment}
use ambatucode.Sessions.Participants.{
  ensure_open_access_session, open_checks, open_or_create, is_open_session, open_session,
}

opened : Assessment → ℕ → World → World
opened a now w = record w {
  sessions = open_session w.next_id a now ∷ w.sessions;
  next_id = suc w.next_id;
}

-- What a call leaves, by cases.
open_or_create-cases :
    (a : Assessment) (now : ℕ) (w : World)
    → ((s : Session) × (find_first (is_open_session a.id) w.sessions ≡ some s)
        × (open_or_create a now w ≡ (ok s.id, w)))
      ⊎ (open_or_create a now w ≡ (ok w.next_id, opened a now w))
unfolding opened
open_or_create-cases a now w = elim (Option-cases (find_first (is_open_session a.id) w.sessions)) [
  | inr (s, found) ↦ inl (s, found, rw (found, open_or_create) refl)
  | inl missing ↦ inr (rw (missing, open_or_create) refl)
]

again :
    (a : Assessment) (now later : ℕ) (w : World)
    → open_or_create a later (open_or_create a now w).1 ≡ open_or_create a now w
unfolding opened
again a now later w = elim (open_or_create-cases a now w) [
  | inl (s, found, e) ↦
      let repeated : open_or_create a later w ≡ (ok s.id, w) = rw (found, open_or_create) refl in
      subst (λ r. open_or_create a later r.1 ≡ r) (sym e) repeated
  | inr e ↦
      let found : find_first (is_open_session a.id) (opened a now w).sessions
          ≡ some (open_session w.next_id a now) =
        ground arith in
      let repeated : open_or_create a later (opened a now w) ≡ (ok w.next_id, opened a now w) =
        rw (found, open_or_create) refl in
      subst (λ r. open_or_create a later r.1 ≡ r) (sym e) repeated
]

same_checks :
    (a : Assessment) (i now : ℕ) (w : World)
    → open_checks i (open_or_create a now w).1 ≡ open_checks i w
unfolding opened
same_checks a i now w = elim (open_or_create-cases a now w) [
  | inl (s, found, e) ↦ subst (λ r. open_checks i r.1 ≡ open_checks i w) (sym e) refl
  | inr e ↦ subst (λ r. open_checks i r.1 ≡ open_checks i w) (sym e) refl
]

-- When the open-access session of an Assessment has been asked for and answered, asking again
-- afterwards gives the same session and changes nothing.
pub ensure_idempotent :
    (i now later : ℕ) (w : World) {n : ℕ}
    → (ensure_open_access_session i now w).0 ≡ ok n
    → ensure_open_access_session i later (ensure_open_access_session i now w).1
      ≡ ensure_open_access_session i now w
unfolding ensure_open_access_session
ensure_idempotent i now later w h = elim (Result-cases (open_checks i w)) [
  | inl (e, refused) ↦ absurd (let broken = rw (refused, ensure_open_access_session) at h in cc)
  | inr (a, accepted) ↦
      let first : ensure_open_access_session i now w ≡ open_or_create a now w =
        rw (accepted, ensure_open_access_session) refl in
      let kept : open_checks i (open_or_create a now w).1 ≡ ok a =
        same_checks a i now w ∙ accepted in
      let second : ensure_open_access_session i later (open_or_create a now w).1
          ≡ open_or_create a later (open_or_create a now w).1 =
        rw (kept, ensure_open_access_session) refl in
      subst (λ r. ensure_open_access_session i later r.1 ≡ r) (sym first)
        (second ∙ again a now later w)
]
