-- ===== src/Official.antt =====
-- The one official attempt of a Coder in a session, apps/web/src/server/services/official-score.ts,
-- as functions on the table of attempts.
mod Tests
pub mod Laws
use ambatucode.Common.{
  ltb, leb, ◌==◌, if◌then◌else◌, is_some, is_none, or_default, ltb→lt, lt→ltb, leb→le, ==_iff,
  ==_refl, Bool-cases, Option-cases, sum, length, get_elem?, take, every, any, select, All,
  length-append, length-select-le, length-map, find_first, count_where, update_where, pick_later,
  find_last, remove_where, ℕ, zero, suc, ◌+◌, ◌-◌, ◌*◌, ◌/◌, ◌%◌, ◌≤◌, ◌<◌, min, max, ◌≡◌, refl,
  sym, ap, subst, ◌∙◌, ◌≢◌, ◌↔◌, ◌⊎◌, inl, inr, Bool, true, false, not, ◌&&◌, ◌||◌, Option, none,
  some, List, [], ◌∷◌, ◌++◌, map, arith, Error, forbidden, not_found, conflict, validation_failed,
  session_not_running, attempt_already_submitted, attempt_expired, language_not_allowed,
  rate_limited, internal, Result, ok, err, ◌>>=◌, ◌>>◌, refuse_if, or_refuse,
}
use ambatucode.Store.{Attempt, has_id, is_sibling}

abbrev pub with_official : Bool → Attempt → Attempt
with_official b a = record a { is_official = b }

abbrev pub is_official_sibling : ℕ → ℕ → Attempt → Bool
is_official_sibling s u a = is_sibling s u a && a.is_official

unfoldable pub set_official_attempt : ℕ → ℕ → ℕ → List Attempt → List Attempt
set_official_attempt s u i attempts =
    update_where (has_id i) (with_official true)
      (update_where (λ a. is_sibling s u a && not (a.id == i)) (with_official false) attempts)

unfoldable pub clear_official_attempts : ℕ → ℕ → List Attempt → List Attempt
clear_official_attempts s u = update_where (is_sibling s u) (with_official false)

unfoldable pub claim_official_if_unset : ℕ → ℕ → ℕ → List Attempt → List Attempt
claim_official_if_unset s u i attempts =
    if ltb 0 (count_where (is_official_sibling s u) attempts)
    then attempts
    else update_where (has_id i) (with_official true) attempts
