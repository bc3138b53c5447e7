-- ===== src/Official/Tests.antt =====
-- The official attempt of a Coder with two attempts at one session.
use ambatucode.Common.{count_where, ℕ, ◌≡◌, refl, Bool, true, false, none, List, [], ◌∷◌, arith}
use ambatucode.Store.{Attempt}
use ambatucode.Official.{claim_official_if_unset, is_official_sibling}
use ambatucode.Official.Laws.{claim_decides}
use ambatucode.Domain.{AttemptStatus}

abbrev attempt : ℕ → ℕ → Bool → Attempt
attempt i n official = record {
  id = i;
  session_id = 5;
  user_id = 1;
  attempt_number = n;
  status = AttemptStatus.submitted;
  started_at = none;
  individual_deadline_at = none;
  consumed_ms = 0;
  paused_at = none;
  run_count = 0;
  last_run = none;
  is_official = official;
  granted_outside_session = false;
  reset_by = none;
  reset_at = none;
}

abbrev undecided : List Attempt
undecided = attempt 6 1 false ∷ attempt 7 2 false ∷ []

abbrev decided : List Attempt
decided = attempt 6 1 true ∷ attempt 7 2 false ∷ []

claim_decides_example :
    count_where (is_official_sibling 5 1) (claim_official_if_unset 5 1 7 undecided) ≡ 1
claim_decides_example =
    claim_decides 5 1 7 undecided refl (λ e. (refl, refl), (λ e. (refl, refl), tt))
      (λ i. ground arith) (λ s u. ground arith)
