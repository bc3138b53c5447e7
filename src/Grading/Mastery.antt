-- ===== src/Grading/Mastery.antt =====
-- The progress of a Coder at a Practice Activity over any number of runs.
use ambatucode.Common.{
  Bool-cases, inl, inr, true, subst, ◌∙◌, Bool-cases, any, find_first, ℕ, ◌≡◌, refl, subst, ◌∙◌,
  inl, inr, Bool, true, some, List, [], ◌∷◌, arith,
}
use ambatucode.Common.Counting.{find_first-passes}
use ambatucode.Common.Finding.{find-update}
use ambatucode.Grading.Rows.{PracticeProgress}
use ambatucode.Grading.Practice.{
  write_progress, is_progress, count_run, stamp, upsert_progress, stamp_mastery,
}

any-of_find :
    {A : Type 0} (p : A → Bool) (xs : List A) {a : A} → find_first p xs ≡ some a → any p xs ≡ true
any-of_find p [] h = absurd (cc)
any-of_find p (x ∷ xs) {a} h = ground (arith, any-of_find p xs {a = a})

-- A run of an activity that the Coder has learned adds one to its runs and leaves the moment at which it
-- was learned, whether the run passes everything or fails.
pub learned_once :
    (u a : ℕ) (mastered : Bool) (now : ℕ) (rows : List PracticeProgress) (p : PracticeProgress)
    (when : ℕ)
    → find_first (is_progress u a) rows ≡ some p
    → p.passed_all_at ≡ some when
    → find_first (is_progress u a) (write_progress u a mastered now rows) ≡ some (count_run now p)
unfolding write_progress
learned_once u a mastered now rows p when found learned =
    let here : find_first (is_progress u a) (upsert_progress u a mastered now rows)
        ≡ some (count_run now p) =
      rw (any-of_find (is_progress u a) rows found) (
        find-update (is_progress u a) (is_progress u a) (count_run now) rows {a = p} (λ x. refl)
          found
        ∙ rw (find_first-passes (is_progress u a) rows found) refl) in
    elim (Bool-cases mastered) [
      | inl all ↦ rw all (
          subst
            (λ m.
              find_first (is_progress u a)
                (stamp_mastery u a true now (upsert_progress u a m now rows))
              ≡ some (count_run now p))
            all
            (find-update (is_progress u a) _ (stamp now) (upsert_progress u a mastered now rows)
                {a = count_run now p} (λ x. refl) here
              ∙ ground arith))
      | inr some_failed ↦ rw some_failed (
          subst
            (λ m.
              find_first (is_progress u a) (upsert_progress u a m now rows)
              ≡ some (count_run now p))
            some_failed here)
    ]
