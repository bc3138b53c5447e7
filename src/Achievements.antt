-- ===== src/Achievements.antt =====
-- The rules of the achievements: apps/web/src/server/services/achievement-rules.ts. A quantile is a
-- fraction, and a tenth, a quarter or 95 of 100 of a duration are compared by multiplying out.
pub mod Rules
mod Tests
use ambatucode.Common.{
  ltb, leb, ◌==◌, if◌then◌else◌, is_some, is_none, or_default, ltb→lt, lt→ltb, leb→le, ==_iff,
  ==_refl, Bool-cases, Option-cases, sum, length, get_elem?, take, every, any, select, All,
  length-append, length-select-le, length-map, find_first, count_where, update_where, pick_later,
  find_last, remove_where, ℕ, zero, suc, ◌+◌, ◌-◌, ◌*◌, ◌/◌, ◌%◌, ◌≤◌, ◌<◌, min, max, ◌≡◌, refl,
  sym, ap, subst, ◌∙◌, ◌≢◌, ◌↔◌, ◌⊎◌, inl, inr, Bool, true, false, not, ◌&&◌, ◌||◌, Option, none,
  some, List, [], ◌∷◌, ◌++◌, map, arith, Error, Result, ok, err, ◌>>=◌, ◌>>◌, refuse_if, or_refuse,
}
use ambatucode.Domain.{SubmissionStatus, is_graded}

pub record Quantile : Type 0 where
  pub before : ℕ
  pub among : ℕ

pub record SubmissionFacts : Type 0 where
  pub score : ℕ
  pub status : SubmissionStatus
  pub submitted_at : ℕ

pub record AttemptFacts : Type 0 where
  pub attempt_number : ℕ
  pub run_count : ℕ
  pub consumed_ms : Option ℕ
  pub deadline_ms : Option ℕ
  pub duration_ms : Option ℕ

pub record AssessmentFacts : Type 0 where
  pub is_timed : Bool
  pub is_live : Bool
  pub detects_focus_loss : Bool
  pub case_count : ℕ
  pub hidden_case_count : ℕ

pub record DerivedFacts : Type 0 where
  pub execution_time_quantile : Option Quantile
  pub memory_quantile : Option Quantile
  pub script_test_count : ℕ
  pub script_tests_passed : ℕ
  pub case_result_count : ℕ
  pub case_results_passed : ℕ
  pub perfect_streak : ℕ
  pub languages_graded : ℕ
  pub is_first_graded : Bool
  pub is_first_perfect_in_session : Bool
  pub best_earlier_score : Option ℕ
  pub worst_earlier_score : Option ℕ
  pub reconnected : Bool
  pub focus_lost_count : ℕ
  pub session_participant_count : ℕ
  pub section_swept : Bool
  pub module_cleared : Bool

pub record SubmissionContext : Type 0 where
  pub submission : SubmissionFacts
  pub attempt : AttemptFacts
  pub assessment : AssessmentFacts
  pub derived : DerivedFacts

pub data SubmissionRule : Type 0 where
  strategic_sniper flawless_run perfect_streak second_wind cold_start : SubmissionRule
  blood_hunter speed_demon early_bird marathoner optimizer light_footprint : SubmissionRule
  the_architect test_whisperer polyglot full_spectrum comeback_kid unshaken : SubmissionRule
  iron_will first_light section_sweep module_cleared under_pressure eyes_forward : SubmissionRule

abbrev pub scored_at_least : ℕ → SubmissionContext → Bool
scored_at_least n c = is_graded c.submission.status && leb n c.submission.score

unfoldable pub is_perfect : SubmissionContext → Bool
is_perfect c = is_graded c.submission.status && c.submission.score == 100

abbrev pub in_top_tenth : Option Quantile → Bool
in_top_tenth none = false
in_top_tenth (some q) = leb (10 * q.before) q.among

-- `FINAL_STRETCH_MS`
abbrev final_stretch_ms : ℕ
final_stretch_ms = 60000

-- In the last minute before the deadline.
abbrev pub is_last_minute : Option ℕ → ℕ → Bool
is_last_minute none submitted_at = false
is_last_minute (some deadline) submitted_at =
    leb submitted_at deadline && leb deadline (submitted_at + final_stretch_ms)

-- A comparison of the time that was used with the whole, where both are known.
abbrev pub used_of : (ℕ → ℕ → Bool) → AttemptFacts → Bool
used_of test a = elim a.consumed_ms [
  | none ↦ false
  | some used ↦ elim a.duration_ms [ none ↦ false | some whole ↦ ltb 0 whole && test used whole ]
]

abbrev pub all_script_tests : DerivedFacts → Bool
all_script_tests d = ltb 0 d.script_test_count && d.script_tests_passed == d.script_test_count

abbrev gained : Option ℕ → ℕ → Bool
gained none score = false
gained (some earlier) score = leb (earlier + 40) score

abbrev was_below_half : Option ℕ → Bool
was_below_half none = false
was_below_half (some worst) = ltb worst 50

unfoldable pub submission_rule : SubmissionRule → SubmissionContext → Bool
unfolding is_perfect
submission_rule strategic_sniper c =
    is_perfect c && c.attempt.attempt_number == 1 && in_top_tenth c.derived.execution_time_quantile
submission_rule flawless_run c =
    is_perfect c
    && ltb 0 c.assessment.hidden_case_count
    && c.derived.case_result_count == c.derived.case_results_passed
submission_rule perfect_streak c = is_perfect c && leb 3 c.derived.perfect_streak
submission_rule second_wind c = is_perfect c && ltb 1 c.attempt.attempt_number
submission_rule cold_start c = is_perfect c && c.attempt.run_count == 0
submission_rule blood_hunter c =
    scored_at_least 100 c
    && leb 2 c.assessment.case_count
    && is_last_minute c.attempt.deadline_ms c.submission.submitted_at
submission_rule speed_demon c =
    is_perfect c && c.assessment.is_timed && used_of (λ used whole. leb (4 * used) whole) c.attempt
submission_rule early_bird c = is_perfect c && c.derived.is_first_perfect_in_session
submission_rule marathoner c =
    scored_at_least 80 c
    && c.assessment.is_timed
    && used_of (λ used whole. leb (95 * whole) (100 * used)) c.attempt
submission_rule optimizer c =
    is_graded c.submission.status && in_top_tenth c.derived.execution_time_quantile
submission_rule light_footprint c =
    is_graded c.submission.status && in_top_tenth c.derived.memory_quantile
submission_rule the_architect c = all_script_tests c.derived
submission_rule test_whisperer c = c.attempt.attempt_number == 1 && all_script_tests c.derived
submission_rule polyglot c = leb 3 c.derived.languages_graded
submission_rule full_spectrum c = leb 4 c.derived.languages_graded
submission_rule comeback_kid c =
    is_graded c.submission.status && gained c.derived.best_earlier_score c.submission.score
submission_rule unshaken c = scored_at_least 80 c && c.derived.reconnected
submission_rule iron_will c = is_perfect c && was_below_half c.derived.worst_earlier_score
submission_rule first_light c = is_graded c.submission.status && c.derived.is_first_graded
submission_rule section_sweep c = c.derived.section_swept
submission_rule module_cleared c = c.derived.module_cleared
submission_rule under_pressure c =
    scored_at_least 90 c && c.assessment.is_live && leb 10 c.derived.session_participant_count
submission_rule eyes_forward c =
    scored_at_least 80 c && c.assessment.detects_focus_loss && c.derived.focus_lost_count == 0

pub data PracticeRule : Type 0 where
  drill_sergeant student_of_the_game : PracticeRule

pub record PracticeContext : Type 0 where
  pub run_count : ℕ
  pub mastered_count : ℕ

unfoldable pub practice_rule : PracticeRule → PracticeContext → Bool
practice_rule drill_sergeant c = leb 50 c.run_count
practice_rule student_of_the_game c = leb 10 c.mastered_count
