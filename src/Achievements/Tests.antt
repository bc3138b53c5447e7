-- ===== src/Achievements/Tests.antt =====
-- The rules on one Submission.
use ambatucode.Common.{◌≡◌, refl, true, false, none, some}
use ambatucode.Domain.{SubmissionStatus}
use ambatucode.Achievements.{
  SubmissionContext, blood_hunter, speed_demon, comeback_kid, strategic_sniper, submission_rule,
  is_perfect, practice_rule, drill_sergeant,
}

-- Handed in half a minute before the deadline, after a first attempt at 60.
abbrev late_perfect : SubmissionContext
late_perfect = record {
  submission = record { score = 100; status = SubmissionStatus.graded; submitted_at = 1770000 };
  attempt = record {
    attempt_number = 2;
    run_count = 4;
    consumed_ms = some 1770000;
    deadline_ms = some 1800000;
    duration_ms = some 1800000;
  };
  assessment = record {
    is_timed = true;
    is_live = false;
    detects_focus_loss = false;
    case_count = 3;
    hidden_case_count = 1;
  };
  derived = record {
    execution_time_quantile = some (record { before = 1; among = 10 });
    memory_quantile = none;
    script_test_count = 0;
    script_tests_passed = 0;
    case_result_count = 3;
    case_results_passed = 3;
    perfect_streak = 1;
    languages_graded = 1;
    is_first_graded = false;
    is_first_perfect_in_session = false;
    best_earlier_score = some 60;
    worst_earlier_score = some 60;
    reconnected = false;
    focus_lost_count = 0;
    session_participant_count = 0;
    section_swept = false;
    module_cleared = false;
  };
}

hunter : submission_rule blood_hunter late_perfect ≡ true
unfolding submission_rule
hunter = refl

comeback : submission_rule comeback_kid late_perfect ≡ true
unfolding submission_rule
comeback = refl

no_demon : submission_rule speed_demon late_perfect ≡ false
unfolding submission_rule is_perfect
no_demon = refl

no_sniper : submission_rule strategic_sniper late_perfect ≡ false
unfolding submission_rule is_perfect
no_sniper = refl

not_yet : practice_rule drill_sergeant (record { run_count = 49; mastered_count = 0 }) ≡ false
unfolding practice_rule
not_yet = refl
