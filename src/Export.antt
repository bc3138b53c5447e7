-- ===== src/Export.antt =====
-- The export of grades as CSV: csvField, csvRow and csvRowsFor of
-- apps/web/src/server/services/grades-export.ts. A text is a list of its character codes, and `digits` is
-- `String` of a number. The stream that the rows are put on is not modelled.
pub mod Reading
mod Tests
use ambatucode.Common.{
  ltb, leb, ◌==◌, if◌then◌else◌, is_some, is_none, or_default, ltb→lt, lt→ltb, leb→le, ==_iff,
  ==_refl, Bool-cases, Option-cases, sum, length, get_elem?, take, every, any, select, All,
  length-append, length-select-le, length-map, find_first, count_where, update_where, pick_later,
  find_last, remove_where, ℕ, zero, suc, ◌+◌, ◌-◌, ◌*◌, ◌/◌, ◌%◌, ◌≤◌, ◌<◌, min, max, ◌≡◌, refl,
  sym, ap, subst, ◌∙◌, ◌≢◌, ◌↔◌, ◌⊎◌, inl, inr, Bool, true, false, not, ◌&&◌, ◌||◌, Option, none,
  some, List, [], ◌∷◌, ◌++◌, map, arith, Error, Result, ok, err, ◌>>=◌, ◌>>◌, refuse_if, or_refuse,
}
use ambatucode.Domain.{AttemptStatus, SubmissionStatus}

abbrev pub quote : ℕ
quote = 34

abbrev pub comma : ℕ
comma = 44

abbrev pub return : ℕ
return = 13

abbrev pub newline : ℕ
newline = 10

abbrev apostrophe : ℕ
apostrophe = 39

abbrev pub CsvText : Type 0
CsvText = List ℕ

-- `FORMULA_LEAD`: the characters = + - @, the tab and the return.
abbrev pub is_lead : ℕ → Bool
is_lead c = c == 61 || c == 43 || c == 45 || c == 64 || c == 9 || c == return

abbrev pub is_formula : CsvText → Bool
is_formula [] = false
is_formula (c ∷ _) = is_lead c

abbrev pub guarded : CsvText → CsvText
guarded t = if is_formula t then apostrophe ∷ t else t

-- `replaceAll('"', '""')`
unfoldable pub doubled : CsvText → CsvText
doubled [] = []
doubled (c ∷ cs) = let rest = doubled cs in if c == quote then quote ∷ quote ∷ rest else c ∷ rest

pub data CsvValue : Type 0 where
  missing : CsvValue
  text : CsvText → CsvValue
  number : ℕ → CsvValue
  flag : Bool → CsvValue

-- `String(value)` of a Boolean.
abbrev pub flag_text : Bool → CsvText
flag_text true = 116 ∷ 114 ∷ 117 ∷ 101 ∷ []
flag_text false = 102 ∷ 97 ∷ 108 ∷ 115 ∷ 101 ∷ []

-- The text of a cell, with the apostrophe before a formula.
unfoldable pub cell : (ℕ → CsvText) → CsvValue → CsvText
cell digits missing = []
cell digits (text t) = guarded t
cell digits (number n) = guarded (digits n)
cell digits (flag b) = guarded (flag_text b)

unfoldable pub csv_field : (ℕ → CsvText) → CsvValue → CsvText
unfolding doubled cell
csv_field digits missing = quote ∷ quote ∷ []
csv_field digits v = quote ∷ (doubled (cell digits v) ++ (quote ∷ []))

-- `join(",")`
abbrev pub joined : List CsvText → CsvText
joined [] = []
joined (f ∷ []) = f
joined (f ∷ g ∷ fs) = f ++ (comma ∷ joined (g ∷ fs))

unfoldable pub csv_row : (ℕ → CsvText) → List CsvValue → CsvText
unfolding csv_field
csv_row digits values = joined (map (csv_field digits) values) ++ (return ∷ newline ∷ [])

pub record ExportedSubmission : Type 0 where
  pub status : CsvText
  pub score : Option ℕ
  pub language : CsvText
  pub submitted_at : CsvText
  pub execution_time_ms : Option ℕ
  pub memory_used_kb : Option ℕ
  pub is_auto_submitted : Bool

pub record ExportedAttempt : Type 0 where
  pub attempt_number : ℕ
  pub is_official : Bool
  pub status : CsvText
  pub submission : Option ExportedSubmission
  pub reset_at : Option CsvText
  pub reset_reason : Option CsvText
  pub reset_by : Option CsvText

pub record GradeRecord : Type 0 where
  pub username : CsvText
  pub display_name : CsvText
  pub module_title : CsvText
  pub section_title : CsvText
  pub assessment_title : CsvText
  pub session_name : CsvText
  pub attempts : List ExportedAttempt

abbrev text_or_missing : Option CsvText → CsvValue
text_or_missing none = missing
text_or_missing (some t) = text t

abbrev number_or_missing : Option ℕ → CsvValue
number_or_missing none = missing
number_or_missing (some n) = number n

abbrev of_submission : Option ExportedSubmission → List CsvValue
of_submission none = missing ∷ missing ∷ missing ∷ missing ∷ missing ∷ missing ∷ flag false ∷ []
of_submission (some s) =
    text s.status
    ∷ number_or_missing s.score
    ∷ text s.language
    ∷ text s.submitted_at
    ∷ number_or_missing s.execution_time_ms
    ∷ number_or_missing s.memory_used_kb
    ∷ flag s.is_auto_submitted
    ∷ []

abbrev of_record : GradeRecord → List CsvValue
of_record r =
    text r.username
    ∷ text r.display_name
    ∷ text r.module_title
    ∷ text r.section_title
    ∷ text r.assessment_title
    ∷ text r.session_name
    ∷ []

abbrev attempt_values : ExportedAttempt → List CsvValue
attempt_values a =
    number a.attempt_number
    ∷ flag a.is_official
    ∷ text a.status
    ∷ (of_submission a.submission
        ++ (text_or_missing a.reset_at
            ∷ text_or_missing a.reset_reason
            ∷ text_or_missing a.reset_by
            ∷ []))

-- NOT_STARTED
abbrev not_started_text : CsvText
not_started_text = 78 ∷ 79 ∷ 84 ∷ 95 ∷ 83 ∷ 84 ∷ 65 ∷ 82 ∷ 84 ∷ 69 ∷ 68 ∷ []

abbrev without_attempt : List CsvValue
without_attempt =
    missing
    ∷ flag false
    ∷ text not_started_text
    ∷ (of_submission none ++ (missing ∷ missing ∷ missing ∷ []))

-- The values of the rows, one row for each attempt.
abbrev pub values_for : GradeRecord → List (List CsvValue)
values_for r = rows_of r r.attempts
  where
    rows_of : GradeRecord → List ExportedAttempt → List (List CsvValue)
    rows_of r [] = (of_record r ++ without_attempt) ∷ []
    rows_of r (a ∷ rest) = map (λ x. of_record r ++ attempt_values x) (a ∷ rest)

unfoldable pub csv_rows_for : (ℕ → CsvText) → GradeRecord → List CsvText
unfolding csv_row
csv_rows_for digits r = map (csv_row digits) (values_for r)
