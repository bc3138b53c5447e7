-- ===== src/Export/Tests.antt =====
-- Rows of the export on concrete values.
use ambatucode.Common.{length, All, ℕ, ◌≡◌, refl, true, false, some, [], ◌∷◌, ◌++◌, map}
use ambatucode.Export.{
  CsvText, text, missing, flag, csv_row, csv_field, cell, doubled, is_formula, GradeRecord,
  values_for,
}
use ambatucode.Export.Reading.{csv_row-read_row, read_row}

abbrev no_digits : ℕ → CsvText
no_digits n = n ∷ []

-- A name that starts a formula and holds a quote, =" in the code.
abbrev hostile : CsvText
hostile = 61 ∷ 34 ∷ []

-- "'=""",""
hostile_row :
    csv_row no_digits (text hostile ∷ missing ∷ [])
    ≡ 34 ∷ 39 ∷ 61 ∷ 34 ∷ 34 ∷ 34 ∷ 44 ∷ 34 ∷ 34 ∷ 13 ∷ 10 ∷ []
unfolding csv_row csv_field doubled cell
hostile_row = refl

abbrev never_started : GradeRecord
never_started = record {
  username = hostile;
  display_name = [];
  module_title = [];
  section_title = [];
  assessment_title = [];
  session_name = [];
  attempts = [];
}

-- A Coder without an attempt has a row of as many cells as there are columns.
empty_record : map (λ v. length v) (values_for never_started) ≡ 19 ∷ []
empty_record = refl

csv_row-read_row_example :
    (read_row 2 (csv_row no_digits (text hostile ∷ flag true ∷ []) ++ hostile)
      ≡ some (map (cell no_digits) (text hostile ∷ flag true ∷ []), hostile))
    × All (λ t. is_formula t ≡ false) (map (cell no_digits) (text hostile ∷ flag true ∷ []))
csv_row-read_row_example = csv_row-read_row no_digits (text hostile) (flag true ∷ []) hostile
