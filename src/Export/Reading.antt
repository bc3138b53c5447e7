-- ===== src/Export/Reading.antt =====
-- What a reader of CSV makes of the export.
use ambatucode.Common.Finding.{append_assoc}
use ambatucode.Common.{
  All, ◌∙◌, Bool-cases, inl, inr, ap, sym, refl, false, arith, ◌≡◌, length, map, ◌++◌, ◌==◌, ◌==◌,
  if◌then◌else◌, ℕ, zero, suc, Option, none, some, List, [], ◌∷◌,
}
use ambatucode.Export.{
  missing, text, number, flag, joined, flag, number, text, guarded, is_formula, doubled, csv_field,
  cell, CsvValue, csv_row, flag_text, CsvText, quote, comma, return, newline,
}

abbrev prepend {ℓ} : {A : Type ℓ} → A → Option (List A × CsvText) → Option (List A × CsvText)
prepend c none = none
prepend c (some (f, rest)) = some (c ∷ f, rest)

-- The rest of a quoted field, after its first quote: a doubled quote is one, and a single one ends it.
unfoldable pub read_quoted : CsvText → Option (CsvText × CsvText)
read_quoted [] = none
read_quoted (c ∷ []) = if c == quote then some ([], []) else none
read_quoted (c ∷ d ∷ rest) =
    let after = read_quoted rest in
    let next = read_quoted (d ∷ rest) in
    if c == quote
    then (if d == quote then prepend quote after else some ([], d ∷ rest))
    else prepend c next

abbrev after_field :
    (CsvText → Option (List CsvText × CsvText))
    → CsvText
    → CsvText
    → Option (List CsvText × CsvText)
after_field more f [] = none
after_field more f (c ∷ rest) =
    if c == comma
    then prepend f (more rest)
    else (if c == return
        then (elim rest [
          | [] ↦ none
          | d ∷ others ↦ if d == newline then some (f ∷ [], others) else none
        ])
        else none)

-- A row of as many quoted fields as there are columns, and what stands after it.
unfoldable pub read_row : ℕ → CsvText → Option (List CsvText × CsvText)
unfolding read_quoted
read_row zero input = none
read_row (suc n) [] = none
read_row (suc n) (c ∷ cs) =
    if c == quote
    then (elim (read_quoted cs) [ none ↦ none | some (f, rest) ↦ after_field (read_row n) f rest ])
    else none

read_plain :
    (c : ℕ) (xs : CsvText)
    → (c == quote) ≡ false
    → read_quoted (c ∷ xs) ≡ prepend c (read_quoted xs)
unfolding read_quoted
read_plain c [] plain = rw plain refl
read_plain c (d ∷ xs) plain = rw plain refl

-- A text whose quotes are doubled is read back, up to the single quote after it.
pub read_quoted-doubled :
    (t : CsvText) (d : ℕ) (rest : CsvText)
    → (d == quote) ≡ false
    → read_quoted (doubled t ++ (quote ∷ d ∷ rest)) ≡ some (t, d ∷ rest)
unfolding doubled read_quoted
read_quoted-doubled [] d rest end = rw end refl
read_quoted-doubled (c ∷ t) d rest end = elim (Bool-cases (c == quote)) [
  | inl is_quote ↦
      let same : c ≡ quote = ground arith in
      rw (is_quote, read_quoted-doubled t d rest end) (ap (λ x. some (x ∷ t, d ∷ rest)) (sym same))
  | inr plain ↦
      rw
        (
          plain,
          read_plain c (doubled t ++ (quote ∷ d ∷ rest)) plain,
          read_quoted-doubled t d rest end,
        )
        refl
]

field_shape :
    (digits : ℕ → CsvText) (v : CsvValue) (rest : CsvText)
    → csv_field digits v ++ rest ≡ quote ∷ (doubled (cell digits v) ++ (quote ∷ rest))
unfolding csv_field
field_shape digits missing rest = refl
field_shape digits (text t) rest =
    ap (λ r. quote ∷ r) (append_assoc (doubled (cell digits (text t))) (quote ∷ []) rest)
field_shape digits (number n) rest =
    ap (λ r. quote ∷ r) (append_assoc (doubled (cell digits (number n))) (quote ∷ []) rest)
field_shape digits (flag b) rest =
    ap (λ r. quote ∷ r) (append_assoc (doubled (cell digits (flag b))) (quote ∷ []) rest)

-- One field is read, and then what follows it.
read_field :
    (digits : ℕ → CsvText) (n : ℕ) (v : CsvValue) (d : ℕ) (rest : CsvText)
    → (d == quote) ≡ false
    → read_row (suc n) (csv_field digits v ++ (d ∷ rest))
      ≡ after_field (read_row n) (cell digits v) (d ∷ rest)
unfolding read_row
read_field digits n v d rest end =
    rw (field_shape digits v (d ∷ rest), read_quoted-doubled (cell digits v) d rest end) refl

read_back :
    (digits : ℕ → CsvText) (v : CsvValue) (vs : List CsvValue) (rest : CsvText)
    → read_row (length (v ∷ vs)) (csv_row digits (v ∷ vs) ++ rest)
      ≡ some (map (cell digits) (v ∷ vs), rest)
unfolding csv_row
read_back digits v [] rest =
    rw (append_assoc (csv_field digits v) (return ∷ newline ∷ []) rest)
      (read_field digits zero v return (newline ∷ rest) refl)
read_back digits v (w ∷ vs) rest =
    let first = csv_field digits v in
    let others = joined (map (csv_field digits) (w ∷ vs)) in
    let ending = return ∷ newline ∷ [] in
    let split : ((first ++ (comma ∷ others)) ++ ending) ++ rest
        ≡ first ++ (comma ∷ ((others ++ ending) ++ rest)) =
      ap (λ r. r ++ rest) (append_assoc first (comma ∷ others) ending)
      ∙ append_assoc first (comma ∷ (others ++ ending)) rest in
    rw split (
      read_field digits (length (w ∷ vs)) v comma ((others ++ ending) ++ rest) refl
      ∙ rw (read_back digits w vs rest) refl)

not_formula : (t : CsvText) → is_formula (guarded t) ≡ false
not_formula t = ground arith

cell-is_no_formula : (digits : ℕ → CsvText) (v : CsvValue) → is_formula (cell digits v) ≡ false
unfolding cell
cell-is_no_formula digits missing = refl
cell-is_no_formula digits (text t) = not_formula t
cell-is_no_formula digits (number n) = not_formula (digits n)
cell-is_no_formula digits (flag b) = not_formula (flag_text b)

no_formulas :
    (digits : ℕ → CsvText) (vs : List CsvValue)
    → All (λ t. is_formula t ≡ false) (map (cell digits) vs)
no_formulas digits [] = tt
no_formulas digits (v ∷ vs) = (cell-is_no_formula digits v, no_formulas digits vs)

-- A reader of quoted CSV that is given a row of the export, followed by anything, reads as many
-- cells as the row has values, each with its text behind the guard against formulas, and stops
-- where the row ends; and no cell that is read starts like a formula.
pub csv_row-read_row :
    (digits : ℕ → CsvText) (v : CsvValue) (vs : List CsvValue) (rest : CsvText)
    → (read_row (length (v ∷ vs)) (csv_row digits (v ∷ vs) ++ rest)
        ≡ some (map (cell digits) (v ∷ vs), rest))
      × All (λ t. is_formula t ≡ false) (map (cell digits) (v ∷ vs))
csv_row-read_row digits v vs rest = (read_back digits v vs rest, no_formulas digits (v ∷ vs))
