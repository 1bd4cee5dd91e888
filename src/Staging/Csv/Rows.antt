-- ===== src/Staging/Csv/Rows.antt =====
-- The rows of a CSV text: that the fuel is enough, and what the refused lines report.
use qwbe.Prelude.{
  ℕ, zero, suc, ◌+◌, ◌≤◌, ◌≡◌, refl, inl, inr, List, [], ◌∷◌, length, arith, nat_eq, Bool-cases,
}
use qwbe.Staging.Units.{Units, line_feeds}
use qwbe.Staging.Csv.{CsvRecord, csv_record, Malformed, is_last_blank, parse_rows}
use qwbe.Staging.Csv.Progress.{csv_record-IsRead}

-- Fuel for each code unit is enough: more of it changes nothing.
pub parse_rows-fuel :
    (f g : ℕ) (names : List Units) (line : ℕ) (text : Units)
    → length text ≤ f
    → length text ≤ g
    → parse_rows f names line text ≡ parse_rows g names line text
unfolding parse_rows
parse_rows-fuel zero zero names line text h k = refl
parse_rows-fuel f g names line [] h k = refl
parse_rows-fuel zero (suc g) names line (c ∷ text) h k = absurd (omega (arith, h))
parse_rows-fuel (suc f) zero names line (c ∷ text) h k = absurd (omega (arith, k))
parse_rows-fuel (suc f) (suc g) names line (c ∷ text) h k =
    let rec : CsvRecord = csv_record (c ∷ text) in
    let shorter = (csv_record-IsRead (c ∷ text)).1 in
    rw (parse_rows-fuel f g names (line + rec.newlines) rec.rest (omega arith) (omega arith)) refl

-- Every line of the list is between the two.
abbrev pub LinesAreIn : ℕ → ℕ → List Malformed → Type 0
LinesAreIn low high [] = Unit {0}
LinesAreIn low high (m ∷ ms) = (low ≤ m.line) × (m.line ≤ high) × LinesAreIn low high ms

LinesAreIn-wider :
    (low high low' high' : ℕ) (ms : List Malformed)
    → low ≤ low'
    → high' ≤ high
    → LinesAreIn low' high' ms
    → LinesAreIn low high ms
LinesAreIn-wider low high low' high' [] h k l = l
LinesAreIn-wider low high low' high' (m ∷ ms) h k l =
    (omega (arith, l.0), omega (arith, l.1), LinesAreIn-wider low high low' high' ms h k l.2)

-- What is refused in the rows of a text is reported at a line of that text.
pub parse_rows-LinesAreIn :
    (fuel : ℕ) (names : List Units) (line : ℕ) (text : Units)
    → LinesAreIn line (line + line_feeds text) (parse_rows fuel names line text).malformed
unfolding parse_rows
parse_rows-LinesAreIn fuel names line [] = tt
parse_rows-LinesAreIn zero names line (c ∷ text) = tt
parse_rows-LinesAreIn (suc fuel) names line (c ∷ text) =
    let rec : CsvRecord = csv_record (c ∷ text) in
    let read = (csv_record-IsRead (c ∷ text)).0 in
    let more =
      LinesAreIn-wider line (line + line_feeds (c ∷ text)) (line + rec.newlines)
        (line + rec.newlines + line_feeds rec.rest)
        (parse_rows fuel names (line + rec.newlines) rec.rest).malformed (omega arith)
        (omega (arith, read)) (parse_rows-LinesAreIn fuel names (line + rec.newlines) rec.rest) in
    elim (Bool-cases (is_last_blank rec)) [
      | inl last ↦ rw last tt
      | inr on ↦ elim (Bool-cases (nat_eq (length rec.fields) (length names))) [
        | inl fits ↦ rw (on, fits) more
        | inr other ↦ rw (on, other) (omega arith, omega arith, more)
      ]
    ]
