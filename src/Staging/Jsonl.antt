-- ===== src/Staging/Jsonl.antt =====
-- core/src/cubes/staging/parse.ts: JSON lines, where `JSON.parse` is a parameter.
use qwbe.Prelude.{
  ℕ, suc, ◌+◌, Bool, true, false, not, ◌&&◌, ◌||◌, ◌≡◌, refl, Option, none, some, List, [], ◌∷◌,
  length, arith, all, nat_eq, filter, if◌then◌else◌,
}
use qwbe.Staging.Units.{Units, trim_units, lines_of}
use qwbe.Staging.Csv.{ParseResult, Reason, not_an_object, holds_nul, invalid_json}

-- A parsed JSON value, an object by its text from `JSON.stringify`.
pub data JsonValue : Type 0 where
  object : Units → JsonValue
  other : JsonValue

-- `JSON.parse`: none where it throws
abbrev pub JsonParse : Type 0
JsonParse = Units → Option JsonValue

abbrev starts_with_units : Units → Units → Bool
starts_with_units [] text = true
starts_with_units (c ∷ part) [] = false
starts_with_units (c ∷ part) (d ∷ text) = nat_eq c d && starts_with_units part text

-- `text.includes(part)`
abbrev pub includes_units : Units → Units → Bool
includes_units part [] = starts_with_units part []
includes_units part (c ∷ text) = starts_with_units part (c ∷ text) || includes_units part text

-- the six code units of the escape of NUL
abbrev pub nul_escape : Units
nul_escape = 92 ∷ 117 ∷ 48 ∷ 48 ∷ 48 ∷ 48 ∷ []

abbrev pub refuse : ℕ → Reason → ParseResult Units → ParseResult Units
refuse line reason more = record more {
  malformed = record { line = line; reason = reason } ∷ more.malformed;
}

abbrev pub add_value : ℕ → Option JsonValue → ParseResult Units → ParseResult Units
add_value line none more = refuse line invalid_json more
add_value line (some other) more = refuse line not_an_object more
add_value line (some (object text)) more =
    if includes_units nul_escape text
    then refuse line holds_nul more
    else record more { records = text ∷ more.records }

abbrev pub is_empty : Units → Bool
is_empty [] = true
is_empty (c ∷ s) = false

module _ (json : JsonParse) where
  -- the loop of `parseJsonl`
  unfoldable pub parse_lines : ℕ → List Units → ParseResult Units
  parse_lines line [] = record { records = []; malformed = [] }
  parse_lines line (raw ∷ lines) =
      let more = parse_lines (suc line) lines in
      if is_empty (trim_units raw) then more else add_value line (json (trim_units raw)) more

  -- `parseJsonl`
  unfoldable pub parse_jsonl : Units → ℕ → ParseResult Units
  unfolding parse_lines
  parse_jsonl text start_line = parse_lines start_line (lines_of text)

  abbrev pub counts : List Units → ℕ
  counts lines = length (filter (λ raw. not (is_empty (trim_units raw))) lines)

  parse_lines_count :
      (line : ℕ) (lines : List Units)
      → length (parse_lines line lines).records + length (parse_lines line lines).malformed
        ≡ counts lines
  unfolding parse_lines
  parse_lines_count line [] = refl
  parse_lines_count line (raw ∷ lines) = ground (arith, parse_lines_count (suc line) lines)

  parse_lines_clean :
      (line : ℕ) (lines : List Units)
      → all (λ text. not (includes_units nul_escape text)) (parse_lines line lines).records ≡ true
  unfolding parse_lines
  parse_lines_clean line [] = refl
  parse_lines_clean line (raw ∷ lines) = ground (arith, parse_lines_clean (suc line) lines)

  -- Whatever `JSON.parse` does: every line that is not blank gives one record or one malformed entry,
  -- and no record's text holds the escape of NUL.
  pub parse_jsonl-IsAccounted :
      (text : Units) (start_line : ℕ)
      → (length (parse_jsonl text start_line).records
            + length (parse_jsonl text start_line).malformed
          ≡ counts (lines_of text))
        × (all
              (λ record_text. not (includes_units nul_escape record_text))
              (parse_jsonl text start_line).records
            ≡ true)
  unfolding parse_jsonl
  parse_jsonl-IsAccounted text start_line =
      (parse_lines_count start_line (lines_of text), parse_lines_clean start_line (lines_of text))
