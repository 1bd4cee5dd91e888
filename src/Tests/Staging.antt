-- ===== src/Tests/Staging.antt =====
-- The theorems about the import of files, each at one input.
use qwbe.Prelude.{◌≡◌, refl, inl, inr, none, some, List, [], ◌∷◌, arith}
use qwbe.Staging.Units.{Units, quote, comma, line_feed, trim_units, decimal}
use qwbe.Staging.Csv.{csv_record, parse_rows, dedupe}
use qwbe.Staging.Csv.Rows.{parse_rows-fuel}
use qwbe.Staging.Csv.RoundTrip.{printed, csv_record-printed}
use qwbe.Staging.Jsonl.{JsonParse, object}
use qwbe.Staging.Chunks.{
  SetRow, csv, importing, StagedRow, Store, csv_row, json_object, insert_statements, batch,
}
use qwbe.Staging.Chunks.Tallies.{TalliesAgree, chunk-TalliesAgree}
use qwbe.Staging.Chunks.Numbers.{row_nums, insert_statements-numbers}
use qwbe.Staging.Handlers.{chunk}

-- `a,"b` and a line end inside the quotes, then `c",d`
abbrev two_lines : Units
two_lines = 97 ∷ comma ∷ quote ∷ 98 ∷ line_feed ∷ 99 ∷ quote ∷ comma ∷ 100 ∷ line_feed ∷ 101 ∷ []

abbrev names : List Units
names = (120 ∷ []) ∷ (121 ∷ []) ∷ (122 ∷ []) ∷ []

parse_rows-fuel_example : parse_rows 11 names 2 two_lines ≡ parse_rows 100 names 2 two_lines
parse_rows-fuel_example = parse_rows-fuel 11 100 names 2 two_lines (omega arith) (omega arith)

csv_record-printed_example :
    csv_record (printed ((quote ∷ comma ∷ []) ∷ (line_feed ∷ []) ∷ []) (97 ∷ []))
    ≡ record { fields = (quote ∷ comma ∷ []) ∷ (line_feed ∷ []) ∷ []; rest = 97 ∷ []; newlines = 2 }
csv_record-printed_example =
    csv_record-printed (quote ∷ comma ∷ []) ((line_feed ∷ []) ∷ []) (97 ∷ [])

-- a parser that takes each text that starts with a brace for an object
abbrev braces : JsonParse
braces [] = none
braces (c ∷ text) = some (object (c ∷ text))

abbrev staged : StagedRow
staged = record { set_id = "s"; row_num = 0; content = json_object [] }

abbrev import_set : SetRow
import_set = record {
  id = "s";
  format = csv;
  state = importing;
  row_count = 1;
  malformed_count = 0;
  malformed_sample = [];
  csv_header = some names;
}

abbrev store : Store
store = record { sets = import_set ∷ []; rows = staged ∷ [] }

store-TalliesAgree : TalliesAgree store
store-TalliesAgree set m = elim m [ inl e ↦ rw e (refl, omega arith) | inr n ↦ absurd n ]

chunk-TalliesAgree_example : TalliesAgree (chunk braces "s" two_lines 2 store).1
chunk-TalliesAgree_example = chunk-TalliesAgree braces "s" two_lines 2 store store-TalliesAgree

insert_statements-numbers_example :
    row_nums (batch (insert_statements "s" (json_object [] ∷ csv_row [] ∷ [])) store).rows
    ≡ 0 ∷ 1 ∷ 2 ∷ []
insert_statements-numbers_example =
    insert_statements-numbers "s" (json_object [] ∷ csv_row [] ∷ []) store

-- The names `a`, `a` and `a_2` give the column name `a_2` twice.
same_column_twice :
    dedupe ((97 ∷ []) ∷ (97 ∷ []) ∷ (97 ∷ 95 ∷ 50 ∷ []) ∷ [])
    ≡ (97 ∷ []) ∷ (97 ∷ 95 ∷ 50 ∷ []) ∷ (97 ∷ 95 ∷ 50 ∷ []) ∷ []
unfolding dedupe trim_units decimal
same_column_twice = refl
