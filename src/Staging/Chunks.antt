-- ===== src/Staging/Chunks.antt =====
-- core/src/cubes/staging/import-chunks.ts and its handler: one chunk of text becomes the statements
-- of a transaction, which the store runs in order.
pub mod Tallies
pub mod Numbers
use qwbe.Prelude.{
  ℕ, zero, suc, ◌+◌, String, Bool, true, false, not, ◌&&◌, Option, none, some, is_some, List, [],
  ◌∷◌, ◌++◌, ◌==◌, map, filter, find, length, take, drop, nat_eq, if◌then◌else◌,
}
use qwbe.Staging.Units.{Units, is_blank}
use qwbe.Staging.Csv.{Malformed, ParseResult, ParsedRow, csv_header_of, parse_csv}
use qwbe.Staging.Jsonl.{JsonParse, parse_jsonl}

pub data Format : Type 0 where
  jsonl csv : Format

pub data SetState : Type 0 where
  importing done failed : SetState

-- `SetRow`, of which the import reads and writes these parts.
pub record SetRow : Type 0 where
  pub id : String
  pub format : Format
  pub state : SetState
  pub row_count : ℕ
  pub malformed_count : ℕ
  pub malformed_sample : List Malformed
  pub csv_header : Option (List Units)

-- `ParsedRecord`
pub data ParsedRecord : Type 0 where
  csv_row : ParsedRow → ParsedRecord
  json_object : Units → ParsedRecord

-- The body of a row of the table of rows.
pub record StagedRow : Type 0 where
  pub set_id : String
  pub row_num : ℕ
  pub content : ParsedRecord

-- What the statements do; an insert holds its records with their offsets.
pub data Statement : Type 0 where
  lock : String → Statement
  insert_rows : String → List (ℕ × ParsedRecord) → Statement
  tally : String → (parsed malformed : ℕ) → List Malformed → Option (List Units) → Statement

pub record Store : Type 0 where
  pub sets : List SetRow
  pub rows : List StagedRow

-- `MALFORMED_SAMPLE_MAX`
abbrev pub sample_max : ℕ
sample_max = 20

-- `batchSize`
abbrev pub batch_size : ℕ
batch_size = 500

abbrev pub results_as : {A : Type 0} → (A → ParsedRecord) → ParseResult A → ParseResult ParsedRecord
results_as f r = record { records = map f r.records; malformed = r.malformed }

-- `parseChunk`
unfoldable pub parse_chunk :
    JsonParse → Format → Units → ℕ → Option (List Units) → ParseResult ParsedRecord
parse_chunk json jsonl text start_line header =
    results_as json_object (parse_jsonl json text start_line)
parse_chunk json csv text start_line header = results_as csv_row (parse_csv text start_line header)

-- `slice.map((record, i) => …)`: the records with their offsets
abbrev pub with_offsets : ℕ → List ParsedRecord → List (ℕ × ParsedRecord)
with_offsets start [] = []
with_offsets start (r ∷ records) = (start, r) ∷ with_offsets (suc start) records

-- the loop of `insertRowsStatement`, with fuel for the batches left
unfoldable pub insert_from : ℕ → String → ℕ → List ParsedRecord → List Statement
insert_from fuel set_id start [] = []
insert_from zero set_id start (r ∷ records) = []
insert_from (suc fuel) set_id start (r ∷ records) =
    insert_rows set_id (with_offsets start (take batch_size (r ∷ records)))
    ∷ insert_from fuel set_id (start + batch_size) (drop batch_size (r ∷ records))

-- `insertRowsStatement`; each batch has a record, so one unit of fuel for each record is enough
unfoldable pub insert_statements : String → List ParsedRecord → List Statement
unfolding insert_from
insert_statements set_id records = insert_from (length records) set_id 0 records

abbrev pub is_csv : Format → Bool
is_csv jsonl = false
is_csv csv = true

-- the header that the text is parsed with: the stored one, behind the first chunk of a CSV set
abbrev pub header_for : SetRow → Option (List Units)
header_for set = if is_csv set.format && not (nat_eq set.row_count 0) then set.csv_header else none

-- the header that the tally stores: a first chunk's
abbrev pub header_of : SetRow → Units → Option (List Units)
header_of set text =
    if is_csv set.format && (nat_eq set.row_count 0 && not (is_blank text))
    then some (csv_header_of text)
    else none

-- What `applyChunk` returns.
pub record Applied : Type 0 where
  pub parsed : ℕ
  pub malformed : List Malformed
  pub statements : List Statement

abbrev pub applied_as : SetRow → Units → ParseResult ParsedRecord → Applied
applied_as set text r = record {
  parsed = length r.records;
  malformed = r.malformed;
  statements =
      lock set.id ∷ insert_statements set.id r.records
      ++ tally set.id (length r.records) (length r.malformed) r.malformed (header_of set text) ∷ [];
}

-- `applyChunk`
unfoldable pub apply_chunk : JsonParse → SetRow → Units → ℕ → Applied
unfolding parse_chunk insert_statements
apply_chunk json set text start_line =
    applied_as set text (parse_chunk json set.format text start_line (header_for set))

abbrev pub is_of : String → StagedRow → Bool
is_of set_id r = r.set_id == set_id

-- `SELECT count(*) … WHERE body->>'setId' = $1`
abbrev pub rows_of : String → List StagedRow → ℕ
rows_of set_id rows = length (filter (is_of set_id) rows)

abbrev pub stage : String → ℕ → List (ℕ × ParsedRecord) → List StagedRow
stage set_id base [] = []
stage set_id base ((offset, content) ∷ rows) =
    record { set_id = set_id; row_num = base + offset; content = content } ∷ stage set_id base rows

abbrev pub kept_header : Option (List Units) → Option (List Units) → Option (List Units)
kept_header none old = old
kept_header (some names) old = some names

abbrev pub tallied : String → ℕ → ℕ → List Malformed → Option (List Units) → SetRow → SetRow
tallied set_id parsed malformed sample header set =
    if set.id == set_id
    then record set {
      row_count = set.row_count + parsed;
      malformed_count = set.malformed_count + malformed;
      malformed_sample = take sample_max (set.malformed_sample ++ sample);
      csv_header = kept_header header set.csv_header;
    }
    else set

-- What a statement does to the tables; the lock only orders the transactions of a set.
unfoldable pub execute : Statement → Store → Store
execute (lock set_id) store = store
execute (insert_rows set_id rows) store = record store {
  rows = store.rows ++ stage set_id (rows_of set_id store.rows) rows;
}
execute (tally set_id parsed malformed sample header) store = record store {
  sets = map (tallied set_id parsed malformed sample header) store.sets;
}

-- `batch`: the statements in order, in one transaction
unfoldable pub batch : List Statement → Store → Store
unfolding execute
batch [] store = store
batch (s ∷ statements) store = batch statements (execute s store)
