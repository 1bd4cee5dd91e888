-- ===== src/Staging/Csv.antt =====
-- core/src/cubes/staging/parse.ts: records, header and rows of a CSV text.
pub mod Progress
pub mod Rows
pub mod RoundTrip
use qwbe.Prelude.{
  ℕ, zero, suc, ◌+◌, Bool, true, false, not, ◌&&◌, Option, none, some, List, [], ◌∷◌, ◌++◌, all,
  length, nat_eq, map, if◌then◌else◌,
}
use qwbe.Staging.Units.{
  Units, quote, comma, line_feed, carriage_return, same_units, is_blank, trim_units, decimal,
}

-- One CSV record: its fields, the text after it, and the line ends it used up.
pub record CsvRecord : Type 0 where
  pub fields : List Units
  pub rest : Units
  pub newlines : ℕ

-- whether the text starts with the code unit
abbrev pub starts_with : ℕ → Units → Bool
starts_with c [] = false
starts_with c (d ∷ s) = nat_eq d c

abbrev pub rest_after : Units → Units
rest_after [] = []
rest_after (c ∷ s) = s

-- What the loop of `csvRecord` carries.
pub record Scan : Type 0 where
  pub fields : List Units
  pub field : Units
  pub quoted : Bool
  pub newlines : ℕ

abbrev pub finish : Scan → Units → CsvRecord
finish st rest = record { fields = st.fields ++ st.field ∷ []; rest = rest; newlines = st.newlines }

abbrev pub count_line : ℕ → ℕ → ℕ
count_line c n = if nat_eq c line_feed then suc n else n

abbrev pub keep : ℕ → Scan → Scan
keep c st = record st { field = st.field ++ c ∷ [] }

-- What the code unit at `i` asks for: a state to go on with after one unit or two, or the end of
-- the record after one or two.
pub data Next : Type 0 where
  on skip : Scan → Next
  ends ends_pair : Scan → Next

abbrev pub quoted_next : Scan → ℕ → Units → Next
quoted_next st c rest =
    if nat_eq c quote
    then (if starts_with quote rest
        then Next.skip (keep quote st)
        else Next.on (record st { quoted = false }))
    else Next.on (record (keep c st) { newlines = count_line c st.newlines })

abbrev pub plain_next : Scan → ℕ → Units → Next
plain_next st c rest =
    if nat_eq c quote
    then Next.on (record st { quoted = true })
    else if nat_eq c comma
    then Next.on (record st { fields = st.fields ++ st.field ∷ []; field = [] })
    else if nat_eq c line_feed
    then Next.ends (record st { newlines = suc st.newlines })
    else if nat_eq c carriage_return && starts_with line_feed rest
    then Next.ends_pair (record st { newlines = suc st.newlines })
    else Next.on (keep c st)

abbrev pub next_of : Scan → ℕ → Units → Next
next_of st c rest = if st.quoted then quoted_next st c rest else plain_next st c rest

-- the `while` loop of `csvRecord`
unfoldable pub scan : Scan → Units → CsvRecord
scan st [] = finish st []
scan st (c ∷ []) = elim (next_of st c []) [
  | on st' ↦ scan st' []
  | skip st' ↦ finish st' []
  | ends st' ↦ finish st' []
  | ends_pair st' ↦ finish st' []
]
scan st (c ∷ d ∷ rest) = elim (next_of st c (d ∷ rest)) [
  | on st' ↦ scan st' (d ∷ rest)
  | skip st' ↦ scan st' rest
  | ends st' ↦ finish st' (d ∷ rest)
  | ends_pair st' ↦ finish st' rest
]

-- `csvRecord`, of the text from an offset on
unfoldable pub csv_record : Units → CsvRecord
unfolding scan
csv_record text = scan (record { fields = []; field = []; quoted = false; newlines = 0 }) text

-- how many of the names met so far are this one
abbrev pub times_seen : Units → List Units → ℕ
times_seen name [] = 0
times_seen name (x ∷ seen) = (if same_units name x then 1 else 0) + times_seen name seen

-- `dedupe`, where `seen` holds the trimmed names so far
unfoldable pub dedupe_after : List Units → List Units → List Units
dedupe_after seen [] = []
dedupe_after seen (raw ∷ names) =
    let base = trim_units raw in
    let n = times_seen base seen in
    (if nat_eq n 0 then base else base ++ 95 ∷ decimal (suc n)) ∷ dedupe_after (base ∷ seen) names

unfoldable pub dedupe : List Units → List Units
unfolding dedupe_after
dedupe names = dedupe_after [] names

-- `csvHeaderOf`
unfoldable pub csv_header_of : Units → List Units
unfolding dedupe
csv_header_of text = dedupe (csv_record text).fields

-- a parsed row: `row[h] = value` for each column, where a second value under a name replaces the first
abbrev pub ParsedRow : Type 0
ParsedRow = List (Units × Units)

abbrev pub set_field : Units → Units → ParsedRow → ParsedRow
set_field name value [] = (name, value) ∷ []
set_field name value ((key, old) ∷ row) =
    if same_units key name then (key, value) ∷ row else (key, old) ∷ set_field name value row

unfoldable pub row_of : List Units → List Units → ParsedRow → ParsedRow
row_of [] fields row = row
row_of (h ∷ names) [] row = row
row_of (h ∷ names) (v ∷ fields) row = row_of names fields (set_field h v row)

pub data Reason : Type 0 where
  empty_input missing_header : Reason
  columns : (found expected : ℕ) → Reason
  not_an_object holds_nul invalid_json : Reason

pub record Malformed : Type 0 where
  pub line : ℕ
  pub reason : Reason

-- `ParseResult`
pub record ParseResult (A : Type 0) : Type 0 where
  pub records : List A
  pub malformed : List Malformed

-- a single blank field up to the end of the text
abbrev last_blank : List Units → Units → Bool
last_blank (f ∷ []) [] = is_blank f
last_blank fields rest = false

abbrev pub is_last_blank : CsvRecord → Bool
is_last_blank rec = last_blank rec.fields rec.rest

abbrev pub add_record : List Units → ℕ → CsvRecord → ParseResult ParsedRow → ParseResult ParsedRow
add_record names line rec more =
    if nat_eq (length rec.fields) (length names)
    then record more { records = row_of names rec.fields [] ∷ more.records }
    else record more {
      malformed =
          record { line = line; reason = columns (length rec.fields) (length names) }
          ∷ more.malformed;
    }

-- the `while` loop of `parseCsv`, with fuel for the records left
unfoldable pub parse_rows : ℕ → List Units → ℕ → Units → ParseResult ParsedRow
parse_rows fuel names line [] = record { records = []; malformed = [] }
parse_rows zero names line (c ∷ text) = record { records = []; malformed = [] }
parse_rows (suc fuel) names line (c ∷ text) =
    let rec : CsvRecord = csv_record (c ∷ text) in
    let more = parse_rows fuel names (line + rec.newlines) rec.rest in
    if is_last_blank rec
    then record { records = []; malformed = [] }
    else add_record names line rec more

abbrev pub refused : ℕ → Reason → ParseResult ParsedRow
refused line reason = record {
  records = [];
  malformed = record { line = line; reason = reason } ∷ [];
}

abbrev pub parse_after_header : ℕ → Units → CsvRecord → ParseResult ParsedRow
parse_after_header start_line text head =
    if all is_blank head.fields
    then refused start_line missing_header
    else parse_rows (length text) (dedupe head.fields) (start_line + head.newlines) head.rest

abbrev pub parse_with : ℕ → Units → Option (List Units) → ParseResult ParsedRow
parse_with start_line text none = parse_after_header start_line text (csv_record text)
parse_with start_line text (some names) = parse_rows (length text) names start_line text

-- `parseCsv`
unfoldable pub parse_csv : Units → ℕ → Option (List Units) → ParseResult ParsedRow
unfolding parse_rows
parse_csv text start_line header =
    if is_blank text then refused start_line empty_input else parse_with start_line text header
