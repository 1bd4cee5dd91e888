-- ===== src/Staging/Chunks/Tallies.antt =====
-- The tallies of a set agree with its rows, and its sample of refused lines stays short.
use qwbe.Prelude.{
  ℕ, Option, Option-cases, leb, zero, suc, ◌+◌, ◌-◌, ◌≤◌, String, ◌≡◌, refl, sym, ap, ◌∙◌, inl, inr,
  List, [], ◌∷◌, ◌++◌, ◌==◌, eq_iff, filter, length, take, drop, arith, Bool-cases, length-append,
  filter-append, if◌then◌else◌, IsIn, IsIn-map,
}
use qwbe.Staging.Csv.{Malformed}
use qwbe.Staging.Chunks.{
  SetRow, ParsedRecord, Statement, lock, insert_rows, tally, Store, sample_max, batch_size,
  with_offsets, insert_from, insert_statements, is_of, rows_of, stage, tallied, execute, batch,
  apply_chunk, parse_chunk, header_for, header_of,
}
use qwbe.Staging.Handlers.{chunk, load_set, is_importing, max_chunk_chars}
use qwbe.Staging.Units.{Units}
use qwbe.Staging.Jsonl.{JsonParse}
use mathlib.Core.Path.{subst}

pub rows_of-stage :
    (id set_id : String) (base : ℕ) (rows : List (ℕ × ParsedRecord))
    → rows_of id (stage set_id base rows) ≡ (if set_id == id then length rows else 0)
rows_of-stage id set_id base [] = ground arith
rows_of-stage id set_id base ((offset, content) ∷ rows) =
    ground (arith, rows_of-stage id set_id base rows)

pub length-with_offsets :
    (start : ℕ) (records : List ParsedRecord) → length (with_offsets start records) ≡ length records
length-with_offsets start [] = refl
length-with_offsets start (r ∷ records) = ground (arith, length-with_offsets (suc start) records)

pub length-take-drop :
    {A : Type 0} (n : ℕ) (xs : List A) → length (take n xs) + length (drop n xs) ≡ length xs
length-take-drop zero xs = omega arith
length-take-drop (suc n) [] = refl
length-take-drop (suc n) (x ∷ xs) = omega (arith, length-take-drop n xs)

pub drop-shorter : {A : Type 0} (n : ℕ) (xs : List A) → length (drop n xs) ≡ length xs - n
drop-shorter zero xs = omega arith
drop-shorter (suc n) [] = omega arith
drop-shorter (suc n) (x ∷ xs) = omega (arith, drop-shorter n xs)

pub batch-append :
    (xs ys : List Statement) (store : Store) → batch (xs ++ ys) store ≡ batch ys (batch xs store)
unfolding batch
batch-append [] ys store = refl
batch-append (x ∷ xs) ys store = batch-append xs ys (execute x store)

-- The sets are as before, and the set has so many rows more and no other set has.
abbrev Adds : String → ℕ → Store → Store → Type 0
Adds set_id n store store' =
    (store'.sets ≡ store.sets)
    × ((id : String)
        → rows_of id store'.rows ≡ rows_of id store.rows + (if set_id == id then n else 0))

Adds-step :
    (set_id : String) (batch_rows : List (ℕ × ParsedRecord)) (n : ℕ) (store store' : Store)
    → Adds set_id n (execute (insert_rows set_id batch_rows) store) store'
    → Adds set_id (length batch_rows + n) store store'
unfolding execute
Adds-step set_id batch_rows n store store' (same, more) = (
  same,
  λ id. ground (
    arith,
    more id,
    filter-append (is_of id) store.rows (stage set_id (rows_of set_id store.rows) batch_rows),
    length-append (filter (is_of id) store.rows)
        (filter (is_of id) (stage set_id (rows_of set_id store.rows) batch_rows)),
    rows_of-stage id set_id (rows_of set_id store.rows) batch_rows,
  ),
)

-- Running the inserts of a set adds its records to its rows, and to those of no other set.
insert_from-Adds :
    (fuel : ℕ) (set_id : String) (start : ℕ) (records : List ParsedRecord) (store : Store)
    → length records ≤ fuel
    → Adds set_id (length records) store (batch (insert_from fuel set_id start records) store)
unfolding insert_from batch
insert_from-Adds fuel set_id start [] store h = (refl, λ id. ground arith)
insert_from-Adds zero set_id start (r ∷ records) store h = absurd (omega (arith, h))
insert_from-Adds (suc fuel) set_id start (r ∷ records) store h =
    let now = with_offsets start (take batch_size (r ∷ records)) in
    let later = drop batch_size (r ∷ records) in
    let whole : length now + length later ≡ length (r ∷ records) = omega (
      arith,
      length-with_offsets start (take batch_size (r ∷ records)),
      length-take-drop batch_size (r ∷ records),
    ) in
    subst
      (λ n. Adds set_id n store (batch (insert_from (suc fuel) set_id start (r ∷ records)) store))
      whole
      (Adds-step set_id now (length later) store _ (
        insert_from-Adds fuel set_id (start + batch_size) later
          (execute (insert_rows set_id now) store)
          (omega (arith, h, drop-shorter batch_size (r ∷ records)))))

pub length-take : {A : Type 0} (n : ℕ) (xs : List A) → length (take n xs) ≤ n
length-take zero xs = omega arith
length-take (suc n) [] = omega arith
length-take (suc n) (x ∷ xs) = omega (arith, length-take n xs)

-- Each set's row count is the number of its rows, and its sample is short.
abbrev pub TalliesAgree : Store → Type 0
TalliesAgree store =
    (set : SetRow)
    → IsIn set store.sets
    → (set.row_count ≡ rows_of set.id store.rows) × (length set.malformed_sample ≤ sample_max)

module _ (set_id : String) (records : List ParsedRecord) (refused : ℕ) (sample : List Malformed)
    (header : Option (List Units)) where
  abbrev changed : SetRow → SetRow
  changed set = tallied set_id (length records) refused sample header set

  -- what a set gains, its rows gain
  changed-agrees :
      (old : SetRow) (n m : ℕ)
      → old.row_count ≡ n
      → length old.malformed_sample ≤ sample_max
      → m ≡ n + (if set_id == old.id then length records else 0)
      → ((changed old).row_count ≡ m) × (length (changed old).malformed_sample ≤ sample_max)
  changed-agrees old n m h k e = ground (
    arith,
    eq_iff set_id old.id,
    eq_iff old.id set_id,
    length-take sample_max (old.malformed_sample ++ sample),
  )

  changed-id : (old : SetRow) → (changed old).id ≡ old.id
  changed-id old = ground arith

  transaction-TalliesAgree :
      (store : Store)
      → TalliesAgree store
      → TalliesAgree (
          batch
            (lock set_id ∷ insert_statements set_id records
              ++ tally set_id (length records) refused sample header ∷ [])
            store)
  unfolding batch execute insert_statements
  transaction-TalliesAgree store agree =
      let inserts = insert_statements set_id records in
      let (same, more) = insert_from-Adds (length records) set_id 0 records store (omega arith) in
      subst TalliesAgree
        (sym
          (batch-append inserts (tally set_id (length records) refused sample header ∷ []) store))
        (λ set m.
          let (old, m', e) = IsIn-map changed set (batch inserts store).sets m in
          let was = agree old (subst (IsIn old) same m') in
          subst
            (λ (x : SetRow).
              (x.row_count ≡ rows_of x.id (batch inserts store).rows)
              × (length x.malformed_sample ≤ sample_max))
            (sym e)
            (changed-agrees old (rows_of old.id store.rows)
              (rows_of (changed old).id (batch inserts store).rows) was.0 was.1
              (ap (λ id. rows_of id (batch inserts store).rows) (changed-id old) ∙ more old.id)))

apply_chunk-TalliesAgree :
    (json : JsonParse) (set : SetRow) (text : Units) (start_line : ℕ) (store : Store)
    → TalliesAgree store
    → TalliesAgree (batch (apply_chunk json set text start_line).statements store)
unfolding apply_chunk
apply_chunk-TalliesAgree json set text start_line store agree =
    let result = parse_chunk json set.format text start_line (header_for set) in
    transaction-TalliesAgree set.id result.records (length result.malformed) result.malformed
      (header_of set text) store agree

-- Whatever the chunk and whether or not it is accepted: if each set's row count is the number of its
-- rows and its sample holds at most 20 refused lines, so it is afterwards.
pub chunk-TalliesAgree :
    (json : JsonParse) (id : String) (text : Units) (start_line : ℕ) (store : Store)
    → TalliesAgree store
    → TalliesAgree (chunk json id text start_line store).1
unfolding chunk
chunk-TalliesAgree json id text start_line store agree = elim (Option-cases (load_set id store)) [
  | inl missing ↦ rw missing agree
  | inr (set, found) ↦ elim (Bool-cases (is_importing set.state)) [
    | inr closed ↦ rw (found, closed) agree
    | inl ready ↦ elim (Bool-cases (leb (length text) max_chunk_chars)) [
      | inr long ↦ rw (found, ready, long) agree
      | inl fits ↦
          rw (found, ready, fits) (apply_chunk-TalliesAgree json set text start_line store agree)
    ]
  ]
]
