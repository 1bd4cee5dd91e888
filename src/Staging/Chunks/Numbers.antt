-- ===== src/Staging/Chunks/Numbers.antt =====
-- The numbers that the rows of a chunk get: each statement counts the rows again, those of the
-- statements before it included, and the offsets run on.
use mathlib.Core.List.{append_assoc, append-nil}
use qwbe.Prelude.{
  ℕ, zero, suc, ◌+◌, ◌*◌, ◌/◌, ◌≤◌, ◌<◌, String, ◌≡◌, refl, sym, ap, ◌∙◌, List, [], ◌∷◌, ◌++◌,
  eq_refl, map, filter, length, take, drop, arith, length-append, filter-append,
}
use qwbe.Staging.Chunks.{
  StagedRow, ParsedRecord, insert_rows, Store, batch_size, with_offsets, insert_from,
  insert_statements, is_of, rows_of, stage, execute, batch,
}
use qwbe.Staging.Chunks.Tallies.{
  rows_of-stage, length-with_offsets, length-take-drop, drop-shorter, length-take,
}

-- The numbers of the records from the j-th on: 500 are left out before each further batch.
abbrev pub numbers : ℕ → ℕ → ℕ → List ℕ
numbers base j zero = []
numbers base j (suc n) = (base + (j + batch_size * (j / batch_size))) ∷ numbers base (suc j) n

abbrev pub row_nums : List StagedRow → List ℕ
row_nums rows = map (λ (r : StagedRow). r.row_num) rows

row_nums-append : (xs ys : List StagedRow) → row_nums (xs ++ ys) ≡ row_nums xs ++ row_nums ys
row_nums-append [] ys = refl
row_nums-append (x ∷ xs) ys = ap (λ t. x.row_num ∷ t) (row_nums-append xs ys)

numbers-join :
    (base j j' m n t : ℕ)
    → t ≡ m + n
    → (0 < n → j' ≡ j + m)
    → numbers base j t ≡ numbers base j m ++ numbers base j' n
numbers-join base j j' zero zero t e h = cc (e, nothing)
  where
    nothing : 0 + 0 ≡ 0
    nothing = omega arith
numbers-join base j j' zero (suc n) t e h =
    let count : t ≡ suc n = omega (arith, e) in
    let start : j' ≡ j = omega (arith, h (omega arith)) in cc (count, start)
numbers-join base j j' (suc m) n zero e h = absurd (omega (arith, e))
numbers-join base j j' (suc m) n (suc t) e h =
    ap (λ xs. (base + (j + batch_size * (j / batch_size))) ∷ xs)
      (numbers-join base (suc j) j' m n t (omega (arith, e))
        (λ some_left. omega (arith, h some_left)))

position :
    (base k i : ℕ)
    → i < batch_size
    → base + batch_size * k + (batch_size * k + i)
      ≡ base + (batch_size * k + i + batch_size * ((batch_size * k + i) / batch_size))
position base k i h = grind arith

row_nums-stage :
    (set_id : String) (base k i b j : ℕ) (records : List ParsedRecord)
    → b ≡ base + batch_size * k
    → j ≡ batch_size * k + i
    → i + length records ≤ batch_size
    → row_nums (stage set_id b (with_offsets j records)) ≡ numbers base j (length records)
row_nums-stage set_id base k i b j [] e l h = refl
row_nums-stage set_id base k i b j (r ∷ records) e l h = cc (
  position base k i (omega (arith, h)),
  e,
  l,
  row_nums-stage set_id base k (suc i) b (suc j) records e (omega (arith, l)) (omega (arith, h)),
)

insert_from-numbers :
    (fuel : ℕ) (set_id : String) (base k j : ℕ) (records : List ParsedRecord) (store : Store)
    → length records ≤ fuel
    → j ≡ batch_size * k
    → (0 < length records → rows_of set_id store.rows ≡ base + batch_size * k)
    → row_nums (batch (insert_from fuel set_id j records) store).rows
      ≡ row_nums store.rows ++ numbers base j (length records)
unfolding insert_from batch execute
insert_from-numbers fuel set_id base k j [] store h l e = sym (append-nil (row_nums store.rows))
insert_from-numbers zero set_id base k j (r ∷ records) store h l e = absurd (omega (arith, h))
insert_from-numbers (suc fuel) set_id base k j (r ∷ records) store h l e =
    let first = take batch_size (r ∷ records) in
    let later = drop batch_size (r ∷ records) in
    let held = rows_of set_id store.rows in
    let staged = stage set_id held (with_offsets j first) in
    let whole = length-take-drop batch_size (r ∷ records) in
    let left = drop-shorter batch_size (r ∷ records) in
    let count : rows_of set_id (store.rows ++ staged) ≡ held + length first = ground (
      arith,
      filter-append (is_of set_id) store.rows staged,
      length-append (filter (is_of set_id) store.rows) (filter (is_of set_id) staged),
      rows_of-stage set_id set_id held (with_offsets j first),
      length-with_offsets j first,
      eq_refl set_id,
    ) in
    insert_from-numbers fuel set_id base (suc k) (j + batch_size) later
      (execute (insert_rows set_id (with_offsets j first)) store) (omega (arith, h, left))
      (omega (arith, l))
      (λ some_left. omega (arith, some_left, left, whole, count, e (omega arith)))
    ∙ ap (λ xs. xs ++ numbers base (j + batch_size) (length later))
        (row_nums-append store.rows staged
          ∙ ap (λ xs. row_nums store.rows ++ xs)
              (row_nums-stage set_id base k 0 held j first (e (omega arith)) (omega (arith, l))
                (omega (arith, length-take batch_size (r ∷ records)))))
    ∙ append_assoc (row_nums store.rows) (numbers base j (length first)) _
    ∙ ap (λ xs. row_nums store.rows ++ xs)
        (sym (
          numbers-join base j (j + batch_size) (length first) (length later) (length (r ∷ records))
            (sym whole) (λ some_left. omega (arith, some_left, left, whole))))

-- The inserts of a chunk number the j-th of its records base + j + 500 * (j / 500), where base is how
-- many rows the set had: in a chunk of at most 500 records the numbers go on without a gap, and from
-- there on every further batch leaves out 500 of them.
pub insert_statements-numbers :
    (set_id : String) (records : List ParsedRecord) (store : Store)
    → row_nums (batch (insert_statements set_id records) store).rows
      ≡ row_nums store.rows ++ numbers (rows_of set_id store.rows) 0 (length records)
unfolding insert_statements
insert_statements-numbers set_id records store =
    insert_from-numbers (length records) set_id (rows_of set_id store.rows) 0 0 records store
      (omega arith) (omega arith) (λ some_left. omega arith)
