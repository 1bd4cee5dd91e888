-- ===== src/Echo/Paging.antt =====
-- Reading the feed page after page by its cursor.
use mathlib.Core.Option.{some-injective}
use qwbe.Prelude.{
  ℕ, zero, suc, ◌+◌, ◌<◌, ◌≤◌, Bool, ◌≡◌, refl, sym, ap, ◌∙◌, inl, inr, Option, none, some, List,
  [], ◌∷◌, ◌++◌, ◌&&◌, filter, filter-append, filter-agree, filter-filter, take, drop, length, ltb,
  arith, Bool-cases, Option-cases,
}
use qwbe.Echo.{ActivityRow, FeedPage, last_id, visible_page, before, page_size, page}

-- Every id is below the number.
abbrev AllBelow : ℕ → List ActivityRow → Type 0
AllBelow id [] = Unit
AllBelow id (row ∷ rows) = (row.id < id) × AllBelow id rows

-- The newest row stands first: ids fall along the log.
abbrev pub IsFalling : List ActivityRow → Type 0
IsFalling [] = Unit
IsFalling (row ∷ rows) = AllBelow row.id rows × IsFalling rows

filter_below :
    (id : ℕ) (rows : List ActivityRow) → AllBelow id rows → filter (before (some id)) rows ≡ rows
filter_below id [] h = refl
filter_below id (row ∷ rows) h = ground (arith, h.0, filter_below id rows h.1)

AllBelow-filter :
    (id : ℕ) (p : ActivityRow → Bool) (rows : List ActivityRow)
    → AllBelow id rows
    → AllBelow id (filter p rows)
AllBelow-filter id p [] h = tt
AllBelow-filter id p (row ∷ rows) h = elim (Bool-cases (p row)) [
  | inl kept ↦ rw kept (h.0, AllBelow-filter id p rows h.1)
  | inr gone ↦ rw gone (AllBelow-filter id p rows h.1)
]

IsFalling-filter :
    (p : ActivityRow → Bool) (rows : List ActivityRow) → IsFalling rows → IsFalling (filter p rows)
IsFalling-filter p [] h = tt
IsFalling-filter p (row ∷ rows) h = elim (Bool-cases (p row)) [
  | inl kept ↦ rw kept (AllBelow-filter row.id p rows h.0, IsFalling-filter p rows h.1)
  | inr gone ↦ rw gone (IsFalling-filter p rows h.1)
]

-- What is asked for before an id is below it.
AllBelow-before : (id : ℕ) (rows : List ActivityRow) → AllBelow id (filter (before (some id)) rows)
AllBelow-before id [] = tt
AllBelow-before id (row ∷ rows) = elim (Bool-cases (before (some id) row)) [
  | inl kept ↦ rw kept (ground (arith, kept), AllBelow-before id rows)
  | inr gone ↦ rw gone (AllBelow-before id rows)
]

-- The cursor of a page is below what all its rows are below.
last_id-below :
    (n id r : ℕ) (rows : List ActivityRow)
    → AllBelow id rows
    → last_id (take n rows) ≡ some r
    → r < id
last_id-below zero id r rows h e = absurd (cc)
last_id-below (suc n) id r [] h e = absurd (cc)
last_id-below (suc zero) id r (row ∷ rows) h e = ground (arith, h.0, some-injective row.id r e)
last_id-below (suc (suc n)) id r (row ∷ []) h e = ground (arith, h.0, some-injective row.id r e)
last_id-below (suc (suc n)) id r (row ∷ next ∷ rows) h e =
    last_id-below (suc n) id r (next ∷ rows) h.1 e

-- What lies before the cursor of a page is what the page left.
before-last_id :
    (n r : ℕ) (rows : List ActivityRow)
    → IsFalling rows
    → last_id (take n rows) ≡ some r
    → filter (before (some r)) rows ≡ drop n rows
before-last_id zero r rows h e = absurd (cc)
before-last_id (suc n) r [] h e = absurd (cc)
before-last_id (suc zero) r (row ∷ rows) h e =
    let this : row.id ≡ r = some-injective row.id r e in
    let rest : filter (before (some r)) rows ≡ rows =
      rw (sym this) (filter_below row.id rows h.0) in
    ground (arith, this, rest)
before-last_id (suc (suc n)) r (row ∷ []) h e = ground (arith, some-injective row.id r e)
before-last_id (suc (suc n)) r (row ∷ next ∷ rows) h e =
    let rest = before-last_id (suc n) r (next ∷ rows) h.1 e in
    let below = last_id-below (suc n) row.id r (next ∷ rows) h.0 e in
    elim (Bool-cases (ltb row.id r)) [
      | inl newer ↦ absurd (ground (arith, newer, below))
      | inr older ↦ rw older rest
    ]

filter_before_none : (rows : List ActivityRow) → filter (before none) rows ≡ rows
filter_before_none [] = refl
filter_before_none (row ∷ rows) = ap (◌∷◌ row) (filter_before_none rows)

-- The rows behind the cursor of a page that begins at one are what that page left.
behind-last_id :
    (n r : ℕ) (b : Option ℕ) (log : List ActivityRow)
    → IsFalling log
    → last_id (take n (filter (before b) log)) ≡ some r
    → filter (before (some r)) log ≡ drop n (filter (before b) log)
behind-last_id n r none log h e =
    let whole = filter_before_none log in rw whole (before-last_id n r log h (rw whole at e))
behind-last_id n r (some id) log h e =
    let below = last_id-below n id r (filter (before (some id)) log) (AllBelow-before id log) e in
    filter-agree (before (some r)) (λ x. before (some id) x && before (some r) x) log
      (λ x m. ground (arith, below))
    ∙ sym (filter-filter (before (some id)) (before (some r)) log)
    ∙ before-last_id n r (filter (before (some id)) log) (IsFalling-filter (before (some id)) log h)
        e

take-drop : (n : ℕ) (rows : List ActivityRow) → take n rows ++ drop n rows ≡ rows
take-drop zero rows = refl
take-drop (suc n) [] = refl
take-drop (suc n) (row ∷ rows) = ap (◌∷◌ row) (take-drop n rows)

take-nil : (n : ℕ) → take {A = ActivityRow} n [] ≡ []
take-nil zero = refl
take-nil (suc n) = refl

length-drop : (n : ℕ) (rows : List ActivityRow) → length (drop n rows) ≤ length rows
length-drop zero rows = omega arith
length-drop (suc n) [] = omega arith
length-drop (suc n) (row ∷ rows) = omega (arith, length-drop n rows)

drop-shorter :
    (n r : ℕ) (rows : List ActivityRow)
    → last_id (take n rows) ≡ some r
    → length (drop n rows) < length rows
drop-shorter zero r rows e = absurd (cc)
drop-shorter (suc n) r [] e = absurd (cc)
drop-shorter (suc n) r (row ∷ rows) e = omega (arith, length-drop n rows)

last_id-cons : (row : ActivityRow) (rows : List ActivityRow) → last_id (row ∷ rows) ≡ none → ⊥
last_id-cons row [] e = cc
last_id-cons row (next ∷ rows) e = last_id-cons next rows e

-- A page without a cursor is empty, and so is what it was cut from.
no_cursor : (n : ℕ) (rows : List ActivityRow) → 1 ≤ n → last_id (take n rows) ≡ none → rows ≡ []
no_cursor zero rows h e = absurd (omega (arith, h))
no_cursor (suc n) [] h e = refl
no_cursor (suc n) (row ∷ rows) h e = absurd (last_id-cons row (take n rows) e)

page_size-positive : (limit : ℕ) → 1 ≤ page_size limit
page_size-positive limit = omega arith

module _ (is_visible : ActivityRow → Bool) (log : List ActivityRow) (limit : ℕ) where
  abbrev followed : (Option ℕ → List ActivityRow) → FeedPage → Option ℕ → List ActivityRow
  followed read_on found none = found.rows
  followed read_on found (some id) = found.rows ++ read_on (some id)

  -- Asks for pages, each before the last cursor, until one has no cursor.
  unfoldable pub read_pages : ℕ → Option ℕ → List ActivityRow
  read_pages zero b = []
  read_pages (suc fuel) b =
      let found = visible_page (page log limit b) is_visible in
      followed (read_pages fuel) found found.next_before

  read_pages-rest :
      (fuel : ℕ) (b : Option ℕ)
      → IsFalling log
      → length (filter (before b) log) < fuel
      → read_pages fuel b ≡ filter is_visible (filter (before b) log)
  unfolding read_pages visible_page page
  read_pages-rest zero b h k = absurd (omega (arith, k))
  read_pages-rest (suc fuel) b h k =
      let rest = filter (before b) log in
      let n = page_size limit in
      elim (Option-cases (last_id (take n rest))) [
        | inl e ↦
            rw (e, no_cursor n rest (page_size-positive limit) e)
              (ap (filter is_visible) (take-nil n))
        | inr (r, e) ↦
            let behind = behind-last_id n r b log h e in
            let more =
              read_pages-rest fuel (some r) h
                (rw behind (omega (arith, k, drop-shorter n r rest e))) in
            rw (e, more, behind)
              (sym (filter-append is_visible (take n rest) (drop n rest))
                ∙ ap (filter is_visible) (take-drop n rest))
      ]

  -- In a log whose ids fall, following the cursor of each page from the first one shows exactly the
  -- visible rows, each once and in the order of the log, and ends after at most one page more than
  -- the log has rows; whatever limit is asked for, and also if whole pages are hidden.
  pub read_pages-whole : IsFalling log → read_pages (length log + 1) none ≡ filter is_visible log
  read_pages-whole h =
      let whole = filter_before_none log in
      read_pages-rest (length log + 1) none h (rw whole (omega arith))
      ∙ ap (filter is_visible) whole
