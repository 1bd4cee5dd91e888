-- ===== src/Kernel/Table.antt =====
-- core/src/kernel/store-contract.ts and core/src/pg/store.ts: one table of a cube, as the list of
-- its rows in the order of `ORDER BY created_at ASC`, and the operations that read and write it.
-- The columns `version` and `_sort`, the outbox and the activity log are not modelled.
pub mod Laws
pub mod Ids
use mathlib.Core.Option
use qwbe.Prelude.{
  ℕ, String, Bool, false, true, not, Option, List, [], ◌∷◌, ◌++◌, ◌==◌, filter, head, map, length,
  take, drop, if◌then◌else◌,
}
use qwbe.Kernel.Platform.{Platform}
use qwbe.Kernel.Paging.{PageRequest}
use qwbe.Kernel.Where.{RowView, Where, matches}

-- `decode`: the meta columns beside the body.
pub record Row {ℓ} (A : Type ℓ) : Type ℓ where
  pub id : String
  pub kind : String
  pub created_at : String
  pub deleted : Bool
  pub body : A

abbrev pub Table {ℓ} : Type ℓ → Type ℓ
Table A = List (Row A)

-- `Page`, without the name of the ordering.
pub record Page {ℓ} (A : Type ℓ) : Type ℓ where
  pub rows : List A
  pub total : ℕ
  pub offset : ℕ
  pub limit : ℕ

-- A body's JSON fields as text, what `body ->> field` shows.
abbrev pub FieldsOf {ℓ} : Type ℓ → Type ℓ
FieldsOf A = A → String → Option String

module _ {ℓ} {A : Type ℓ} where
  abbrev pub view : FieldsOf A → Row A → RowView
  view fields r = record {
    id = r.id;
    kind = r.kind;
    created_at = r.created_at;
    deleted = r.deleted;
    body = fields r.body;
  }

  abbrev pub is_live : Row A → Bool
  is_live r = not r.deleted

  -- `store.where`: every live row that matches, oldest first
  unfoldable pub rows_where : Platform → FieldsOf A → Where → Table A → List (Row A)
  rows_where env fields w t = filter (λ r. matches env w (view fields r)) t

  -- `store.first`: the oldest of these
  unfoldable pub first : Platform → FieldsOf A → Where → Table A → Option (Row A)
  unfolding rows_where
  first env fields w t = head (rows_where env fields w t)

  -- `store.all`
  unfoldable pub all_rows : Table A → List (Row A)
  all_rows t = filter is_live t

  -- `store.byId`
  unfoldable pub by_id : String → Table A → Option (Row A)
  by_id id t = head (filter (λ r. if r.deleted then false else r.id == id) t)

  -- `store.page`: the rows that match, in an order, from `offset`, at most `limit` of them
  unfoldable pub page_rows :
      Platform
      → FieldsOf A
      → Where
      → (order : List (Row A) → List (Row A)) → PageRequest
      → Table A
      → Page (Row A)
  unfolding rows_where
  page_rows env fields w order request t = record {
    rows = take request.limit (drop request.offset (order (rows_where env fields w t)));
    total = length (rows_where env fields w t);
    offset = request.offset;
    limit = request.limit;
  }

  -- `store.count`
  unfoldable pub count_rows : Table A → ℕ
  unfolding all_rows
  count_rows t = length (all_rows t)

  -- `store.insert`: the row that was drawn an id, behind the others
  unfoldable pub insert : Row A → Table A → Table A
  insert r t = t ++ r ∷ []

  abbrev pub patched : String → (Row A → Row A) → Row A → Row A
  patched id patch r = if r.id == id then patch r else r

  -- `store.update`: the patch of the row with the id, live or not; with no such row nothing changes
  unfoldable pub update : String → (Row A → Row A) → Table A → Table A
  update id patch t = map (patched id patch) t

  -- the patch `{ deleted: true }`
  abbrev pub retire : Row A → Row A
  retire r = record r { deleted = true }
