-- ===== src/Permissions/Counts/Recount.antt =====
-- `recountShares` writes the key and the live count to the rows of its entity and to no other.
use mathlib.Core.Path.{ap₂}
use qwbe.Prelude.{
  ℕ, Bool, ◌≡◌, refl, sym, ap, ◌∙◌, inl, inr, List, [], ◌∷◌, arith, ◌==◌, eq_iff, eq_refl, any,
  filter, map, Bool-cases, length, IsIn, IsIn-filter, IsIn-of_filter, any-of_IsIn, IsIn-of_any,
  IsIn-map, if◌then◌else◌,
}
use qwbe.Kernel.Platform.{Platform}
use qwbe.Kernel.Where.{pairs}
use qwbe.Kernel.Table.Ids.{HasUniqueIds, HasUniqueIds-map}
use qwbe.Kernel.Table.{Row, Table, update, patched, rows_where}
use qwbe.Permissions.Model.{EntityRef, Ownership}
use qwbe.Permissions.State.{
  State, ownership_fields, ref_pairs, grants_for, recounted, recount_rows, recount_shares,
}
use qwbe.Permissions.State.Lookups.{owns_ref, ownership_rows-eq-filter}

module _ (env : Platform) (ref : EntityRef) (n : ℕ) where
  abbrev has_id : List (Row Ownership) → Row Ownership → Bool
  has_id rows r = any (λ (x : Row Ownership). r.id == x.id) rows

  abbrev recounted_if : List (Row Ownership) → Row Ownership → Row Ownership
  recounted_if rows r = if has_id rows r then recounted env ref n r else r

  recounted_step :
      (x : Row Ownership) (rows : List (Row Ownership)) (r : Row Ownership)
      → recounted_if rows (patched x.id (recounted env ref n) r) ≡ recounted_if (x ∷ rows) r
  recounted_step x rows r = elim (Bool-cases (r.id == x.id)) [
    | inr other ↦ rw other refl
    | inl same ↦
        rw same
          (elim (Bool-cases (has_id rows r)) [ inl more ↦ rw more refl | inr done ↦ rw done refl ])
  ]

  -- The loop of updates is one map: the rows whose id is among the owners' are recounted.
  recount_rows-eq-map :
      (rows : List (Row Ownership)) (t : Table Ownership)
      → recount_rows env ref n rows t ≡ map (recounted_if rows) t
  unfolding recount_rows update
  recount_rows-eq-map [] t = sym (map-same t)
    where
      map-same : (u : Table Ownership) → map (recounted_if []) u ≡ u
      map-same [] = refl
      map-same (r ∷ u) = ap (λ v. r ∷ v) (map-same u)
  recount_rows-eq-map (x ∷ rows) t =
      recount_rows-eq-map rows (update x.id (recounted env ref n) t) ∙ map-step t
    where
      map-step :
          (u : Table Ownership)
          → map (recounted_if rows) (update x.id (recounted env ref n) u)
            ≡ map (recounted_if (x ∷ rows)) u
      map-step [] = refl
      map-step (r ∷ u) = ap₂ (λ v w. v ∷ w) (recounted_step x rows r) (map-step u)

  -- With unique ids these are the live rows of the entity.
  has_id-eq-owns :
      (t : Table Ownership) (r : Row Ownership)
      → HasUniqueIds t
      → IsIn r t
      → has_id (filter (owns_ref ref) t) r ≡ owns_ref ref r
  has_id-eq-owns t r unique m = elim (Bool-cases (owns_ref ref r)) [
    | inl owns ↦
        any-of_IsIn (λ (x : Row Ownership). r.id == x.id) r (filter (owns_ref ref) t)
          (IsIn-filter (owns_ref ref) r t m owns) (eq_refl r.id)
        ∙ sym owns
    | inr foreign ↦ elim (Bool-cases (has_id (filter (owns_ref ref) t) r)) [
      | inr none' ↦ none' ∙ sym foreign
      | inl some' ↦
          let (x, inside, same) =
            IsIn-of_any (λ (x : Row Ownership). r.id == x.id) (filter (owns_ref ref) t) some' in
          let (there, owns) = IsIn-of_filter (owns_ref ref) x t inside in
          let e = unique r x m there ((eq_iff r.id x.id).0 same) in
          absurd (cc (ap (owns_ref ref) e, owns, foreign))
    ]
  ]

module _ (env : Platform) (ref : EntityRef) (s : State) where
  -- After a recount every ownership row is a row of before, recounted if it is a live row of the
  -- entity and else unchanged.
  pub recount_shares-row :
      (r : Row Ownership)
      → HasUniqueIds s.ownership
      → IsIn r (recount_shares env ref s).ownership
      → (x : Row Ownership) × IsIn x s.ownership
        × (r ≡ (if owns_ref ref x then recounted env ref (length (grants_for env ref s)) x else x))
  unfolding recount_shares
  recount_shares-row r unique m =
      let n = length (grants_for env ref s) in
      let owners = filter (owns_ref ref) s.ownership in
      let (x, mx, e) =
        IsIn-map (recounted_if env ref n owners) r s.ownership
          (rw (ownership_rows-eq-filter env ref s, recount_rows-eq-map env ref n) at m) in
      (
        x,
        mx,
        e
            ∙ ap (λ (b : Bool). if b then recounted env ref n x else x)
                (has_id-eq-owns env ref n s.ownership x unique mx),
      )

  pub recount_shares-HasUniqueIds :
      HasUniqueIds s.ownership → HasUniqueIds (recount_shares env ref s).ownership
  unfolding recount_shares
  recount_shares-HasUniqueIds unique =
      let n = length (grants_for env ref s) in
      let owners = rows_where env (ownership_fields env) (pairs (ref_pairs ref)) s.ownership in
      rw recount_rows-eq-map
        (HasUniqueIds-map (recounted_if env ref n owners) s.ownership (λ x. ground arith) unique)
