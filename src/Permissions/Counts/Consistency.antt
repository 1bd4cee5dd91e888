-- ===== src/Permissions/Counts/Consistency.antt =====
-- The stored keys and counts agree with the live grants, and the operations keep it so.
use mathlib.Core.List.{append-nil}
use qwbe.Prelude.{
  ℕ, String, true, false, ◌≡◌, refl, sym, ap, ◌∙◌, inl, inr, some, List, [], ◌∷◌, arith, ◌==◌,
  eq_iff, filter, filter-append, Bool-cases, length, IsIn, if◌then◌else◌,
}
use qwbe.Kernel.Platform.{Platform}
use qwbe.Kernel.Table.{Row, Table, insert, update, retire}
use qwbe.Kernel.Table.Ids.{HasUniqueIds}
use qwbe.Permissions.Model.{EntityRef, Ownership, EntityGrant}
use qwbe.Permissions.State.{State, entity_key_of, grants_for, recounted, recount_shares}
use qwbe.Permissions.State.Lookups.{same_ref, owns_ref, grants_ref, grants_for-eq-filter}
use qwbe.Permissions.Counts.Recount.{recount_shares-row, recount_shares-HasUniqueIds}

-- How many live grants an entity has.
abbrev pub live_count : EntityRef → Table EntityGrant → ℕ
live_count ref grants = length (filter (grants_ref ref) grants)

abbrev pub IsCounted : Table EntityGrant → Row Ownership → Type 0
IsCounted grants r =
    (r.body.entity_key ≡ some (entity_key_of r.body.ref))
    × (r.body.shared_with_count ≡ some (live_count r.body.ref grants))

pub record IsConsistent (owners : Table Ownership) (grants : Table EntityGrant) : Type 0 where
  pub unique_owners : HasUniqueIds owners
  pub unique_grants : HasUniqueIds grants
  pub counted : (r : Row Ownership) → IsIn r owners → r.deleted ≡ false → IsCounted grants r
  pub keyed :
      (g : Row EntityGrant)
      → IsIn g grants
      → g.deleted ≡ false
      → g.body.entity_key ≡ some (entity_key_of g.body.ref)

abbrev pub StateIsConsistent : State → Type 0
StateIsConsistent s = IsConsistent s.ownership s.grants

pub same_ref_lem : (a b : EntityRef) → same_ref a b ≡ true → a ≡ b
same_ref_lem a b h = ground (
  arith,
  eq_iff a.cube b.cube,
  eq_iff a.entity_type b.entity_type,
  eq_iff a.entity_id b.entity_id,
)

module _ (env : Platform) (ref : EntityRef) (s : State) where
  IsCounted-after :
      (x r : Row Ownership)
      → (x.deleted ≡ false → same_ref x.body.ref ref ≡ false → IsCounted s.grants x)
      → r ≡ (if owns_ref ref x then recounted env ref (length (grants_for env ref s)) x else x)
      → r.deleted ≡ false
      → IsCounted s.grants r
  IsCounted-after x r others e live = elim (Bool-cases (owns_ref ref x)) [
    | inl owns ↦
        let e' = rw owns at e in
        let same : x.body.ref ≡ ref = same_ref_lem x.body.ref ref (ground arith) in
        rw (e', same)
          (
            refl,
            ap (λ (gs : List (Row EntityGrant)). some (length gs)) (grants_for-eq-filter env ref s),
          )
    | inr foreign ↦
        let e' = rw foreign at e in
        let x_live = sym (ap (λ (z : Row Ownership). z.deleted) e') ∙ live in
        rw e' (others x_live (ground arith))
  ]

  -- A recount of one entity is enough when the rows of all others agree.
  pub recount_shares-IsConsistent :
      HasUniqueIds s.ownership
      → HasUniqueIds s.grants
      → ((g : Row EntityGrant)
          → IsIn g s.grants
          → g.deleted ≡ false
          → g.body.entity_key ≡ some (entity_key_of g.body.ref))
      → ((x : Row Ownership)
          → IsIn x s.ownership
          → x.deleted ≡ false
          → same_ref x.body.ref ref ≡ false
          → IsCounted s.grants x)
      → StateIsConsistent (recount_shares env ref s)
  unfolding recount_shares
  recount_shares-IsConsistent owners grants keyed others = record {
    unique_owners = recount_shares-HasUniqueIds env ref s owners;
    unique_grants = grants;
    keyed = keyed;
    counted = λ r m live.
        let (x, mx, e) = recount_shares-row env ref s r owners m in
        IsCounted-after x r (λ l d. others x mx l d) e live;
  }

-- Of a row the count asks only for the ref, so other columns may change.
module _ (ref : EntityRef) where
  pub live_count-other :
      (g : Row EntityGrant) (grants : Table EntityGrant)
      → grants_ref ref g ≡ false
      → live_count ref (insert g grants) ≡ live_count ref grants
  unfolding insert
  live_count-other g grants h = ap length (
      filter-append (grants_ref ref) grants (g ∷ [])
      ∙ rw h (append-nil (filter (grants_ref ref) grants)))

  -- Retiring rows that are not of the entity leaves its count.
  pub filter-retire :
      (id : String) (grants : Table EntityGrant)
      → ((x : Row EntityGrant) → IsIn x grants → (x.id == id) ≡ true → grants_ref ref x ≡ false)
      → filter (grants_ref ref) (update id retire grants) ≡ filter (grants_ref ref) grants
  unfolding update
  filter-retire id [] h = refl
  filter-retire id (g ∷ grants) h =
      ground (arith, h g (inl refl), filter-retire id grants (λ x m. h x (inr m)))
