-- ===== src/Permissions/Counts/Reconcile.antt =====
-- `reconcileCounts` reports nothing exactly where the stored keys and counts agree.
use mathlib.Core.Option.{some-injective}
use qwbe.Prelude.{
  ◌↔◌, all, all-of_IsIn, IsIn-of_all, nat_eq_iff, &&_true, IsIn-filter, IsIn-of_filter, ℕ, String,
  Bool, true, false, ◌≡◌, refl, sym, ap, ◌∙◌, ◌&&◌, inl, inr, Option, none, some, List, [], ◌∷◌,
  ◌++◌, arith, ◌==◌, eq_iff, eq_refl, filter, filter-filter, length, Bool-cases, IsIn, filter-agree,
}
use qwbe.Kernel.Table.{Row, Table, all_rows, is_live}
use qwbe.Permissions.Model.{EntityRef, Ownership, EntityGrant}
use qwbe.Permissions.State.{State, entity_key_of}
use qwbe.Permissions.State.Lookups.{same_ref, grants_ref}
use qwbe.Permissions.State.Keys.{IsPlain, entity_key_of-injective}
use qwbe.Permissions.Visibility.{grant_key, owner_key}
use qwbe.Permissions.Counts.{
  is_text, is_number, live_rows, count_at, owner_mismatches, grant_mismatches, reconcile_counts,
}
use qwbe.Permissions.Counts.Consistency.{live_count, IsCounted, same_ref_lem}

same_ref_self : (ref : EntityRef) → same_ref ref ref ≡ true
same_ref_self ref = ground (arith, eq_refl ref.cube, eq_refl ref.entity_type, eq_refl ref.entity_id)

-- Keys compare as refs do, where the refs hold no colon.
pub same_key :
    (a ref : EntityRef)
    → IsPlain ref
    → IsPlain a
    → (entity_key_of a == entity_key_of ref) ≡ same_ref a ref
same_key a ref p q = elim (Bool-cases (same_ref a ref)) [
  | inl same ↦ rw (same, same_ref_lem a ref same) (eq_refl (entity_key_of ref))
  | inr other ↦ elim (Bool-cases (entity_key_of a == entity_key_of ref)) [
    | inr keys ↦ rw (other, keys) refl
    | inl keys ↦
        let e =
          entity_key_of-injective a ref q p
            ((eq_iff (entity_key_of a) (entity_key_of ref)).0 keys) in
        absurd (cc (other, same_ref_self ref, e))
  ]
]

module _ (grants : Table EntityGrant) where
  -- Counting by key counts by entity, where the refs hold no colon.
  count_at-eq-live_count :
      (ref : EntityRef)
      → IsPlain ref
      → ((g : Row EntityGrant) → IsIn g grants → IsPlain g.body.ref)
      → count_at (entity_key_of ref) (live_rows grants) ≡ live_count ref grants
  unfolding count_at all_rows
  count_at-eq-live_count ref p plain = ap length (
      filter-filter is_live (λ g. grant_key g == entity_key_of ref) (filter is_live grants)
      ∙ filter-filter is_live (λ g. is_live g && grant_key g == entity_key_of ref) grants
      ∙ filter-agree (λ g. is_live g && (is_live g && grant_key g == entity_key_of ref))
          (grants_ref ref) grants (λ g m. ground (arith, same_key g.body.ref ref p (plain g m))))

-- What the two tests of `reconcileCounts` mean.
is_text_iff : (o : Option String) (t : String) → (is_text o t ≡ true) ↔ (o ≡ some t)
is_text_iff none t = (λ h. cc, λ h. cc)
is_text_iff (some k) t =
    (λ h. ap some ((eq_iff k t).0 h), λ h. (eq_iff k t).1 (some-injective k t h))

is_number_iff : (o : Option ℕ) (n : ℕ) → (is_number o n ≡ true) ↔ (o ≡ some n)
is_number_iff none n = (λ h. cc, λ h. cc)
is_number_iff (some k) n =
    (λ h. ap some ((nat_eq_iff k n).0 h), λ h. (nat_eq_iff k n).1 (some-injective k n h))

-- A row agrees with the grants as counted by key.
abbrev agrees_with : List (Row EntityGrant) → Row Ownership → Bool
agrees_with grants r =
    is_text r.body.entity_key (owner_key r)
    && is_number r.body.shared_with_count (count_at (owner_key r) grants)

abbrev has_key : Row EntityGrant → Bool
has_key g = is_text g.body.entity_key (grant_key g)

owner_mismatches-all :
    (grants : List (Row EntityGrant)) (rows : List (Row Ownership))
    → (owner_mismatches grants rows ≡ []) ↔ (all (agrees_with grants) rows ≡ true)
unfolding owner_mismatches
owner_mismatches-all grants [] = (λ h. refl, λ h. refl)
owner_mismatches-all grants (r ∷ rows) = elim (Bool-cases (agrees_with grants r)) [
  | inl good ↦ rw good (owner_mismatches-all grants rows)
  | inr bad ↦ rw bad (λ h. cc, λ h. cc)
]

grant_mismatches-all :
    (grants rows : List (Row EntityGrant))
    → (grant_mismatches grants rows ≡ []) ↔ (all has_key rows ≡ true)
unfolding grant_mismatches
grant_mismatches-all grants [] = (λ h. refl, λ h. refl)
grant_mismatches-all grants (g ∷ rows) = elim (Bool-cases (has_key g)) [
  | inl good ↦ rw good (grant_mismatches-all grants rows)
  | inr bad ↦ rw bad (λ h. cc, λ h. cc)
]

append-nil_iff : {A : Type 0} (xs ys : List A) → (xs ++ ys ≡ []) ↔ ((xs ≡ []) × (ys ≡ []))
append-nil_iff [] ys = (λ h. (refl, h), λ h. h.1)
append-nil_iff (x ∷ xs) ys = (λ h. cc, λ h. cc h.0)

IsIn-live_rows :
    {A : Type 0} (r : Row A) (t : Table A) → IsIn r t → r.deleted ≡ false → IsIn r (live_rows t)
unfolding all_rows
IsIn-live_rows r t m live =
    IsIn-filter is_live r (filter is_live t) (IsIn-filter is_live r t m (ground arith))
      (ground arith)

IsIn-of_live_rows :
    {A : Type 0} (r : Row A) (t : Table A) → IsIn r (live_rows t) → IsIn r t × (r.deleted ≡ false)
unfolding all_rows
IsIn-of_live_rows r t m =
    let (m', live) = IsIn-of_filter is_live r (filter is_live t) m in
    ((IsIn-of_filter is_live r t m').0, ground arith)

-- No live row disagrees.
abbrev pub RowsAgree : State → Type 0
RowsAgree s =
    ((r : Row Ownership) → IsIn r s.ownership → r.deleted ≡ false → IsCounted s.grants r)
    × ((g : Row EntityGrant)
        → IsIn g s.grants
        → g.deleted ≡ false
        → g.body.entity_key ≡ some (entity_key_of g.body.ref))

abbrev pub RefsArePlain : State → Type 0
RefsArePlain s =
    ((r : Row Ownership) → IsIn r s.ownership → IsPlain r.body.ref)
    × ((g : Row EntityGrant) → IsIn g s.grants → IsPlain g.body.ref)

module _ (s : State) (plain : RefsArePlain s) where
  count-at :
      (r : Row Ownership)
      → IsIn r s.ownership
      → count_at (owner_key r) (live_rows s.grants) ≡ live_count r.body.ref s.grants
  count-at r m = count_at-eq-live_count s.grants r.body.ref (plain.0 r m) plain.1

  agrees_iff :
      (r : Row Ownership)
      → IsIn r s.ownership
      → (agrees_with (live_rows s.grants) r ≡ true) ↔ IsCounted s.grants r
  agrees_iff r m = (
    λ h.
        let (k, n) = &&_true (is_text r.body.entity_key (owner_key r)) _ h in
        (
          (is_text_iff r.body.entity_key (owner_key r)).0 k,
          (is_number_iff r.body.shared_with_count _).0 n ∙ ap some (count-at r m),
        ),
    λ h.
        rw
          (
            (is_text_iff r.body.entity_key (owner_key r)).1 h.0,
            (is_number_iff r.body.shared_with_count _).1 (h.1 ∙ ap some (sym (count-at r m))),
          )
          refl,
  )

  -- Where no ref holds a colon: `reconcileCounts` reports nothing exactly if every live ownership row
  -- has its key and the number of the live grants of its entity, and every live grant has its key.
  pub reconcile_counts_iff : (reconcile_counts s ≡ []) ↔ RowsAgree s
  unfolding reconcile_counts
  reconcile_counts_iff =
      let gs = live_rows s.grants in
      let os = live_rows s.ownership in
      let split = append-nil_iff (owner_mismatches gs os) (grant_mismatches gs gs) in
      let owners = owner_mismatches-all gs os in
      let keys = grant_mismatches-all gs gs in
      (
        λ h. (
          λ r m live. (agrees_iff r m).0 (
              IsIn-of_all (agrees_with gs) r os (owners.0 ((split.0 h).0))
                (IsIn-live_rows r s.ownership m live)),
          λ g m live. (is_text_iff g.body.entity_key (grant_key g)).0 (
              IsIn-of_all has_key g gs (keys.0 ((split.0 h).1)) (IsIn-live_rows g s.grants m live)),
        ),
        λ h. split.1 (
          owners.1 (
              all-of_IsIn (agrees_with gs) os (λ r m.
                let (m', live) = IsIn-of_live_rows r s.ownership m in
                (agrees_iff r m').1 (h.0 r m' live))),
          keys.1 (
              all-of_IsIn has_key gs (λ g m.
                let (m', live) = IsIn-of_live_rows g s.grants m in
                (is_text_iff g.body.entity_key (grant_key g)).1 (h.1 g m' live))),
        ),
      )
