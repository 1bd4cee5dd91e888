-- ===== src/Permissions/Counts/Operations.antt =====
-- Every operation that touches ownership or grants keeps the stored keys and counts in agreement.
use qwbe.Prelude.{
  ◌+◌, String, false, ◌≡◌, refl, sym, ap, ◌∙◌, inl, inr, some, List, arith, ◌==◌, eq_iff,
  Bool-cases, length, IsIn, IsIn-map,
}
use qwbe.Kernel.Platform.{Platform}
use qwbe.Kernel.Table.{Row, insert, update, patched, retire}
use qwbe.Kernel.Table.Ids.{IsFresh, HasUniqueIds-map, HasUniqueIds-insert, IsIn-insert}
use qwbe.Permissions.Model.{Actor, EntityRef, Ownership, EntityGrant, Subject, GrantAction}
use qwbe.Permissions.State.{State, entity_key_of}
use qwbe.Permissions.State.Lookups.{same_ref, grants_ref, grants_for-eq-filter}
use qwbe.Permissions.Foundation.{claimed_row, write_claim, owned_by, write_owner}
use qwbe.Permissions.Sharing.{new_grant, write_grant, retire_grant}
use qwbe.Permissions.Counts.Consistency.{
  live_count, IsCounted, StateIsConsistent, recount_shares-IsConsistent, live_count-other,
  filter-retire,
}

-- The ids that the next inserts draw are new to their tables.
pub record DrawsFreshIds (env : Platform) (s : State) : Type 0 where
  pub owner_id : IsFresh (env.new_id "own" s.draws) s.ownership
  pub grant_id : IsFresh (env.new_id "grant" s.draws) s.grants

same_ref-flip : (a b : EntityRef) → same_ref b a ≡ false → same_ref a b ≡ false
same_ref-flip a b h = ground (
  arith,
  eq_iff a.cube b.cube,
  eq_iff b.cube a.cube,
  eq_iff a.entity_type b.entity_type,
  eq_iff b.entity_type a.entity_type,
  eq_iff a.entity_id b.entity_id,
  eq_iff b.entity_id a.entity_id,
)

module _ (env : Platform) (s : State) (consistent : StateIsConsistent s) where
  pub write_claim-IsConsistent :
      (actor : Actor) (ref : EntityRef)
      → DrawsFreshIds env s
      → StateIsConsistent (write_claim env actor ref s)
  write_claim-IsConsistent actor ref fresh = record {
    unique_owners =
        HasUniqueIds-insert (claimed_row env actor ref s) s.ownership fresh.owner_id
          consistent.unique_owners;
    unique_grants = consistent.unique_grants;
    keyed = consistent.keyed;
    counted = λ r m live. elim (IsIn-insert r (claimed_row env actor ref s) s.ownership m) [
      | inl old ↦ consistent.counted r old live
      | inr new ↦ rw new (
        refl,
        ap (λ (gs : List (Row EntityGrant)). some (length gs)) (grants_for-eq-filter env ref s),
      )
    ];
  }

  pub write_grant-IsConsistent :
      (actor : Actor) (ref : EntityRef) (subject : Subject) (actions : List GrantAction)
      → DrawsFreshIds env s
      → StateIsConsistent (write_grant env actor ref subject actions s)
  unfolding write_grant
  write_grant-IsConsistent actor ref subject actions fresh =
      let g = new_grant env actor ref subject actions s in
      recount_shares-IsConsistent env ref
        (record s { grants = insert g s.grants; draws = s.draws + 1 }) consistent.unique_owners
        (HasUniqueIds-insert g s.grants fresh.grant_id consistent.unique_grants)
        (λ x m live. elim (IsIn-insert x g s.grants m) [
          | inl old ↦ consistent.keyed x old live
          | inr new ↦ rw new refl
        ])
        (λ x m live foreign.
          let (key, count) = consistent.counted x m live in
          (
            key,
            count
                ∙ ap some (
                    sym (
                      live_count-other x.body.ref g s.grants
                        (same_ref-flip ref x.body.ref foreign))),
          ))

  retired_other :
      (g : Row EntityGrant) (ref : EntityRef)
      → IsIn g s.grants
      → same_ref ref g.body.ref ≡ false
      → live_count ref (update g.id retire s.grants) ≡ live_count ref s.grants
  retired_other g ref m foreign = ap length (
      filter-retire ref g.id s.grants (λ x mx same.
        let e : x ≡ g = consistent.unique_grants x g mx m ((eq_iff x.id g.id).0 same) in
        rw e (same_row g ref foreign)))
    where
      same_row :
          (y : Row EntityGrant) (r : EntityRef)
          → same_ref r y.body.ref ≡ false
          → grants_ref r y ≡ false
      same_row y r h = ground (arith, same_ref-flip y.body.ref r h)

  pub retire_grant-IsConsistent :
      (g : Row EntityGrant)
      → IsIn g s.grants
      → StateIsConsistent (retire_grant env g.id g.body.ref s)
  unfolding retire_grant update
  retire_grant-IsConsistent g m =
      recount_shares-IsConsistent env g.body.ref (record s { grants = update g.id retire s.grants })
        consistent.unique_owners
        (HasUniqueIds-map (patched g.id retire) s.grants (λ x. ground arith)
          consistent.unique_grants)
        (λ x mx live.
          let (y, my, e) = IsIn-map (patched g.id retire) x s.grants mx in
          retired_key g.id x y e live (consistent.keyed y my))
        (λ x mx live foreign.
          let (key, count) = consistent.counted x mx live in
          (key, count ∙ ap some (sym (retired_other g x.body.ref m foreign))))
    where
      retired_key :
          (id : String) (x y : Row EntityGrant)
          → x ≡ patched id retire y
          → x.deleted ≡ false
          → (y.deleted ≡ false → y.body.entity_key ≡ some (entity_key_of y.body.ref))
          → x.body.entity_key ≡ some (entity_key_of x.body.ref)
      retired_key id x y e live h = elim (Bool-cases (y.id == id)) [
        | inl gone ↦ cc (ap (λ (z : Row EntityGrant). z.deleted) (rw gone at e), live)
        | inr stays ↦
            let e' = rw stays at e in
            rw e' (h (sym (ap (λ (z : Row EntityGrant). z.deleted) e') ∙ live))
      ]

  pub write_owner-IsConsistent :
      (ref : EntityRef) (current : Row Ownership) (user_id : String)
      → StateIsConsistent (write_owner env ref current user_id s)
  unfolding update
  write_owner-IsConsistent ref current user_id =
      recount_shares-IsConsistent env ref
        (record s { ownership = update current.id (owned_by env user_id) s.ownership })
        (HasUniqueIds-map (patched current.id (owned_by env user_id)) s.ownership
          (λ x. ground arith) consistent.unique_owners)
        consistent.unique_grants consistent.keyed
        (λ x mx live foreign.
          let (y, my, e) = IsIn-map (patched current.id (owned_by env user_id)) x s.ownership mx in
          owned_count x y e live (consistent.counted y my))
    where
      owned_count :
          (x y : Row Ownership)
          → x ≡ patched current.id (owned_by env user_id) y
          → x.deleted ≡ false
          → (y.deleted ≡ false → IsCounted s.grants y)
          → IsCounted s.grants x
      owned_count x y e live h = elim (Bool-cases (y.id == current.id)) [
        | inl here ↦
            let e' = rw here at e in
            rw e' (h (sym (ap (λ (z : Row Ownership). z.deleted) e') ∙ live))
        | inr there ↦
            let e' = rw there at e in
            rw e' (h (sym (ap (λ (z : Row Ownership). z.deleted) e') ∙ live))
      ]
