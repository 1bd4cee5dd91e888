-- ===== src/Permissions/Foundation/Owners.antt =====
-- What `claim`, `transferOwnership` and `authorize` do to ownership, on every branch.

use qwbe.Prelude.{
  ℕ, String, true, false, ◌≡◌, refl, sym, ap, ◌∙◌, none, some, List, [], ◌∷◌, ◌++◌, arith, eq_refl,
  any, find, is_some, find-concat, find-map, is_some-find, length,
}
use qwbe.Kernel.Platform.{Platform}
use qwbe.Kernel.Where.{pairs}
use qwbe.Kernel.Table.{rows_where, Row, Table, insert, update, patched}
use qwbe.Permissions.Model.{Actor, EntityRef, Ownership, GrantAction}
use qwbe.Permissions.Effect.{failure, conflict}
use qwbe.Permissions.State.{
  State, ownership_fields, ref_pairs, ownership_of, grants_for, recounted, recount_rows,
  recount_shares, write_audit,
}
use qwbe.Permissions.State.Lookups.{same_ref, owns_ref, ownership_of-eq-find}
use qwbe.Permissions.Foundation.{is_owner, decide, claimed_row, claim}

module _ (env : Platform) (actor : Actor) (ref : EntityRef) where
  -- An owner may do everything.
  pub decide-owner :
      (action : GrantAction) (s : State)
      → is_owner actor.user_id (ownership_of env ref s) ≡ true
      → (decide env actor ref action s).allowed ≡ true
  unfolding decide
  decide-owner action s h = ground arith

  -- Claiming an entity that has an owner is a conflict and writes nothing.
  pub claim-conflict :
      (s : State) {r : Row Ownership}
      → ownership_of env ref s ≡ some r
      → claim env actor ref s ≡ (failure conflict, s)
  unfolding claim
  claim-conflict s h = ground arith

  unclaimed : (s : State) → ownership_of env ref s ≡ none → any (owns_ref ref) s.ownership ≡ false
  unclaimed s h =
      sym (is_some-find (owns_ref ref) s.ownership)
      ∙ ap is_some (sym (ownership_of-eq-find env ref s) ∙ h)

  claim-table :
      (s : State)
      → ownership_of env ref s ≡ none
      → (claim env actor ref s).1.ownership ≡ s.ownership ++ claimed_row env actor ref s ∷ []
  unfolding claim write_audit insert
  claim-table s h = rw h

  owns_self : (s : State) → owns_ref ref (claimed_row env actor ref s) ≡ true
  owns_self s = ground (arith, eq_refl ref.cube, eq_refl ref.entity_type, eq_refl ref.entity_id)

  claim-owner :
      (s : State)
      → ownership_of env ref s ≡ none
      → ownership_of env ref (claim env actor ref s).1 ≡ some (claimed_row env actor ref s)
  claim-owner s h =
      ownership_of-eq-find env ref (claim env actor ref s).1
      ∙ ap (find (owns_ref ref)) (claim-table s h)
      ∙ find-concat (owns_ref ref) s.ownership (claimed_row env actor ref s)
      ∙ rw (unclaimed s h, owns_self s)

  claim-others :
      (s : State) (other : EntityRef)
      → ownership_of env ref s ≡ none
      → same_ref ref other ≡ false
      → ownership_of env other (claim env actor ref s).1 ≡ ownership_of env other s
  claim-others s other h d =
      ownership_of-eq-find env other (claim env actor ref s).1
      ∙ ap (find (owns_ref other)) (claim-table s h)
      ∙ find-concat (owns_ref other) s.ownership (claimed_row env actor ref s)
      ∙ rw d (
          ground
            (arith, is_some-find (owns_ref other) s.ownership, ownership_of-eq-find env other s))

  -- Claiming an entity that has no owner makes the actor its owner, for whom every action is then
  -- allowed, and leaves the owner of every other entity.
  pub claim-owns :
      (s : State)
      → ownership_of env ref s ≡ none
      → let s' : State = (claim env actor ref s).1 in
        (is_owner actor.user_id (ownership_of env ref s') ≡ true)
        × ((action : GrantAction) → (decide env actor ref action s').allowed ≡ true)
        × ((other : EntityRef)
            → same_ref ref other ≡ false
            → ownership_of env other s' ≡ ownership_of env other s)
  claim-owns s h =
      let owns : is_owner actor.user_id (ownership_of env ref (claim env actor ref s).1) ≡ true =
        rw (claim-owner s h) (eq_refl actor.user_id) in
      (
        owns,
        λ action. decide-owner action (claim env actor ref s).1 owns,
        λ other d. claim-others s other h d,
      )

module _ (env : Platform) (ref : EntityRef) (user_id : String) where
  -- A recount leaves the owner of every row.
  owner-recount_rows :
      (other : EntityRef) (n : ℕ) (rows : List (Row Ownership)) (t : Table Ownership)
      → is_owner user_id (find (owns_ref other) (recount_rows env ref n rows t))
        ≡ is_owner user_id (find (owns_ref other) t)
  unfolding recount_rows update
  owner-recount_rows other n [] t = refl
  owner-recount_rows other n (r ∷ rows) t =
      owner-recount_rows other n rows (update r.id (recounted env ref n) t)
      ∙ ap (is_owner user_id)
          (find-map (owns_ref other) (patched r.id (recounted env ref n)) t (λ x. ground arith))
      ∙ ground arith

  pub owner-recount_shares :
      (other : EntityRef) (s : State)
      → is_owner user_id (ownership_of env other (recount_shares env ref s))
        ≡ is_owner user_id (ownership_of env other s)
  unfolding recount_shares
  owner-recount_shares other s =
      ap (is_owner user_id) (ownership_of-eq-find env other (recount_shares env ref s))
      ∙ owner-recount_rows other (length (grants_for env ref s))
          (rows_where env (ownership_fields env) (pairs (ref_pairs ref)) s.ownership) s.ownership
      ∙ ap (is_owner user_id) (sym (ownership_of-eq-find env other s))
