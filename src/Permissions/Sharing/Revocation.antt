-- ===== src/Permissions/Sharing/Revocation.antt =====
-- What `revokeGrant` ends with, on every branch.
use qwbe.Prelude.{
  String, Bool, true, false, not, ◌≡◌, refl, sym, ap, ◌∙◌, ◌&&◌, inl, inr, some, List, [], ◌∷◌,
  arith, ◌==◌, any, filter, Bool-cases, Option-cases, any-filter, filter-filter,
}
use qwbe.Kernel.Platform.{Platform}
use qwbe.Kernel.Where.{pair}
use qwbe.Kernel.Table.{first, Row, Table, update, retire, patched}
use qwbe.Permissions.Model.{Actor, EntityRef, EntityGrant}
use qwbe.Permissions.Effect.{Outcome, success, failure}
use qwbe.Permissions.State.{State, grant_fields, grants_for, recount_shares, write_audit}
use qwbe.Permissions.State.Lookups.{grants_ref, grants_for-eq-filter}
use qwbe.Permissions.Foundation.{may_share}
use qwbe.Permissions.Sharing.{retire_grant, revoke_grant}

-- No live grant of any entity has the id.
abbrev pub IsRevoked : Platform → String → State → Type 0
IsRevoked env id s = (other : EntityRef) → any (λ g. g.id == id) (grants_for env other s) ≡ false

module _ (env : Platform) (actor : Actor) (grant_id : String) where
  retired_row :
      (other : EntityRef) (g : Row EntityGrant)
      → (grants_ref other (patched grant_id retire g) && (patched grant_id retire g).id == grant_id)
        ≡ false
  retired_row other g = ground arith

  no_live_row :
      (other : EntityRef) (t : Table EntityGrant)
      → any (λ g. grants_ref other g && g.id == grant_id) (update grant_id retire t) ≡ false
  unfolding update
  no_live_row other [] = refl
  no_live_row other (g ∷ t) = ground (arith, retired_row other g, no_live_row other t)

  retire_grant-IsRevoked :
      (ref : EntityRef) (s : State) → IsRevoked env grant_id (retire_grant env grant_id ref s)
  unfolding retire_grant recount_shares
  retire_grant-IsRevoked ref s other =
      ap (any (λ g. g.id == grant_id))
        (grants_for-eq-filter env other (retire_grant env grant_id ref s))
      ∙ any-filter (grants_ref other) (λ g. g.id == grant_id) (update grant_id retire s.grants)
      ∙ no_live_row other s.grants

  abbrev other_id : Row EntityGrant → Bool
  other_id g = not (g.id == grant_id)

  -- the live grants of an entity under other ids
  abbrev pub rest_of : EntityRef → State → List (Row EntityGrant)
  rest_of other s = filter other_id (grants_for env other s)

  rest_rows :
      (other : EntityRef) (t : Table EntityGrant)
      → filter (λ g. grants_ref other g && other_id g) (update grant_id retire t)
        ≡ filter (λ g. grants_ref other g && other_id g) t
  unfolding update
  rest_rows other [] = refl
  rest_rows other (g ∷ t) = ground (arith, rest_rows other t)

  rest_kept :
      (other ref : EntityRef) (s : State)
      → rest_of other (retire_grant env grant_id ref s) ≡ rest_of other s
  unfolding retire_grant recount_shares
  rest_kept other ref s =
      ap (filter other_id) (grants_for-eq-filter env other (retire_grant env grant_id ref s))
      ∙ filter-filter (grants_ref other) other_id (update grant_id retire s.grants)
      ∙ rest_rows other s.grants
      ∙ sym (filter-filter (grants_ref other) other_id s.grants)
      ∙ ap (filter other_id) (sym (grants_for-eq-filter env other s))

  abbrev pub RevokeEnds : State → Outcome (Unit {0}) × State → Type 0
  RevokeEnds s (success done, s') =
      IsRevoked env grant_id s'
      × ((other : EntityRef) → rest_of other s' ≡ rest_of other s)
      × ((g : Row EntityGrant) × (first env grant_fields (pair "id" grant_id) s.grants ≡ some g)
          × (may_share env actor g.body.ref s ≡ true))
  RevokeEnds s (failure e, s') = s' ≡ s

  -- `revokeGrant` either fails and writes nothing, or the grant was live, the actor had the right
  -- to share its entity, and afterwards no live grant of any entity has its id and all other grants
  -- are as before.
  pub revoke_grant-RevokeEnds : (s : State) → RevokeEnds s (revoke_grant env actor grant_id s)
  unfolding revoke_grant write_audit grants_for
  revoke_grant-RevokeEnds s =
      elim (Option-cases (first env grant_fields (pair "id" grant_id) s.grants)) [
        | inl missing ↦ rw missing refl
        | inr (g, found) ↦ elim (Bool-cases (may_share env actor g.body.ref s)) [
          | inr refused ↦ rw (found, refused) refl
          | inl may ↦
              rw (found, may)
                (
                  retire_grant-IsRevoked g.body.ref s,
                  λ other. rest_kept other g.body.ref s,
                  (g, found, may),
                )
        ]
      ]
