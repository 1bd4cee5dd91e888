-- ===== src/Permissions/Foundation.antt =====
-- core/src/cubes/permissions/foundation.ts: who may do what with an entity, and its ownership.
pub mod Scopes
pub mod Owners
pub mod Transfers
use qwbe.Prelude.{
  ℕ, String, Bool, true, false, not, ◌&&◌, ◌||◌, ◌+◌, Option, none, some, List, [], ◌∷◌, ◌++◌, ◌==◌,
  map, filter, find, contains, join, length, is_some, if◌then◌else◌,
}
use qwbe.Kernel.Platform.{Platform}
use qwbe.Kernel.Where.{ListWhere, list_where, no_groups, no_not, Where, pairs, full}
use qwbe.Kernel.Table.{Row, rows_where, insert, update}
use qwbe.Permissions.Model.{
  Actor, EntityRef, GrantAction, transfer, includes, names_user, action_name, Ownership,
  EntityGrant, AccessDecision, Source, superadmin, cube_admin, owner, grant, no_source,
}
use qwbe.Permissions.Effect.{
  Effect, PermissionError, not_found, conflict, forbidden, ◌>>=◌, ◌>>◌, succeed, fail, gets, modify,
  ensure,
}
use qwbe.Permissions.State
use qwbe.Permissions.State.{
  State, AuditResult, allowed, denied, done, Trace, null, claimed, decision, returned,
  ownership_fields, grant_fields, entity_key_of, ownership_of, is_cube_admin, grants_for,
  group_ids_for, recount_shares, new_row, write_audit,
}

pub record Scope : Type 0 where
  pub cube : String
  pub entity_type : String

abbrev pub entity : Scope → String → EntityRef
entity scope id = record { cube = scope.cube; entity_type = scope.entity_type; entity_id = id }

-- `grants`: whether a grant gives the action to the user, directly or through one of the groups
abbrev pub gives : String → List String → GrantAction → Row EntityGrant → Bool
gives user_id groups action g =
    includes g.body.actions action && names_user user_id groups g.body.subject

abbrev pub is_owner : String → Option (Row Ownership) → Bool
is_owner user_id none = false
is_owner user_id (some r) = r.body.owner_id == user_id

abbrev pub scope_pairs : Scope → List (String × String)
scope_pairs scope = ("cube", scope.cube) ∷ ("entityType", scope.entity_type) ∷ []

abbrev pub entity_id_of : Row Ownership → String
entity_id_of r = r.body.ref.entity_id

-- `oldestOwnedBy`: the ids whose first row belongs to the user; `seen` are the ids met so far
unfoldable pub oldest_owned_by : List String → String → List (Row Ownership) → List String
oldest_owned_by seen user_id [] = []
oldest_owned_by seen user_id (r ∷ rows) =
    let rest = oldest_owned_by (entity_id_of r ∷ seen) user_id rows in
    if contains seen (entity_id_of r)
    then oldest_owned_by seen user_id rows
    else if r.body.owner_id == user_id
    then entity_id_of r ∷ rest
    else rest

-- What a scope shows to an actor: every entity, or the ids listed.
pub data Visible : Type 0 where
  everything : Visible
  only : List String → Visible

abbrev pub sees : Visible → String → Bool
sees everything id = true
sees (only ids) id = contains ids id

module _ (env : Platform) where
  -- the two lookups of `ownershipRowsOf`
  unfoldable pub own_rows : Scope → String → State → List (Row Ownership)
  own_rows scope user_id s =
      rows_where env (ownership_fields env)
        (pairs
          (("cube", scope.cube) ∷ ("entityType", scope.entity_type) ∷ ("ownerId", user_id) ∷ []))
        s.ownership

  abbrev pub rows_of_ids : Scope → List String → Where
  rows_of_ids scope ids =
      full (list_where (scope_pairs scope) none (("entityId", ids) ∷ []) none none no_groups no_not)

  -- `ownershipRowsOf`
  unfoldable pub ownership_rows_of : Scope → String → State → List (Row Ownership)
  unfolding own_rows
  ownership_rows_of scope user_id s =
      rows_where env (ownership_fields env)
        (rows_of_ids scope (map entity_id_of (own_rows scope user_id s))) s.ownership

  abbrev pub granted_decision : Option (Row EntityGrant) → AccessDecision
  granted_decision none = record { allowed = false; source = no_source }
  granted_decision (some g) = record { allowed = true; source = grant }

  -- `decide`
  unfoldable pub decide : Actor → EntityRef → GrantAction → State → AccessDecision
  decide actor ref action s =
      if contains actor.roles "admin"
      then record { allowed = true; source = superadmin }
      else if is_cube_admin env actor ref.cube s
      then record { allowed = true; source = cube_admin }
      else if is_owner actor.user_id (ownership_of env ref s)
      then record { allowed = true; source = owner }
      else granted_decision (
          find (gives actor.user_id (group_ids_for env actor.user_id s) action)
            (grants_for env ref s))

  -- `visibleIds`, and `authorizeList`
  unfoldable pub visible_ids : Actor → Scope → GrantAction → State → Visible
  visible_ids actor scope action s =
      if contains actor.roles "admin" || is_cube_admin env actor scope.cube s
      then everything
      else only (
          oldest_owned_by [] actor.user_id (ownership_rows_of scope actor.user_id s)
          ++ map (λ (g : Row EntityGrant). g.body.ref.entity_id)
              (filter (gives actor.user_id (group_ids_for env actor.user_id s) action)
                (rows_where env grant_fields (pairs (scope_pairs scope)) s.grants)))

  abbrev pub new_ownership : Actor → EntityRef → ℕ → Ownership
  new_ownership actor ref count = record {
    ref = ref;
    owner_id = actor.user_id;
    created_by = actor.user_id;
    entity_key = some (entity_key_of ref);
    shared_with_count = some count;
  }

  abbrev pub claimed_row : Actor → EntityRef → State → Row Ownership
  claimed_row actor ref s =
      new_row env "Ownership" "own" s.draws
        (new_ownership actor ref (length (grants_for env ref s)))

  abbrev pub write_claim : Actor → EntityRef → State → State
  write_claim actor ref s = record s {
    ownership = insert (claimed_row actor ref s) s.ownership;
    draws = s.draws + 1;
  }

  -- `claim`
  unfoldable pub claim : Actor → EntityRef → Effect State (Row Ownership)
  claim actor ref = do
    existing ← gets (ownership_of env ref)
    ensure (not (is_some existing)) conflict
    value ← gets (claimed_row actor ref)
    modify (write_claim actor ref)
    write_audit env actor ref "ownership.claim" done null (claimed value.body value.created_at)
    succeed value

  -- `auditDecision`
  abbrev pub audit_decision : Actor → EntityRef → GrantAction → AccessDecision → Effect State Unit
  audit_decision actor ref action result =
      write_audit env actor ref (join "." ("entity" ∷ action_name action ∷ []))
        (if result.allowed then allowed else denied) null (decision result)

  -- `authorize`
  unfoldable pub authorize : Actor → EntityRef → GrantAction → Effect State AccessDecision
  authorize actor ref action = do
    result ← gets (decide actor ref action)
    audit_decision actor ref action result
    succeed result

  -- `auditList`: the ids that a page returned, under the entity id "*"
  unfoldable pub audit_list : Actor → Scope → GrantAction → String → List String → Effect State Unit
  audit_list actor scope action source ids =
      write_audit env actor (entity scope "*") "entity.list" allowed null
        (returned action source ids)

  abbrev pub owned_by : String → Row Ownership → Row Ownership
  owned_by user_id r = record r { body = record (r.body) { owner_id = user_id } }

  -- the part of `transferOwnership` behind its guards
  abbrev pub write_owner : EntityRef → Row Ownership → String → State → State
  write_owner ref current user_id s =
      recount_shares env ref
        (record s { ownership = update current.id (owned_by user_id) s.ownership })

  abbrev pub transfer_row :
      Actor → EntityRef → String → Option (Row Ownership) → Effect State (Row Ownership)
  transfer_row actor ref user_id none = fail not_found
  transfer_row actor ref user_id (some current) = do
    access ← gets (decide actor ref transfer)
    ensure access.allowed forbidden
    modify (write_owner ref current user_id)
    let changed = owned_by user_id current
    write_audit env actor ref "ownership.transfer" done (State.Trace.ownership current)
        (State.Trace.ownership changed)
    succeed changed

  -- `transferOwnership`
  unfoldable pub transfer_ownership : Actor → EntityRef → String → Effect State (Row Ownership)
  transfer_ownership actor ref user_id = do
    current ← gets (ownership_of env ref)
    transfer_row actor ref user_id current

  -- `requireShare`
  unfoldable pub may_share : Actor → EntityRef → State → Bool
  may_share actor ref s =
      contains actor.roles "admin"
      || (is_cube_admin env actor ref.cube s || is_owner actor.user_id (ownership_of env ref s))

  abbrev pub require_share : Actor → EntityRef → Effect State Unit
  require_share actor ref = do may ← gets (may_share actor ref); ensure may forbidden
