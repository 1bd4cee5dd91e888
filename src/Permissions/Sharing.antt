-- ===== src/Permissions/Sharing.antt =====
-- core/src/cubes/permissions/sharing.ts and the `groupById` of groups.ts: grants of an entity.
pub mod Access
pub mod Revocation
use qwbe.Prelude.{
  ℕ, String, Bool, true, false, not, ◌+◌, Option, none, some, List, [], ◌∷◌, ◌==◌, length, is_some,
}
use qwbe.Kernel.Platform.{Platform}
use qwbe.Kernel.Where.{pair}
use qwbe.Kernel.Table.{Row, first, insert, update, retire}
use qwbe.Permissions.Model.{Actor, EntityRef, Subject, user, group, GrantAction, EntityGrant}
use qwbe.Permissions.Effect.{
  Effect, not_found, invalid, ◌>>=◌, ◌>>◌, succeed, fail, gets, modify, ensure,
}
use qwbe.Permissions.State
use qwbe.Permissions.State.{
  State, Group, done, null, Trace, shared_user, shared_group, grant_fields, group_fields,
  entity_key_of, grants_for, recount_shares, new_row, write_audit,
}
use qwbe.Permissions.Foundation.{require_share}

abbrev pub nonempty : List GrantAction → Bool
nonempty [] = false
nonempty (a ∷ actions) = true

module _ (env : Platform) where
  -- `groupById`
  unfoldable pub group_by_id : String → State → Option (Row Group)
  group_by_id group_id s = first env group_fields (pair "id" group_id) s.groups

  abbrev pub new_grant : Actor → EntityRef → Subject → List GrantAction → State → Row EntityGrant
  new_grant actor ref subject actions s = new_row env "EntityGrant" "grant" s.draws (record {
    ref = ref;
    entity_key = some (entity_key_of ref);
    subject = subject;
    actions = actions;
    created_by = actor.user_id;
  })

  -- the insert of a grant and the recount behind it
  unfoldable pub write_grant : Actor → EntityRef → Subject → List GrantAction → State → State
  write_grant actor ref subject actions s = recount_shares env ref (record s {
    grants = insert (new_grant actor ref subject actions s) s.grants;
    draws = s.draws + 1;
  })

  -- `grantUser`; the default of `actions` is `total_actions`
  unfoldable pub grant_user :
      Actor → EntityRef → String → List GrantAction → Effect State (Row EntityGrant)
  grant_user actor ref user_id actions = do
    require_share env actor ref
    ensure (nonempty actions) invalid
    value ← gets (new_grant actor ref (user user_id) actions)
    modify (write_grant actor ref (user user_id) actions)
    write_audit env actor ref "grant.user" done null (shared_user user_id actions)
    succeed value

  abbrev group_cube_ok : EntityRef → Option (Row Group) → Effect State Unit
  group_cube_ok ref none = fail not_found
  group_cube_ok ref (some g) = ensure (g.body.cube == ref.cube) invalid

  -- `grantGroup`
  unfoldable pub grant_group :
      Actor → EntityRef → String → List GrantAction → Effect State (Row EntityGrant)
  grant_group actor ref group_id actions = do
    require_share env actor ref
    ensure (nonempty actions) invalid
    found ← gets (group_by_id group_id)
    group_cube_ok ref found
    value ← gets (new_grant actor ref (group group_id) actions)
    modify (write_grant actor ref (group group_id) actions)
    write_audit env actor ref "grant.group" done null (shared_group group_id actions)
    succeed value

  -- the retirement of a grant and the recount behind it
  unfoldable pub retire_grant : String → EntityRef → State → State
  retire_grant grant_id ref s =
      recount_shares env ref (record s { grants = update grant_id retire s.grants })

  abbrev pub revoke_row : Actor → String → Option (Row EntityGrant) → Effect State Unit
  revoke_row actor grant_id none = fail not_found
  revoke_row actor grant_id (some g) = do
    require_share env actor g.body.ref
    modify (retire_grant grant_id g.body.ref)
    write_audit env actor g.body.ref "grant.revoke" done (State.Trace.grant g) null

  -- `revokeGrant`
  unfoldable pub revoke_grant : Actor → String → Effect State Unit
  revoke_grant actor grant_id = do
    found ← gets (λ s. first env grant_fields (pair "id" grant_id) s.grants)
    revoke_row actor grant_id found

  -- `listGrants`; a row of the typed table always decodes
  unfoldable pub list_grants : Actor → EntityRef → Effect State (List (Row EntityGrant))
  list_grants actor ref = do require_share env actor ref; gets (grants_for env ref)
