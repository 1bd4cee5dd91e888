-- ===== src/Permissions/Groups.antt =====
-- core/src/cubes/permissions/groups.ts: the groups of a cube and their members.
pub mod Members
pub mod Removal
use qwbe.Prelude.{
  String, Bool, ◌||◌, ◌+◌, Option, none, some, List, [], ◌∷◌, contains, filter, is_some, ltb, trim,
}
use Prim.Native.String.{count}
use qwbe.Kernel.Platform.{Platform}
use qwbe.Kernel.Where.{pair, pairs}
use qwbe.Kernel.Table.{Row, first, rows_where, insert, update, retire, is_live}
use qwbe.Permissions.Model.{Actor, EntityRef}
use qwbe.Permissions.Effect.{
  Effect, not_found, invalid, forbidden, ◌>>=◌, ◌>>◌, succeed, fail, gets, modify, ensure,
}
use qwbe.Permissions.State
use qwbe.Permissions.State.{
  State, Group, Membership, done, null, ownership_fields, group_fields, membership_fields,
  is_cube_admin, new_row, write_audit,
}
use qwbe.Permissions.Sharing.{group_by_id}

abbrev pub group_ref : String → String → EntityRef
group_ref cube id = record { cube = cube; entity_type = "Group"; entity_id = id }

abbrev pub member_pairs : String → String → List (String × String)
member_pairs group_id user_id = ("groupId", group_id) ∷ ("userId", user_id) ∷ []

-- `name.trim().length > 0`.
abbrev pub has_name : String → Bool
has_name name = ltb 0 (count (trim name))

module _ (env : Platform) where
  -- `requireCubeAccess`
  unfoldable pub has_cube_access : Actor → String → State → Bool
  has_cube_access actor cube s =
      contains actor.roles "admin"
      || (is_cube_admin env actor cube s
          || is_some (
              first env (ownership_fields env)
                (pairs (("cube", cube) ∷ ("ownerId", actor.user_id) ∷ [])) s.ownership))

  abbrev require_cube_access : Actor → String → Effect State Unit
  require_cube_access actor cube = do may ← gets (has_cube_access actor cube); ensure may forbidden

  abbrev administer_row : Actor → Option (Row Group) → Effect State (Row Group)
  administer_row actor none = fail not_found
  administer_row actor (some g) = do require_cube_access actor g.body.cube; succeed g

  -- `administer`
  unfoldable pub administer : Actor → String → Effect State (Row Group)
  unfolding has_cube_access
  administer actor group_id = do found ← gets (group_by_id env group_id); administer_row actor found

  -- `createGroup`
  unfoldable pub create_group : Actor → String → String → Effect State (Row Group)
  create_group actor cube name = do
    ensure (has_name name) invalid
    require_cube_access actor cube
    n ← gets (λ s. s.draws)
    let value : Row Group =
        new_row env "PermissionGroup" "grp" n
          (record { cube = cube; name = name; created_by = actor.user_id })
    modify λ s. record s { groups = insert value s.groups; draws = n + 1 }
    write_audit env actor (group_ref cube value.id) "group.create" done null
        (State.Trace.group value)
    succeed value

  abbrev pub renamed : String → Row Group → Row Group
  renamed name g = record g { body = record (g.body) { name = name } }

  -- `renameGroup`
  unfoldable pub rename_group : Actor → String → String → Effect State (Row Group)
  rename_group actor group_id name = do
    found ← administer actor group_id
    ensure (has_name name) invalid
    modify λ s. record s { groups = update group_id (renamed name) s.groups }
    let changed = renamed name found
    write_audit env actor (group_ref found.body.cube group_id) "group.rename" done
        (State.Trace.group found) (State.Trace.group changed)
    succeed changed

  -- `groups`
  unfoldable pub groups_of : Actor → String → Effect State (List (Row Group))
  groups_of actor cube = do
    require_cube_access actor cube
    gets (λ s. rows_where env group_fields (pair "cube" cube) s.groups)

  -- the first live membership of the user in the group
  unfoldable pub membership_of : String → String → State → Option (Row Membership)
  membership_of group_id user_id s =
      first env membership_fields (pairs (member_pairs group_id user_id)) s.memberships

  abbrev pub add_row :
      Actor → Row Group → String → String → Option (Row Membership) → Effect State (Row Membership)
  add_row actor g group_id user_id (some existing) = succeed existing
  add_row actor g group_id user_id none = do
    n ← gets (λ s. s.draws)
    let value : Row Membership =
        new_row env "GroupMembership" "mem" n
          (record { group_id = group_id; user_id = user_id; created_by = actor.user_id })
    modify λ s. record s { memberships = insert value s.memberships; draws = n + 1 }
    write_audit env actor (group_ref g.body.cube group_id) "group.member.add" done null
        (State.Trace.membership value)
    succeed value

  -- `addGroupMember`
  unfoldable pub add_group_member : Actor → String → String → Effect State (Row Membership)
  add_group_member actor group_id user_id = do
    g ← administer actor group_id
    existing ← gets (membership_of group_id user_id)
    add_row actor g group_id user_id existing

  abbrev pub remove_row : Actor → Row Group → String → Option (Row Membership) → Effect State Unit
  remove_row actor g group_id none = fail not_found
  remove_row actor g group_id (some m) = do
    modify λ s. record s { memberships = update m.id retire s.memberships }
    write_audit env actor (group_ref g.body.cube group_id) "group.member.remove" done
        (State.Trace.membership m) null

  -- `removeGroupMember`
  unfoldable pub remove_group_member : Actor → String → String → Effect State Unit
  remove_group_member actor group_id user_id = do
    g ← administer actor group_id
    found ← gets (membership_of group_id user_id)
    remove_row actor g group_id found

  -- `groupMembers`
  unfoldable pub group_members : Actor → String → Effect State (List (Row Membership))
  group_members actor group_id = do
    administer actor group_id
    gets (λ s.
        filter is_live (rows_where env membership_fields (pair "groupId" group_id) s.memberships))
