-- ===== src/Permissions/CubeAdmins.antt =====
-- core/src/cubes/permissions/cube-admins.ts: who administers a cube.
pub mod Managers
pub mod Removal
use qwbe.Prelude.{String, ◌+◌, Option, none, some, List, [], ◌∷◌}
use qwbe.Kernel.Platform.{Platform}
use qwbe.Kernel.Where.{pair, pairs}
use qwbe.Kernel.Table.{Row, first, rows_where, insert, update, retire}
use qwbe.Permissions.Model.{Actor, EntityRef}
use qwbe.Permissions.Effect.{Effect, not_found, forbidden, ◌>>=◌, ◌>>◌, fail, gets, modify, ensure}
use qwbe.Permissions.State
use qwbe.Permissions.State.{
  State, CubeAdmin, Trace, done, null, assigned, cube_admin_fields, is_cube_admin, new_row,
  write_audit,
}

abbrev pub cube_ref : String → EntityRef
cube_ref cube = record { cube = cube; entity_type = "Cube"; entity_id = cube }

module _ (env : Platform) where
  -- `requireManager`
  abbrev pub require_manager : Actor → String → Effect State Unit
  require_manager actor cube = do may ← gets (is_cube_admin env actor cube); ensure may forbidden

  -- `find`
  unfoldable pub find_admin : String → String → State → Option (Row CubeAdmin)
  find_admin cube user_id s =
      first env cube_admin_fields (pairs (("cube", cube) ∷ ("userId", user_id) ∷ [])) s.cube_admins

  -- the row that `assignCubeAdmin` writes unless there is one
  abbrev pub add_admin : String → String → Option (Row CubeAdmin) → State → State
  add_admin cube user_id (some existing) s = s
  add_admin cube user_id none s = record s {
    cube_admins =
        insert (new_row env "CubeAdmin" "cadm" s.draws (record { cube = cube; user_id = user_id }))
          s.cube_admins;
    draws = s.draws + 1;
  }

  abbrev before_assign : Option (Row CubeAdmin) → Trace
  before_assign none = null
  before_assign (some existing) = State.Trace.cube_admin existing

  -- `assignCubeAdmin`
  unfoldable pub assign_cube_admin : Actor → String → String → Effect State Unit
  assign_cube_admin actor cube user_id = do
    require_manager actor cube
    existing ← gets (find_admin cube user_id)
    modify (add_admin cube user_id existing)
    write_audit env actor (cube_ref cube) "cube-admin.assign" done (before_assign existing)
        (assigned (record { cube = cube; user_id = user_id }))

  abbrev pub revoke_admin_row : Actor → String → Option (Row CubeAdmin) → Effect State Unit
  revoke_admin_row actor cube none = fail not_found
  revoke_admin_row actor cube (some existing) = do
    modify λ s. record s { cube_admins = update existing.id retire s.cube_admins }
    write_audit env actor (cube_ref cube) "cube-admin.revoke" done (State.Trace.cube_admin existing)
        null

  -- `revokeCubeAdmin`
  unfoldable pub revoke_cube_admin : Actor → String → String → Effect State Unit
  revoke_cube_admin actor cube user_id = do
    require_manager actor cube
    existing ← gets (find_admin cube user_id)
    revoke_admin_row actor cube existing

  -- `cubeAdmins`
  unfoldable pub cube_admins_of : Actor → String → Effect State (List (Row CubeAdmin))
  cube_admins_of actor cube = do
    require_manager actor cube
    gets (λ s. rows_where env cube_admin_fields (pair "cube" cube) s.cube_admins)
