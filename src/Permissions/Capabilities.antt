-- ===== src/Permissions/Capabilities.antt =====
-- core/src/cubes/permissions/capabilities.ts: runtime grants of a cube's declared permissions.
pub mod Holders
pub mod Revocation
use Prim.Native.Char.{code}
use qwbe.Prelude.{
  ℕ, String, Bool, not, ◌+◌, Option, none, some, or_else, List, [], ◌∷◌, ◌==◌, map, filter, find,
  contains, join, nat_eq, if◌then◌else◌,
}
use qwbe.Kernel.Platform.{Platform}
use qwbe.Kernel.Paging.{PageRequest}
use qwbe.Kernel.Where.{pair, full, list_where, no_groups, no_not}
use qwbe.Kernel.Table.{Row, Page, rows_where, page_rows, by_id, insert, update, retire, is_live}
use qwbe.Kernel.ListQuery.{distinct, sort_names}
use qwbe.Permissions.Model.{Actor, Subject, user, group}
use qwbe.Permissions.Effect.{
  Effect, not_found, invalid, ◌>>=◌, ◌>>◌, succeed, fail, gets, modify, ensure,
}
use qwbe.Permissions.State
use qwbe.Permissions.State.{
  State, Capability, Group, Trace, done, null, capability_fields, group_ids_for, new_row,
  write_audit,
}
use qwbe.Permissions.Sharing.{group_by_id}
use qwbe.Permissions.CubeAdmins.{require_manager, cube_ref}

before_last : ℕ → String → Option String
before_last separator String.[] = none
before_last separator (String.◌∷◌ c s) = elim (before_last separator s) [
  | some part ↦ some (String.◌∷◌ c part)
  | none ↦ if nat_eq (code c) separator then some "" else none
]

drop_last : String → String
drop_last String.[] = ""
drop_last (String.◌∷◌ c String.[]) = ""
drop_last (String.◌∷◌ c (String.◌∷◌ d s)) = String.◌∷◌ c (drop_last (String.◌∷◌ d s))

-- `cubeOf`: up to the last colon; with no colon, `slice(0, -1)`
unfoldable pub cube_of : String → String
unfolding before_last drop_last
cube_of capability = or_else (before_last b':' capability) (drop_last capability)

-- `subjectKeyOf`
abbrev pub subject_key_of : Subject → String
subject_key_of (user id) = join ":" ("user" ∷ id ∷ [])
subject_key_of (group id) = join ":" ("group" ∷ id ∷ [])

module _ (env : Platform) (declared : List String) where
  -- `bySubject`
  unfoldable pub by_subject : String → State → List (Row Capability)
  by_subject key s =
      filter is_live (rows_where env capability_fields (pair "subjectKey" key) s.capabilities)

  abbrev pub of_capability : String → Row Capability → Bool
  of_capability capability r = r.body.capability == capability

  -- the oldest live grant of the capability to the subject
  unfoldable pub existing_grant : Subject → String → State → Option (Row Capability)
  unfolding by_subject
  existing_grant subject capability s =
      find (of_capability capability) (by_subject (subject_key_of subject) s)

  abbrev group_cube_ok : String → Option (Row Group) → Effect State Unit
  group_cube_ok cube none = fail not_found
  group_cube_ok cube (some g) = ensure (g.body.cube == cube) invalid

  abbrev subject_ok : String → Subject → Effect State Unit
  subject_ok cube (user id) = succeed tt
  subject_ok cube (group id) = do found ← gets (group_by_id env id); group_cube_ok cube found

  abbrev pub new_capability : Actor → String → Subject → String → ℕ → Row Capability
  new_capability actor cube subject capability n = new_row env "CapabilityGrant" "cap" n (record {
    cube = cube;
    capability = capability;
    subject = subject;
    subject_key = subject_key_of subject;
    created_by = actor.user_id;
  })

  abbrev pub kept_or_new :
      Actor → String → Subject → String → Option (Row Capability) → Effect State (Row Capability)
  kept_or_new actor cube subject capability (some existing) = succeed existing
  kept_or_new actor cube subject capability none = do
    n ← gets (λ s. s.draws)
    let row = new_capability actor cube subject capability n
    modify λ s. record s { capabilities = insert row s.capabilities; draws = n + 1 }
    succeed row

  abbrev before_grant : Option (Row Capability) → Trace
  before_grant none = null
  before_grant (some existing) = State.Trace.capability existing

  abbrev subject_kind : Subject → String
  subject_kind (user id) = "user"
  subject_kind (group id) = "group"

  -- `grantCapability`
  unfoldable pub grant_capability : Actor → Subject → String → Effect State (Row Capability)
  grant_capability actor subject capability = do
    ensure (contains declared capability) invalid
    require_manager env actor (cube_of capability)
    subject_ok (cube_of capability) subject
    existing ← gets (existing_grant subject capability)
    row ← kept_or_new actor (cube_of capability) subject capability existing
    write_audit env actor (cube_ref (cube_of capability))
        (join "." ("capability.grant" ∷ subject_kind subject ∷ [])) done (before_grant existing)
        (State.Trace.capability row)
    succeed row

  -- the loop of `revokeCapabilityGrant` over the twins
  unfoldable pub retire_all : List (Row Capability) → State → State
  retire_all [] s = s
  retire_all (r ∷ rows) s =
      retire_all rows (record s { capabilities = update r.id retire s.capabilities })

  abbrev pub twins : Row Capability → State → List (Row Capability)
  twins g s = filter (of_capability g.body.capability) (by_subject g.body.subject_key s)

  abbrev pub revoke_row : Actor → Option (Row Capability) → Effect State Unit
  revoke_row actor none = fail not_found
  revoke_row actor (some g) = do
    ensure (not g.deleted) not_found
    require_manager env actor g.body.cube
    rows ← gets (twins g)
    modify (retire_all rows)
    write_audit env actor (cube_ref g.body.cube) "capability.revoke" done (State.Trace.capability g)
        null

  -- `revokeCapabilityGrant`
  unfoldable pub revoke_capability_grant : Actor → String → Effect State Unit
  revoke_capability_grant actor grant_id = do
    found ← gets (λ s. by_id grant_id s.capabilities)
    revoke_row actor found

  -- `listCapabilityGrants`, over the ordering that the page asks for
  unfoldable pub list_capability_grants :
      (List (Row Capability) → List (Row Capability))
      → Actor
      → String
      → PageRequest
      → Effect State (Page (Row Capability))
  list_capability_grants order actor cube request = do
    require_manager env actor cube
    gets (λ s. page_rows env capability_fields (pair "cube" cube) order request s.capabilities)

  -- the subject keys of a user: the user's own, and those of the user's groups
  abbrev pub keys_of : String → State → List String
  keys_of user_id s =
      subject_key_of (user user_id)
      ∷ map (λ id. subject_key_of (group id)) (group_ids_for env user_id s)

  abbrev pub live_grants : List String → State → List (Row Capability)
  live_grants keys s = filter is_live (
      rows_where env capability_fields
        (full (list_where [] none (("subjectKey", keys) ∷ []) none none no_groups no_not))
        s.capabilities)

  -- `capabilitiesFor`
  unfoldable pub capabilities_for : String → State → List String
  capabilities_for user_id s = sort_names (
      distinct [] (
        filter (contains declared)
          (map (λ (r : Row Capability). r.body.capability) (live_grants (keys_of user_id s) s))))
