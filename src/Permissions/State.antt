-- ===== src/Permissions/State.antt =====
-- core/src/cubes/permissions/state.ts: the tables of the cube and the reads and writes that its
-- parts share.
pub mod Lookups
pub mod Keys
use mathlib.Core.Option
use Prim.Native.String
use qwbe.Prelude.{
  ℕ, String, Bool, true, false, not, ◌&&◌, ◌||◌, ◌+◌, Option, none, some, List, [], ◌∷◌, ◌++◌, ◌==◌,
  map, filter, contains, join, length, is_some, if◌then◌else◌,
}
use qwbe.Kernel.Platform.{Platform}
use qwbe.Kernel.Where.{Where, pair, pairs}
use qwbe.Kernel.Table.{Row, Table, rows_where, first, insert, update}
use qwbe.Permissions.Model.{
  Actor, EntityRef, Subject, GrantAction, Ownership, EntityGrant, AccessDecision, VisibilityView,
}
use qwbe.Permissions.Effect.{Effect, ◌>>=◌, ◌>>◌, succeed, gets, modify}

pub record CubeAdmin : Type 0 where
  pub cube : String
  pub user_id : String

pub record Group : Type 0 where
  pub cube : String
  pub name : String
  pub created_by : String

pub record Membership : Type 0 where
  pub group_id : String
  pub user_id : String
  pub created_by : String

pub record HiddenPreference : Type 0 where
  pub ref : EntityRef
  pub user_id : String

pub record Capability : Type 0 where
  pub cube : String
  pub capability : String
  pub subject : Subject
  pub subject_key : String
  pub created_by : String

pub data AuditResult : Type 0 where
  allowed denied done : AuditResult

-- The values that the service hands to `writeAudit`, all of them JSON data.
pub data Trace : Type 0 where
  null : Trace
  decision : AccessDecision → Trace
  claimed : Ownership → (created_at : String) → Trace
  ownership : Row Ownership → Trace
  shared_user shared_group : String → List GrantAction → Trace
  grant : Row EntityGrant → Trace
  group : Row Group → Trace
  membership : Row Membership → Trace
  cube_admin : Row CubeAdmin → Trace
  assigned : CubeAdmin → Trace
  capability : Row Capability → Trace
  hidden : Bool → Trace
  returned : GrantAction → (source : String) → (ids : List String) → Trace
  listed :
      VisibilityView → (sort_by : String) → (descending : Bool) → (offset limit total : ℕ) → Trace

pub record AuditEvent : Type 0 where
  pub trace_id : String
  pub timestamp : String
  pub actor_user_id : String
  pub ref : EntityRef
  pub action : String
  pub result : AuditResult
  pub before : Trace
  pub after : Trace

-- The tables of `tables`, and how many ids and times were drawn.
pub record State : Type 0 where
  pub ownership : Table Ownership
  pub cube_admins : Table CubeAdmin
  pub audit : Table AuditEvent
  pub groups : Table Group
  pub memberships : Table Membership
  pub grants : Table EntityGrant
  pub hidden : Table HiddenPreference
  pub capabilities : Table Capability
  pub draws : ℕ

abbrev text_field : List (String × Option String) → String → Option String
text_field [] name = none
text_field ((key, value) ∷ fields) name = if key == name then value else text_field fields name

abbrev ref_fields : EntityRef → String → Option String → Option String
ref_fields ref name other =
    if name == "cube"
    then some ref.cube
    else if name == "entityType"
    then some ref.entity_type
    else if name == "entityId"
    then some ref.entity_id
    else other

abbrev pub ownership_fields : Platform → Ownership → String → Option String
ownership_fields env o name = ref_fields o.ref name (
    if name == "ownerId"
    then some o.owner_id
    else if name == "createdBy"
    then some o.created_by
    else if name == "entityKey"
    then o.entity_key
    else if name == "sharedWithCount"
    then Option.map env.number_text o.shared_with_count
    else none)

-- `subject` and `actions` are JSON values that nothing filters by.
abbrev pub grant_fields : EntityGrant → String → Option String
grant_fields g name = ref_fields g.ref name (
    if name == "entityKey"
    then g.entity_key
    else if name == "createdBy"
    then some g.created_by
    else none)

abbrev pub cube_admin_fields : CubeAdmin → String → Option String
cube_admin_fields c name =
    if name == "cube" then some c.cube else if name == "userId" then some c.user_id else none

abbrev pub group_fields : Group → String → Option String
group_fields g name =
    if name == "cube"
    then some g.cube
    else if name == "name"
    then some g.name
    else if name == "createdBy"
    then some g.created_by
    else none

abbrev pub membership_fields : Membership → String → Option String
membership_fields m name =
    if name == "groupId"
    then some m.group_id
    else if name == "userId"
    then some m.user_id
    else if name == "createdBy"
    then some m.created_by
    else none

abbrev pub hidden_fields : HiddenPreference → String → Option String
hidden_fields h name = ref_fields h.ref name (if name == "userId" then some h.user_id else none)

abbrev pub capability_fields : Capability → String → Option String
capability_fields c name =
    if name == "cube"
    then some c.cube
    else if name == "capability"
    then some c.capability
    else if name == "subjectKey"
    then some c.subject_key
    else if name == "createdBy"
    then some c.created_by
    else none

-- `refWhere`
abbrev pub ref_pairs : EntityRef → List (String × String)
ref_pairs ref =
    ("cube", ref.cube) ∷ ("entityType", ref.entity_type) ∷ ("entityId", ref.entity_id) ∷ []

-- `entityKeyOf`
unfoldable pub entity_key_of : EntityRef → String
entity_key_of ref = join ":" (ref.cube ∷ ref.entity_type ∷ ref.entity_id ∷ [])

module _ (env : Platform) where
  -- `state.ownership`: the oldest live ownership row of the entity
  unfoldable pub ownership_of : EntityRef → State → Option (Row Ownership)
  ownership_of ref s = first env (ownership_fields env) (pairs (ref_pairs ref)) s.ownership

  -- `state.cubeAdmin`
  unfoldable pub is_cube_admin : Actor → String → State → Bool
  is_cube_admin actor cube s =
      if contains actor.roles "admin"
      then true
      else is_some (
          first env cube_admin_fields (pairs (("cube", cube) ∷ ("userId", actor.user_id) ∷ []))
            s.cube_admins)

  -- `state.grantsFor`
  unfoldable pub grants_for : EntityRef → State → List (Row EntityGrant)
  grants_for ref s = rows_where env grant_fields (pairs (ref_pairs ref)) s.grants

  -- `state.groupIdsFor`
  unfoldable pub group_ids_for : String → State → List String
  group_ids_for user_id s =
      map (λ (r : Row Membership). r.body.group_id)
        (rows_where env membership_fields (pair "userId" user_id) s.memberships)

  abbrev pub recounted : EntityRef → ℕ → Row Ownership → Row Ownership
  recounted ref n r = record r {
    body = record (r.body) { entity_key = some (entity_key_of ref); shared_with_count = some n };
  }

  -- the loop of `recountShares` over the owners
  unfoldable pub recount_rows :
      EntityRef → ℕ → List (Row Ownership) → Table Ownership → Table Ownership
  recount_rows ref n [] t = t
  recount_rows ref n (r ∷ rows) t = recount_rows ref n rows (update r.id (recounted ref n) t)

  -- `state.recountShares`
  unfoldable pub recount_shares : EntityRef → State → State
  recount_shares ref s = record s {
    ownership =
        recount_rows ref (length (grants_for ref s))
          (rows_where env (ownership_fields env) (pairs (ref_pairs ref)) s.ownership) s.ownership;
  }

  -- a row's meta columns at an insert: `newId` and the clock, each drawn anew
  abbrev pub new_row {ℓ} : {A : Type ℓ} → String → String → ℕ → A → Row A
  new_row kind prefix n body = record {
    id = env.new_id prefix n;
    kind = kind;
    created_at = env.now n;
    deleted = false;
    body = body;
  }

  -- `state.writeAudit`
  unfoldable pub write_audit :
      Actor → EntityRef → String → AuditResult → Trace → Trace → Effect State (Unit {0})
  write_audit actor ref action result before after = modify λ s. record s {
    audit =
        insert
          (new_row "AuditEvent" "audit" s.draws (record {
            trace_id = env.new_id "trace" s.draws;
            timestamp = env.now s.draws;
            actor_user_id = actor.user_id;
            ref = ref;
            action = action;
            result = result;
            before = before;
            after = after;
          }))
          s.audit;
    draws = s.draws + 1;
  }
