-- ===== src/Permissions/Model.antt =====
-- core/src/permissions-model.ts and core/src/permissions-schemas.ts: the data of the permission
-- service, `grantAccess` and `matchesVisibilityView`.
use qwbe.Prelude.{
  ℕ, String, Bool, true, false, not, ◌&&◌, Option, none, some, List, [], ◌∷◌, ◌==◌, any, filter,
  contains, join, ltb, nat_eq, if◌then◌else◌,
}

pub data GrantAction : Type 0 where
  read create edit delete share transfer : GrantAction

-- `EntityActions`, and `TotalActions`.
abbrev pub total_actions : List GrantAction
total_actions = read ∷ create ∷ edit ∷ delete ∷ share ∷ transfer ∷ []

abbrev pub action_name : GrantAction → String
action_name read = "read"
action_name create = "create"
action_name edit = "edit"
action_name delete = "delete"
action_name share = "share"
action_name transfer = "transfer"

abbrev action_code : GrantAction → ℕ
action_code read = 0
action_code create = 1
action_code edit = 2
action_code delete = 3
action_code share = 4
action_code transfer = 5

abbrev pub same_action : GrantAction → GrantAction → Bool
same_action a b = nat_eq (action_code a) (action_code b)

-- `actions.includes(action)`.
abbrev pub includes : List GrantAction → GrantAction → Bool
includes actions action = any (same_action action) actions

pub record Actor : Type 0 where
  pub user_id : String
  pub roles : List String

pub record EntityRef : Type 0 where
  pub cube : String
  pub entity_type : String
  pub entity_id : String

pub data Subject : Type 0 where
  user group : String → Subject

-- An ownership row's body; a row written before the last two fields existed lacks them.
pub record Ownership : Type 0 where
  pub ref : EntityRef
  pub owner_id : String
  pub created_by : String
  pub entity_key : Option String
  pub shared_with_count : Option ℕ

pub record EntityGrant : Type 0 where
  pub ref : EntityRef
  pub entity_key : Option String
  pub subject : Subject
  pub actions : List GrantAction
  pub created_by : String

pub data Source : Type 0 where
  superadmin cube_admin owner grant no_source : Source

pub record AccessDecision : Type 0 where
  pub allowed : Bool
  pub source : Source

pub data AccessSource : Type 0 where
  by_owner by_creator by_user_grant by_group_grant by_cube_admin by_superadmin : AccessSource

-- `AccessProvenance`: why a row is seen.
pub record Access : Type 0 where
  pub source : AccessSource
  pub name : String
  pub actions : List GrantAction

pub record EntityVisibility : Type 0 where
  pub ref : EntityRef
  pub owner_id : String
  pub created_by : String
  pub created_at : String
  pub access : Access
  pub hidden : Bool
  pub shared_with_count : ℕ

pub data VisibilityView : Type 0 where
  all owned_by_me created_by_me only_mine shared_by_me shared_with_me hidden_by_me : VisibilityView

-- whether a subject is the user or one of the user's groups
abbrev pub names_user : String → List String → Subject → Bool
names_user user_id group_ids (user u) = u == user_id
names_user user_id group_ids (group g) = contains group_ids g

abbrev pub is_user : Subject → Bool
is_user (user u) = true
is_user (group g) = false

-- `groups`, the ids of the groups that the grants name
abbrev pub group_ids_of : List EntityGrant → List String
group_ids_of [] = []
group_ids_of (g ∷ gs) = elim g.subject [
  | user u ↦ group_ids_of gs
  | group id ↦ id ∷ group_ids_of gs
]

-- the actions that some grant of the list gives, in the order of `EntityActions`
abbrev pub granted_actions : List EntityGrant → List GrantAction
granted_actions grants =
    filter (λ action. any (λ (g : EntityGrant). includes g.actions action) grants) total_actions

abbrev pub group_access : List String → List GrantAction → Option Access
group_access [] actions = none
group_access (g ∷ gs) actions =
    some (record { source = by_group_grant; name = join ", " (g ∷ gs); actions = actions })

-- `grantAccess`
unfoldable pub grant_access : String → List String → List EntityGrant → Option Access
grant_access user_id group_ids grants =
    let applicable = filter (λ (g : EntityGrant). names_user user_id group_ids g.subject) grants in
    let actions = granted_actions applicable in
    if any (λ (g : EntityGrant). is_user g.subject) applicable
    then some (record { source = by_user_grant; name = user_id; actions = actions })
    else group_access (group_ids_of applicable) actions

-- `matchesVisibilityView`
unfoldable pub matches_visibility_view : EntityVisibility → String → VisibilityView → Bool
matches_visibility_view row user_id all = not row.hidden
matches_visibility_view row user_id owned_by_me = row.owner_id == user_id && not row.hidden
matches_visibility_view row user_id created_by_me = row.created_by == user_id && not row.hidden
matches_visibility_view row user_id only_mine =
    row.owner_id == user_id && (nat_eq row.shared_with_count 0 && not row.hidden)
matches_visibility_view row user_id shared_by_me =
    row.owner_id == user_id && (ltb 0 row.shared_with_count && not row.hidden)
matches_visibility_view row user_id shared_with_me = not (row.owner_id == user_id) && not row.hidden
matches_visibility_view row user_id hidden_by_me = row.hidden
