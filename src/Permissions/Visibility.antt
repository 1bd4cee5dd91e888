-- ===== src/Permissions/Visibility.antt =====
-- core/src/cubes/permissions/visibility.ts: which entities a user sees, as a rule and as a predicate
-- for the store.
use mathlib.Core.Option
pub mod Predicate
pub mod Pages
pub mod Facts
pub mod Whole
pub mod Listing
pub mod Hiding
use qwbe.Prelude.{
  ℕ, String, Bool, true, false, not, ◌&&◌, ◌||◌, ◌+◌, Option, none, some, is_some, List, [], ◌∷◌,
  ◌++◌, ◌==◌, map, filter, contains, length, if◌then◌else◌,
}
use qwbe.Kernel.Platform.{Platform}
use qwbe.Kernel.Paging.{PageRequest}
use qwbe.Kernel.Where.{
  ListWhere, list_where, AnyOf, no_groups, any_of, Groups, nil, group, Negated, no_not, is_not,
  Where, pair, pairs, full,
}
use qwbe.Kernel.Table.{Row, Page, first, rows_where, page_rows, insert, update, retire}
use qwbe.Permissions.Model
use qwbe.Permissions.Model.{
  Actor, EntityRef, EntityGrant, Ownership, Access, EntityVisibility, VisibilityView, owned_by_me,
  created_by_me, only_mine, shared_by_me, shared_with_me, hidden_by_me, by_owner, by_creator,
  by_superadmin, by_cube_admin, total_actions, names_user, grant_access, matches_visibility_view,
}
use qwbe.Permissions.Effect.{
  Effect, not_found, forbidden, ◌>>=◌, ◌>>◌, succeed, fail, gets, modify, ensure,
}
use qwbe.Permissions.State
use qwbe.Permissions.State.{
  State, HiddenPreference, Trace, allowed, done, null, listed, ownership_fields, grant_fields,
  hidden_fields, ref_pairs, entity_key_of, ownership_of, is_cube_admin, grants_for, group_ids_for,
  new_row, write_audit,
}

-- What the visibility rule reads about one entity besides its ownership row.
pub record EntityFacts : Type 0 where
  pub grants : List EntityGrant
  pub group_ids : List String
  pub admin : Bool
  pub hidden : Bool

abbrev total_access : Model.AccessSource → String → Access
total_access source name = record { source = source; name = name; actions = total_actions }

abbrev or_first : Option Access → Option Access → Option Access
or_first (some a) other = some a
or_first none other = other

-- `accessOf`: the first reason that holds
unfoldable pub access_of : Actor → Ownership → Option Access → Bool → Option Access
access_of actor o granted admin =
    if o.owner_id == actor.user_id
    then some (total_access by_owner actor.user_id)
    else or_first granted (
        if o.created_by == actor.user_id && admin
        then some (total_access by_creator actor.user_id)
        else if contains actor.roles "admin"
        then some (total_access by_superadmin actor.user_id)
        else if admin
        then some (total_access by_cube_admin actor.user_id)
        else none)

abbrev pub visible_row : Row Ownership → EntityFacts → Access → EntityVisibility
visible_row r facts access = record {
  ref = r.body.ref;
  owner_id = r.body.owner_id;
  created_by = r.body.created_by;
  created_at = r.created_at;
  access = access;
  hidden = facts.hidden;
  shared_with_count = length facts.grants;
}

-- `decide`
unfoldable pub decide : Actor → Row Ownership → EntityFacts → Option EntityVisibility
decide actor r facts =
    Option.map (visible_row r facts)
      (access_of actor r.body (grant_access actor.user_id facts.group_ids facts.grants) facts.admin)

-- `hiddenWhere`
abbrev pub hidden_pairs : String → EntityRef → List (String × String)
hidden_pairs user_id ref = ("userId", user_id) ∷ ref_pairs ref

-- The three parts of `access` that `visibleWhere` takes.
pub record Reach : Type 0 where
  pub admin : Bool
  pub granted : List String
  pub hidden : List String

abbrev me : Actor → String × String
me actor = ("ownerId", actor.user_id)

abbrev unshared : String × String
unshared = ("sharedWithCount", "0")

abbrev equal_group : String × String → ListWhere
equal_group p = list_where (p ∷ []) none [] none none no_groups no_not

abbrev key_group : List String → ListWhere
key_group keys = list_where [] none (("entityKey", keys) ∷ []) none none no_groups no_not

-- the equalities of a view, behind that of the cube
abbrev view_equals : Actor → VisibilityView → List (String × String)
view_equals actor owned_by_me = me actor ∷ []
view_equals actor only_mine = me actor ∷ unshared ∷ []
view_equals actor shared_by_me = me actor ∷ []
view_equals actor created_by_me = ("createdBy", actor.user_id) ∷ []
view_equals actor _ = []

abbrev none_of : Groups → Negated
none_of gs = is_not (list_where [] none [] none none (any_of gs) no_not)

-- `excluded`
abbrev excluded : Actor → VisibilityView → List String → Negated
excluded actor hidden_by_me hidden = no_not
excluded actor shared_by_me hidden =
    none_of (group (key_group hidden) (group (equal_group unshared) nil))
excluded actor shared_with_me hidden =
    none_of (group (key_group hidden) (group (equal_group (me actor)) nil))
excluded actor _ hidden = none_of (group (key_group hidden) nil)

abbrev hidden_set : VisibilityView → List String → List (String × List String)
hidden_set hidden_by_me hidden = ("entityKey", hidden) ∷ []
hidden_set _ hidden = []

abbrev reach_groups : Actor → Reach → AnyOf
reach_groups actor access =
    if access.admin
    then no_groups
    else any_of (group (equal_group (me actor)) (group (key_group access.granted) nil))

-- `visibleWhere`
unfoldable pub visible_where : Actor → String → VisibilityView → Reach → ListWhere
visible_where actor cube view access =
    list_where (("cube", cube) ∷ view_equals actor view) none (hidden_set view access.hidden) none
      none (reach_groups actor access) (excluded actor view access.hidden)

abbrev pub bodies : List (Row EntityGrant) → List EntityGrant
bodies = map (λ (g : Row EntityGrant). g.body)

abbrev pub grant_key : Row EntityGrant → String
grant_key g = entity_key_of g.body.ref

abbrev pub owner_key : Row Ownership → String
owner_key r = entity_key_of r.body.ref

-- `byEntity`, read at one key
abbrev pub grants_at : String → List (Row EntityGrant) → List (Row EntityGrant)
grants_at key grants = filter (λ g. grant_key g == key) grants
