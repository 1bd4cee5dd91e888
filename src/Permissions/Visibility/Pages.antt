-- ===== src/Permissions/Visibility/Pages.antt =====
-- core/src/cubes/permissions/visibility.ts: the page of a view and the user's own hidden marks, over the
-- store.

use qwbe.Prelude.{
  String, Bool, true, false, ◌+◌, Option, none, some, is_some, List, [], ◌∷◌, ◌++◌, map, filter,
  contains, if◌then◌else◌,
}
use qwbe.Kernel.Platform.{Platform}
use qwbe.Kernel.Paging.{PageRequest}
use qwbe.Kernel.Where.{list_where, no_groups, no_not, pair, pairs, full}
use qwbe.Kernel.Table.{Row, Page, first, rows_where, page_rows, insert, update, retire}
use qwbe.Permissions.Model.{
  Actor, EntityRef, EntityGrant, Ownership, EntityVisibility, VisibilityView, names_user,
  matches_visibility_view,
}
use qwbe.Permissions.Effect.{Effect, not_found, forbidden, ◌>>=◌, ◌>>◌, succeed, fail, gets, modify}
use qwbe.Permissions.State
use qwbe.Permissions.State.{
  State, HiddenPreference, Trace, allowed, done, null, listed, ownership_fields, grant_fields,
  hidden_fields, ref_pairs, entity_key_of, ownership_of, is_cube_admin, grants_for, group_ids_for,
  new_row, write_audit,
}
use qwbe.Permissions.Visibility.{
  EntityFacts, decide, hidden_pairs, Reach, visible_where, bodies, grant_key, owner_key, grants_at,
}

abbrev pub kept : VisibilityView → String → Option EntityVisibility → List EntityVisibility
kept view user_id none = []
kept view user_id (some row) = if matches_visibility_view row user_id view then row ∷ [] else []

module _ (env : Platform) where
  -- `loadEntityFacts`
  unfoldable pub load_entity_facts : Actor → EntityRef → State → EntityFacts
  load_entity_facts actor ref s = record {
    grants = bodies (grants_for env ref s);
    group_ids = group_ids_for env actor.user_id s;
    admin = is_cube_admin env actor ref.cube s;
    hidden = is_some (first env hidden_fields (pairs (hidden_pairs actor.user_id ref)) s.hidden);
  }

  -- the keys of the grants that name the actor; none are read for an admin
  abbrev granted_keys : Actor → String → Bool → List String → State → List String
  granted_keys actor cube true group_ids s = []
  granted_keys actor cube false group_ids s = map grant_key (
      filter (λ (g : Row EntityGrant). names_user actor.user_id group_ids g.body.subject)
        (rows_where env grant_fields (pair "cube" cube) s.grants))

  abbrev hidden_keys : Actor → String → State → List String
  hidden_keys actor cube s =
      map (λ (h : Row HiddenPreference). entity_key_of h.body.ref)
        (rows_where env hidden_fields (pairs (("userId", actor.user_id) ∷ ("cube", cube) ∷ []))
          s.hidden)

  -- what `listPage` reads before its page
  unfoldable pub reach_of : Actor → String → State → Reach
  reach_of actor cube s =
      let admin = is_cube_admin env actor cube s in
      record {
        admin = admin;
        granted = granted_keys actor cube admin (group_ids_for env actor.user_id s) s;
        hidden = hidden_keys actor cube s;
      }

  abbrev pub page_grants : List String → State → List (Row EntityGrant)
  page_grants [] s = []
  page_grants (key ∷ keys) s =
      rows_where env grant_fields
        (full (list_where [] none (("entityKey", key ∷ keys) ∷ []) none none no_groups no_not))
        s.grants

  -- the rows of the page that `decide` and the view keep
  unfoldable pub decided_rows :
      Actor
      → VisibilityView
      → Reach
      → List String
      → List (Row EntityGrant)
      → List (Row Ownership)
      → List EntityVisibility
  decided_rows actor view access group_ids grants [] = []
  decided_rows actor view access group_ids grants (r ∷ rows) =
      kept view actor.user_id (
        decide actor r (record {
          grants = bodies (grants_at (owner_key r) grants);
          group_ids = group_ids;
          admin = access.admin;
          hidden = contains access.hidden (owner_key r);
        }))
      ++ decided_rows actor view access group_ids grants rows

  abbrev pub found_page :
      (List (Row Ownership) → List (Row Ownership))
      → Actor
      → String
      → VisibilityView
      → PageRequest
      → State
      → Page (Row Ownership)
  found_page order actor cube view request s =
      page_rows env (ownership_fields env)
        (full (visible_where actor cube view (reach_of actor cube s))) order request s.ownership

  abbrev pub shown_rows :
      Actor → String → VisibilityView → List (Row Ownership) → State → List EntityVisibility
  shown_rows actor cube view rows s =
      decided_rows actor view (reach_of actor cube s) (group_ids_for env actor.user_id s)
        (page_grants (map owner_key rows) s) rows

  -- `listPage`, and `listVisible`, over the ordering that the page asks for and the name it has
  unfoldable pub list_visible :
      (List (Row Ownership) → List (Row Ownership))
      → (sorted_by : String) → Actor
      → String
      → VisibilityView
      → PageRequest
      → Effect State (Page EntityVisibility)
  list_visible order sorted_by actor cube view request = do
    found ← gets (found_page order actor cube view request)
    rows ← gets (shown_rows actor cube view found.rows)
    write_audit env actor (record { cube = cube; entity_type = "*"; entity_id = "*" })
        "visibility.list" allowed null
        (listed view sorted_by request.descending found.offset found.limit found.total)
    succeed
        (record { rows = rows; total = found.total; offset = found.offset; limit = found.limit })

  abbrev put_hidden : String → EntityRef → Bool → Option (Row HiddenPreference) → State → State
  put_hidden user_id ref true none s = record s {
    hidden =
        insert
          (new_row env "HiddenPreference" "hidden" s.draws
            (record { ref = ref; user_id = user_id }))
          s.hidden;
    draws = s.draws + 1;
  }
  put_hidden user_id ref false (some existing) s = record s {
    hidden = update existing.id retire s.hidden;
  }
  put_hidden user_id ref true (some existing) s = s
  put_hidden user_id ref false none s = s

  -- `writeHidden`
  unfoldable pub write_hidden : String → EntityRef → Bool → State → State
  write_hidden user_id ref hidden s =
      put_hidden user_id ref hidden
        (first env hidden_fields (pairs (hidden_pairs user_id ref)) s.hidden) s

  -- `visibilityFor`
  unfoldable pub visibility_for : Actor → Row Ownership → State → Option EntityVisibility
  unfolding load_entity_facts
  visibility_for actor r s = decide actor r (load_entity_facts actor r.body.ref s)

  abbrev require_visible : Option EntityVisibility → Effect State EntityVisibility
  require_visible none = fail forbidden
  require_visible (some row) = succeed row

  abbrev pub set_hidden_row :
      Actor → EntityRef → Bool → Option (Row Ownership) → Effect State EntityVisibility
  set_hidden_row actor ref hidden none = fail not_found
  set_hidden_row actor ref hidden (some r) = do
    seen ← gets (visibility_for actor r)
    visible ← require_visible seen
    modify (write_hidden actor.user_id ref hidden)
    seen_after ← gets (visibility_for actor r)
    changed ← require_visible seen_after
    write_audit env actor ref (if hidden then "visibility.hide" else "visibility.unhide") done
        (State.Trace.hidden visible.hidden) (State.Trace.hidden changed.hidden)
    succeed changed

  -- `setHidden`
  unfoldable pub set_hidden : Actor → EntityRef → Bool → Effect State EntityVisibility
  set_hidden actor ref hidden = do
    found ← gets (ownership_of env ref)
    set_hidden_row actor ref hidden found
