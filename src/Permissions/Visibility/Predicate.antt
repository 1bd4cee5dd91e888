-- ===== src/Permissions/Visibility/Predicate.antt =====
-- The store predicate of a view keeps the rows that the visibility rule keeps.
use mathlib.Core.Option
use qwbe.Prelude.{
  ℕ, String, Bool, true, false, not, ◌≡◌, refl, ap, ◌∙◌, ◌&&◌, ◌||◌, Option, none, some, List, [],
  ◌∷◌, arith, ◌==◌, any, filter, contains, is_some, length, head, head-filter, is_some-find, nat_eq,
  if◌then◌else◌,
}
use qwbe.Kernel.Platform.{Platform}
use qwbe.Kernel.Where.{RowView, full, matches, set_sql, column}
use qwbe.Kernel.Table.{Row, view}
use qwbe.Permissions.Model
use qwbe.Permissions.Model.{
  Actor, Ownership, EntityGrant, GrantAction, EntityVisibility, VisibilityView, Access, all,
  owned_by_me, created_by_me, only_mine, shared_by_me, shared_with_me, hidden_by_me, names_user,
  is_user, group_ids_of, group_access, granted_actions, grant_access, matches_visibility_view,
}
use qwbe.Permissions.State.{ownership_fields}
use qwbe.Permissions.Visibility.{
  EntityFacts, Reach, access_of, decide, visible_where, owner_key, visible_row,
}

-- What `kept` keeps: the row is decided visible, and the view has it.
abbrev pub shows : VisibilityView → String → Option EntityVisibility → Bool
shows view user_id none = false
shows view user_id (some row) = matches_visibility_view row user_id view

some_reason :
    (user_id : String) (actions : List GrantAction) (named : List EntityGrant)
    → is_some (
        if any (λ (g : EntityGrant). is_user g.subject) named
        then some (record { source = Model.by_user_grant; name = user_id; actions = actions })
        else group_access (group_ids_of named) actions)
      ≡ is_some (head named)
some_reason user_id actions [] = refl
some_reason user_id actions (g ∷ named) = ground arith

-- `grantAccess` finds a reason exactly when some grant names the user.
is_some-grant_access :
    (user_id : String) (groups : List String) (grants : List EntityGrant)
    → is_some (grant_access user_id groups grants)
      ≡ any (λ (g : EntityGrant). names_user user_id groups g.subject) grants
unfolding grant_access
is_some-grant_access user_id groups grants =
    let names = λ (g : EntityGrant). names_user user_id groups g.subject in
    some_reason user_id (granted_actions (filter names grants)) (filter names grants)
    ∙ ap is_some (head-filter names grants)
    ∙ is_some-find names grants

-- The access rule in one line: owner, grantee, or admin.
is_some-access_of :
    (actor : Actor) (o : Ownership) (granted : Option Access) (admin : Bool)
    → (contains actor.roles "admin" ≡ true → admin ≡ true)
    → is_some (access_of actor o granted admin)
      ≡ (o.owner_id == actor.user_id || (is_some granted || admin))
unfolding access_of
is_some-access_of actor o granted admin h = ground arith

-- What the predicate takes for granted of a row, the facts about its entity and the actor's reach:
-- the row has its key and the live count, and the reach and the facts come from the same store.
pub record Agrees (actor : Actor) (reach : Reach) (r : Row Ownership) (facts : EntityFacts)
    : Type 0 where
  pub keyed : r.body.entity_key ≡ some (owner_key r)
  pub counted : r.body.shared_with_count ≡ some (length facts.grants)
  pub same_admin : facts.admin ≡ reach.admin
  pub superadmin : contains actor.roles "admin" ≡ true → reach.admin ≡ true
  pub granted :
      reach.admin ≡ false
      → contains reach.granted (owner_key r)
        ≡ any (λ (g : EntityGrant). names_user actor.user_id facts.group_ids g.subject) facts.grants
  pub same_hidden : facts.hidden ≡ contains reach.hidden (owner_key r)

set_of_text :
    (v : RowView) (field text : String) (values : List String)
    → column v field ≡ some text
    → set_sql v (field, values) ≡ some (contains values text)
unfolding set_sql
set_of_text v field text [] h = refl
set_of_text v field text (x ∷ xs) h = ap (Option.map (contains (x ∷ xs))) h

module _ (env : Platform) (zero_text : (n : ℕ) → (env.number_text n == "0") ≡ nat_eq n 0)
    (actor : Actor) (cube : String) (reach : Reach) (r : Row Ownership) (facts : EntityFacts)
    (agrees : Agrees actor reach r facts) where
  abbrev decided : Option Access
  decided =
      access_of actor r.body (grant_access actor.user_id facts.group_ids facts.grants) facts.admin

  is_some-decided :
      is_some decided
      ≡ (r.body.owner_id == actor.user_id || (reach.admin || contains reach.granted (owner_key r)))
  is_some-decided = ground (
    arith,
    agrees.same_admin,
    agrees.superadmin,
    agrees.granted,
    is_some-access_of actor r.body (grant_access actor.user_id facts.group_ids facts.grants)
        facts.admin,
    is_some-grant_access actor.user_id facts.group_ids facts.grants,
  )

  -- the test of a view, over the row and the reach
  abbrev view_rule : VisibilityView → Bool
  view_rule all = not (contains reach.hidden (owner_key r))
  view_rule owned_by_me =
      r.body.owner_id == actor.user_id && not (contains reach.hidden (owner_key r))
  view_rule created_by_me =
      r.body.created_by == actor.user_id && not (contains reach.hidden (owner_key r))
  view_rule only_mine =
      r.body.owner_id == actor.user_id
      && (nat_eq (length facts.grants) 0 && not (contains reach.hidden (owner_key r)))
  view_rule shared_by_me =
      r.body.owner_id == actor.user_id
      && (not (nat_eq (length facts.grants) 0) && not (contains reach.hidden (owner_key r)))
  view_rule shared_with_me =
      not (r.body.owner_id == actor.user_id) && not (contains reach.hidden (owner_key r))
  view_rule hidden_by_me = contains reach.hidden (owner_key r)

  abbrev row_view : RowView
  row_view = view (ownership_fields env) r

  key_text : column row_view "entityKey" ≡ some (owner_key r)
  key_text = agrees.keyed

  count_text :
      Option.map (λ text. text == "0") (column row_view "sharedWithCount")
      ≡ some (nat_eq (length facts.grants) 0)
  count_text =
      ap (λ (o : Option ℕ). Option.map (λ text. text == "0") (Option.map env.number_text o))
        agrees.counted
      ∙ ap some (zero_text (length facts.grants))

  store_side :
      (v : VisibilityView)
      → matches env (full (visible_where actor cube v reach)) row_view ≡ (
          not r.deleted
          && (r.body.ref.cube == cube
              && ((reach.admin
                    || (r.body.owner_id == actor.user_id || contains reach.granted (owner_key r)))
                  && view_rule v)))
  unfolding matches visible_where
  store_side all = ground (
    arith,
    count_text,
    set_of_text row_view "entityKey" (owner_key r) reach.hidden key_text,
    set_of_text row_view "entityKey" (owner_key r) reach.granted key_text,
  )
  store_side v = ground (
    arith,
    count_text,
    set_of_text row_view "entityKey" (owner_key r) reach.hidden key_text,
    set_of_text row_view "entityKey" (owner_key r) reach.granted key_text,
  )

  rule_side :
      (o : Option Access) (v : VisibilityView)
      → shows v actor.user_id (Option.map (visible_row r facts) o) ≡ (is_some o && view_rule v)
  unfolding matches_visibility_view
  rule_side none v = refl
  rule_side (some a) all = ground (arith, agrees.same_hidden)
  rule_side (some a) v = ground (arith, agrees.same_hidden)

  -- For every view and a row that agrees with the facts and the reach: the store predicate holds of the
  -- row exactly when it is live and of the cube, and the rule decides that the actor sees the entity
  -- and the view has it. Facts.antt shows when rows agree.
  pub matches-visible_where :
      (v : VisibilityView)
      → matches env (full (visible_where actor cube v reach)) (view (ownership_fields env) r) ≡ (
          not r.deleted
          && (r.body.ref.cube == cube && shows v actor.user_id (decide actor r facts)))
  unfolding decide
  matches-visible_where v = ground (arith, store_side v, rule_side decided v, is_some-decided)
