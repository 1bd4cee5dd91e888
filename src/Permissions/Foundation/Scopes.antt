-- ===== src/Permissions/Foundation/Scopes.antt =====
-- `visibleIds` answers for a whole scope what `decide` answers for each of its entities.
use mathlib.Core.Path.{fun_ext}
use qwbe.Prelude.{
  String, Bool, true, false, not, ◌≡◌, sym, ap, ◌∙◌, ◌&&◌, List, [], ◌∷◌, arith, ◌==◌, eq_iff, map,
  any, find, filter, contains, is_some, inl, inr, Bool-cases, Option-cases, find-filter, find-none,
  any-filter, any-of-find, any-false, is_some-find, contains-append, contains-map,
}
use qwbe.Kernel.Platform.{Platform}
use qwbe.Kernel.Where.{matches, pairs, set_sql}
use qwbe.Kernel.Table.{Row, view, is_live, rows_where}
use qwbe.Permissions.Model.{Actor, Ownership, EntityGrant, GrantAction}
use qwbe.Permissions.State.{
  State, ownership_fields, grant_fields, ownership_of, grants_for, group_ids_for,
}
use qwbe.Permissions.State.Lookups.{
  owns_ref, grants_ref, ownership_of-eq-find, grants_for-eq-filter,
}
use qwbe.Permissions.Foundation.{
  Scope, entity, gives, is_owner, scope_pairs, entity_id_of, oldest_owned_by, sees, own_rows,
  rows_of_ids, ownership_rows_of, decide, visible_ids,
}

abbrev same_id : String → Row Ownership → Bool
same_id id r = entity_id_of r == id

-- An id is kept exactly if its first row belongs to the user and the id was not met before.
contains-oldest_owned_by :
    (seen : List String) (user_id id : String) (rows : List (Row Ownership))
    → contains (oldest_owned_by seen user_id rows) id
      ≡ (not (contains seen id) && is_owner user_id (find (same_id id) rows))
unfolding oldest_owned_by
contains-oldest_owned_by seen user_id id [] = ground arith
contains-oldest_owned_by seen user_id id (r ∷ rows) = ground (
  arith,
  eq_iff (entity_id_of r) id,
  contains-oldest_owned_by seen user_id id rows,
  contains-oldest_owned_by (entity_id_of r ∷ seen) user_id id rows,
)

abbrev in_scope : Scope → Row Ownership → Bool
in_scope scope r =
    is_live r && (r.body.ref.cube == scope.cube && r.body.ref.entity_type == scope.entity_type)

abbrev grant_in_scope : Scope → Row EntityGrant → Bool
grant_in_scope scope r =
    is_live r && (r.body.ref.cube == scope.cube && r.body.ref.entity_type == scope.entity_type)

module _ (env : Platform) (scope : Scope) where
  matches-own :
      (user_id : String) (r : Row Ownership)
      → matches env
          (pairs
            (("cube", scope.cube) ∷ ("entityType", scope.entity_type) ∷ ("ownerId", user_id) ∷ []))
          (view (ownership_fields env) r)
        ≡ (in_scope scope r && r.body.owner_id == user_id)
  unfolding matches
  matches-own user_id r = ground arith

  matches-ids :
      (ids : List String) (r : Row Ownership)
      → matches env (rows_of_ids env scope ids) (view (ownership_fields env) r)
        ≡ (in_scope scope r && contains ids (entity_id_of r))
  unfolding matches set_sql
  matches-ids [] r = ground arith
  matches-ids (x ∷ xs) r = ground arith

  matches-scope :
      (r : Row EntityGrant)
      → matches env (pairs (scope_pairs scope)) (view grant_fields r) ≡ grant_in_scope scope r
  unfolding matches
  matches-scope r = ground arith

module _ (scope : Scope) (user_id id : String) where
  abbrev owned_here : Row Ownership → Bool
  owned_here r = (in_scope scope r && r.body.owner_id == user_id) && same_id id r

  abbrev listed_here : List String → Row Ownership → Bool
  listed_here ids r = (in_scope scope r && contains ids (entity_id_of r)) && same_id id r

  listed_here-in :
      (ids : List String) (r : Row Ownership)
      → contains ids id ≡ true
      → listed_here ids r ≡ owns_ref (entity scope id) r
  listed_here-in ids r h = ground (arith, eq_iff (entity_id_of r) id)

  listed_here-out :
      (ids : List String) (r : Row Ownership) → contains ids id ≡ false → listed_here ids r ≡ false
  listed_here-out ids r h = ground (arith, eq_iff (entity_id_of r) id)

  owned_here-eq :
      (r : Row Ownership)
      → (owns_ref (entity scope id) r && r.body.owner_id == user_id) ≡ owned_here r
  owned_here-eq r = ground arith

  -- No row of the user: the oldest row of the entity is not the user's.
  not_owner :
      (t : List (Row Ownership))
      → any owned_here t ≡ false
      → is_owner user_id (find (owns_ref (entity scope id)) t) ≡ false
  not_owner t h = elim (Option-cases (find (owns_ref (entity scope id)) t)) [
    | inl nothing ↦ rw nothing
    | inr (r, found) ↦ rw found (elim (Bool-cases (r.body.owner_id == user_id)) [
      | inr other ↦ other
      | inl mine ↦ absurd (
          cc (
            h,
            any-of-find (owns_ref (entity scope id)) (λ x. x.body.owner_id == user_id) t found mine,
            ap (λ (p : Row Ownership → Bool). any p t) (fun_ext owned_here-eq),
          ))
    ])
  ]

  -- The rows read for the ids that the user has a row of decide ownership of an entity alike.
  owner_of_listed :
      (t : List (Row Ownership)) (ids : List String)
      → contains ids id ≡ any owned_here t
      → is_owner user_id
          (find (same_id id) (filter (λ r. in_scope scope r && contains ids (entity_id_of r)) t))
        ≡ is_owner user_id (find (owns_ref (entity scope id)) t)
  owner_of_listed t ids h = elim (Bool-cases (contains ids id)) [
    | inl inside ↦ ap (is_owner user_id) (
        find-filter (λ r. in_scope scope r && contains ids (entity_id_of r)) (same_id id) t
        ∙ ap (λ (p : Row Ownership → Bool). find p t) (fun_ext (λ r. listed_here-in ids r inside)))
    | inr outside ↦
        ap (is_owner user_id) (
          find-filter (λ r. in_scope scope r && contains ids (entity_id_of r)) (same_id id) t
          ∙ find-none (listed_here ids) t (
              ap (λ (p : Row Ownership → Bool). any p t)
                (fun_ext (λ r. listed_here-out ids r outside))
              ∙ any-false t))
        ∙ sym (not_owner t (sym h ∙ outside))
  ]

module _ (env : Platform) (scope : Scope) (s : State) where
  own_rows-eq :
      (user_id : String)
      → own_rows env scope user_id s
        ≡ filter (λ r. in_scope scope r && r.body.owner_id == user_id) s.ownership
  unfolding own_rows rows_where
  own_rows-eq user_id =
      ap (λ (p : Row Ownership → Bool). filter p s.ownership)
        (fun_ext (matches-own env scope user_id))

  contains-own_ids :
      (user_id id : String)
      → contains (map entity_id_of (own_rows env scope user_id s)) id
        ≡ any (owned_here scope user_id id) s.ownership
  contains-own_ids user_id id =
      contains-map entity_id_of (own_rows env scope user_id s) id
      ∙ ap (any (same_id id)) (own_rows-eq user_id)
      ∙ any-filter (λ r. in_scope scope r && r.body.owner_id == user_id) (same_id id) s.ownership

  owner_of_rows :
      (user_id id : String)
      → is_owner user_id (find (same_id id) (ownership_rows_of env scope user_id s))
        ≡ is_owner user_id (ownership_of env (entity scope id) s)
  unfolding ownership_rows_of rows_where
  owner_of_rows user_id id =
      let ids = map entity_id_of (own_rows env scope user_id s) in
      ap (λ (p : Row Ownership → Bool). is_owner user_id (find (same_id id) (filter p s.ownership)))
        (fun_ext (matches-ids env scope ids))
      ∙ owner_of_listed scope user_id id s.ownership ids (contains-own_ids user_id id)
      ∙ ap (is_owner user_id) (sym (ownership_of-eq-find env (entity scope id) s))

  abbrev grant_id : Row EntityGrant → String
  grant_id g = g.body.ref.entity_id

  abbrev gives_here : String → GrantAction → Row EntityGrant → Bool
  gives_here user_id action = gives user_id (group_ids_for env user_id s) action

  gives_here-eq :
      (user_id id : String) (action : GrantAction) (g : Row EntityGrant)
      → (grant_in_scope scope g && (gives_here user_id action g && grant_id g == id))
        ≡ (grants_ref (entity scope id) g && gives_here user_id action g)
  gives_here-eq user_id id action g = elim (Bool-cases (gives_here user_id action g)) [
    | inl yes' ↦ rw yes' (ground arith)
    | inr no' ↦ rw no' (ground arith)
  ]

  -- The ids granted in the scope are those of the entities with a grant that gives the action.
  granted_ids :
      (user_id id : String) (action : GrantAction)
      → contains
          (map grant_id (
            filter
              (gives_here user_id action)
              (rows_where env grant_fields (pairs (scope_pairs scope)) s.grants)))
          id
        ≡ is_some (find (gives_here user_id action) (grants_for env (entity scope id) s))
  unfolding rows_where
  granted_ids user_id id action =
      let scoped =
        filter (λ r. matches env (pairs (scope_pairs scope)) (view grant_fields r)) s.grants in
      contains-map grant_id (filter (gives_here user_id action) scoped) id
      ∙ any-filter (gives_here user_id action) (λ g. grant_id g == id) scoped
      ∙ any-filter (λ r. matches env (pairs (scope_pairs scope)) (view grant_fields r))
          (λ g. gives_here user_id action g && grant_id g == id) s.grants
      ∙ ap
          (λ (p : Row EntityGrant → Bool).
            any (λ g. p g && (gives_here user_id action g && grant_id g == id)) s.grants)
          (fun_ext (matches-scope env scope))
      ∙ ap (λ (p : Row EntityGrant → Bool). any p s.grants)
          (fun_ext (gives_here-eq user_id id action))
      ∙ sym (any-filter (grants_ref (entity scope id)) (gives_here user_id action) s.grants)
      ∙ ap (any (gives_here user_id action)) (sym (grants_for-eq-filter env (entity scope id) s))
      ∙ sym (is_some-find (gives_here user_id action) (grants_for env (entity scope id) s))

  -- For every actor, action and entity of the scope: the entity is among the visible ids exactly
  -- when the decision for it is that the action is allowed.
  pub visible_ids-eq-decide :
      (actor : Actor) (action : GrantAction) (id : String)
      → sees (visible_ids env actor scope action s) id
        ≡ (decide env actor (entity scope id) action s).allowed
  unfolding visible_ids decide
  visible_ids-eq-decide actor action id = ground (
    arith,
    contains-append (oldest_owned_by [] actor.user_id (ownership_rows_of env scope actor.user_id s))
        (map grant_id (
          filter (gives_here actor.user_id action)
            (rows_where env grant_fields (pairs (scope_pairs scope)) s.grants)))
        id,
    contains-oldest_owned_by [] actor.user_id id (ownership_rows_of env scope actor.user_id s),
    owner_of_rows actor.user_id id,
    granted_ids actor.user_id id action,
  )
