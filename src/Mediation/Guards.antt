-- ===== src/Mediation/Guards.antt =====
-- What passes the guards: only what the decision allows.
use qwbe.Prelude.{
  String, Bool, true, false, ◌≡◌, refl, sym, ap, ◌∙◌, ◌⊎◌, or_else, eq_iff, inl, inr, Option, none,
  some, List, [], ◌∷◌, ◌==◌, all, IsIn-of_all, IsIn, Bool-cases, Option-cases,
}
use qwbe.Kernel.Platform.{Platform}
use qwbe.Kernel.ListQuery.{ListParams}
use qwbe.Permissions.Model.{Actor, GrantAction, read}
use qwbe.Permissions.State.{State, write_audit}
use qwbe.Permissions.Foundation.{
  Scope, entity, Visible, everything, only, sees, visible_ids, decide, authorize,
}
use qwbe.Permissions.Foundation.Scopes.{visible_ids-eq-decide}
use qwbe.Mediation.{
  Reply, denied, dies, answers, Returned, no_page, page, guard_item, returned_ids, checked,
  narrow_ids, scoped_list, list_for, mediate_list,
}

abbrev all_seen : Visible → Option (List String) → Bool
all_seen visible none = true
all_seen visible (some ids) = all (sees visible) ids

module _ (env : Platform) (scope : Scope) (actor : Actor) where
  returned_ids-all_seen :
      (visible : Visible) (rows : List (Option String))
      → all_seen visible (returned_ids env scope actor visible rows) ≡ true
  unfolding returned_ids
  returned_ids-all_seen visible [] = refl
  returned_ids-all_seen visible (none ∷ rows) = refl
  returned_ids-all_seen visible (some id ∷ rows) =
      let rest = returned_ids-all_seen visible rows in
      elim (Option-cases (returned_ids env scope actor visible rows)) [
        | inl refused ↦ rw refused refl
        | inr (ids, found) ↦
            let seen : all (sees visible) ids ≡ true = ap (all_seen visible) (sym found) ∙ rest in
            elim (Bool-cases (sees visible id)) [
              | inl sees_id ↦ rw (found, sees_id) (rw (sees_id, seen) refl)
              | inr hidden ↦ rw (found, hidden) refl
            ]
      ]

  -- What a list route ends with: ids that may all be read, or a defect and nothing written.
  abbrev pub IsReadable : State → Reply (List String) × State → Type 0
  IsReadable s (answers ids, s') =
      (id : String) → IsIn id ids → (decide env actor (entity scope id) read s).allowed ≡ true
  IsReadable s (denied, s') = ⊥
  IsReadable s (dies, s') = s' ≡ s

  module _ (handler : ListParams → Returned) (s : State) where
    checked-IsReadable :
        (visible : Visible) (r : Returned)
        → visible ≡ visible_ids env actor scope read s
        → IsReadable s (checked env scope actor handler visible r s)
    checked-IsReadable visible no_page e = refl
    checked-IsReadable visible (page rows) e =
        elim (Option-cases (returned_ids env scope actor visible rows)) [
          | inl refused ↦ rw refused refl
          | inr (ids, found) ↦
              let seen : all (sees visible) ids ≡ true =
                ap (all_seen visible) (sym found) ∙ returned_ids-all_seen visible rows in
              rw found (λ id m.
                sym (visible_ids-eq-decide env scope s actor read id)
                ∙ ap (λ v. sees v id) (sym e)
                ∙ IsIn-of_all (sees visible) id ids seen m)
        ]

    list_for-IsReadable :
        (p : ListParams) (visible : Visible)
        → visible ≡ visible_ids env actor scope read s
        → IsReadable s (list_for env scope actor handler p visible s)
    list_for-IsReadable p everything e = checked-IsReadable everything (handler p) e
    list_for-IsReadable p (only ids) e = scoped (narrow_ids env scope actor p.ids ids)
      where
        scoped :
            (narrowed : List String)
            → IsReadable s (scoped_list env scope actor handler p ids narrowed s)
        scoped [] = λ id m. absurd m
        scoped (id ∷ narrowed) = checked-IsReadable (only ids) _ e

    -- Whatever a list handler returns, also if it ignores the ids it is given: the mediated route
    -- answers with entities of the scope only that the decision lets the actor read, or it ends in a
    -- defect and has written nothing.
    pub mediate_list-IsReadable :
        (p : ListParams) → IsReadable s (mediate_list env scope actor handler p s)
    unfolding mediate_list
    mediate_list-IsReadable p = list_for-IsReadable p (visible_ids env actor scope read s) refl

  module _ {Request B : Type 0} (handler : Request → B) (request : Request) where
    -- What an item route ends with: the handler ran and the decision allows the action, or it did not
    -- run and the decision refuses, or there was no id and nothing was written.
    abbrev pub GuardEnds : GrantAction → Option String → State → Reply B × State → Type 0
    GuardEnds action id s (answers b, s') =
        (i : String) × (id ≡ some i)
        × (b ≡ handler request)
        × ((decide env actor (entity scope i) action s).allowed ≡ true)
    GuardEnds action id s (denied, s') =
        ((s' ≡ s) × (or_else id "" ≡ ""))
        ⊎ ((i : String) × (id ≡ some i)
            × ((decide env actor (entity scope i) action s).allowed ≡ false))
    GuardEnds action id s (dies, s') = ⊥

    -- An item route runs its handler exactly for a request with an id that is not empty and an actor
    -- whom the decision allows the action; otherwise it refuses, and without an id it writes nothing.
    pub guard_item-GuardEnds :
        (action : GrantAction) (id : Option String) (s : State)
        → GuardEnds action id s (guard_item env scope actor handler request action id s)
    unfolding guard_item authorize write_audit
    guard_item-GuardEnds action none s = inl (refl, refl)
    guard_item-GuardEnds action (some i) s = elim (Bool-cases (i == "")) [
      | inl empty ↦ rw empty (inl (refl, (eq_iff i "").0 empty))
      | inr given ↦ elim (Bool-cases (decide env actor (entity scope i) action s).allowed) [
        | inl may ↦ rw (given, may) (i, refl, refl, may)
        | inr refused ↦ rw (given, refused) (inr (i, refl, refused))
      ]
    ]
