-- ===== src/Permissions/Sharing/Access.antt =====
-- What a grant gives and what its revocation takes away.
use qwbe.Prelude.{
  String, true, ◌≡◌, refl, ap, ◌∙◌, inl, inr, some, List, [], ◌∷◌, ◌++◌, arith, ◌==◌, eq_refl, any,
  filter, Bool-cases, Option-cases, filter-append, any-append, is_some-find,
}
use qwbe.Kernel.Platform.{Platform}
use qwbe.Kernel.Table.{Row, insert}
use qwbe.Permissions.Model.{
  Actor, EntityRef, EntityGrant, AccessDecision, Subject, user, group, GrantAction, includes,
  names_user,
}
use qwbe.Permissions.Effect.{Outcome, success, failure}
use qwbe.Permissions.State.{
  State, Group, AuditResult, Trace, ownership_of, is_cube_admin, grants_for, group_ids_for,
  recount_shares, write_audit,
}
use qwbe.Permissions.State.Lookups.{grants_ref, grants_for-eq-filter}
use qwbe.Permissions.Foundation.{gives, decide, may_share}
use qwbe.Permissions.Sharing.{
  nonempty, new_grant, write_grant, grant_user, grant_group, group_by_id,
}

module _ (env : Platform) (ref : EntityRef) where
  -- A grant that gives the action decides for its user.
  pub decide-of-grant :
      (actor : Actor) (action : GrantAction) (s : State)
      → any (gives actor.user_id (group_ids_for env actor.user_id s) action) (grants_for env ref s)
        ≡ true
      → (decide env actor ref action s).allowed ≡ true
  unfolding decide
  decide-of-grant actor action s h = ground (
    arith,
    is_some-find (gives actor.user_id (group_ids_for env actor.user_id s) action)
        (grants_for env ref s),
  )

  module _ (actor : Actor) (subject : Subject) (actions : List GrantAction) (s : State) where
    abbrev granted_row : Row EntityGrant
    granted_row = new_grant env actor ref subject actions s

    grants-write_grant :
        (write_grant env actor ref subject actions s).grants ≡ s.grants ++ granted_row ∷ []
    unfolding write_grant recount_shares insert
    grants-write_grant = refl

    grants_for-write_grant :
        grants_for env ref (write_grant env actor ref subject actions s)
        ≡ grants_for env ref s ++ granted_row ∷ []
    grants_for-write_grant =
        grants_for-eq-filter env ref (write_grant env actor ref subject actions s)
        ∙ ap (filter (grants_ref ref)) grants-write_grant
        ∙ filter-append (grants_ref ref) s.grants (granted_row ∷ [])
        ∙ ground (
          arith,
          eq_refl ref.cube,
          eq_refl ref.entity_type,
          eq_refl ref.entity_id,
          grants_for-eq-filter env ref s,
        )

    group_ids-write_grant :
        (user_id : String)
        → group_ids_for env user_id (write_grant env actor ref subject actions s)
          ≡ group_ids_for env user_id s
    unfolding write_grant recount_shares group_ids_for
    group_ids-write_grant user_id = refl

    -- Whoever the subject names may do what the new grant gives.
    decide-write_grant :
        (who : Actor) (action : GrantAction)
        → includes actions action ≡ true
        → names_user who.user_id (group_ids_for env who.user_id s) subject ≡ true
        → (decide env who ref action (write_grant env actor ref subject actions s)).allowed ≡ true
    decide-write_grant who action h k =
        decide-of-grant who action (write_grant env actor ref subject actions s) (
          rw (grants_for-write_grant, group_ids-write_grant who.user_id)
            (any-append (gives who.user_id (group_ids_for env who.user_id s) action)
                (grants_for env ref s) (granted_row ∷ [])
              ∙ ground arith))

  -- The audit row behind an operation decides nothing.
  pub decide-write_audit :
      (who actor : Actor) (r : EntityRef) (name : String) (result : AuditResult)
      (before after : Trace) (action : GrantAction) (s : State)
      → decide env who ref action (write_audit env actor r name result before after s).1
        ≡ decide env who ref action s
  unfolding decide write_audit ownership_of is_cube_admin grants_for group_ids_for
  decide-write_audit who actor r name result before after action s = refl

-- What sharing with a subject ends with, beside the guard that a group adds.
module _ (env : Platform) (actor : Actor) (ref : EntityRef) (subject : Subject)
    (actions : List GrantAction) where
  abbrev pub IsShared : State → State → Type 0
  IsShared s s' =
      (may_share env actor ref s ≡ true)
      × (s'.grants ≡ s.grants ++ new_grant env actor ref subject actions s ∷ [])
      × ((who : Actor) (action : GrantAction)
          → includes actions action ≡ true
          → names_user who.user_id (group_ids_for env who.user_id s) subject ≡ true
          → (decide env who ref action s').allowed ≡ true)

  abbrev pub GrantEnds : State → Outcome (Row EntityGrant) × State → Type 0
  GrantEnds s (success row, s') = IsShared s s'
  GrantEnds s (failure e, s') = s' ≡ s

module _ (env : Platform) (actor : Actor) (ref : EntityRef) (actions : List GrantAction) where
  -- `grantUser` either fails and writes nothing, or the actor had the right to share, one grant is
  -- added behind the others, and the named user may do every action of the grant.
  pub grant_user-GrantEnds :
      (user_id : String) (s : State)
      → GrantEnds env actor ref
          (user user_id)
          actions
          s
          (grant_user env actor ref user_id actions s)
  unfolding grant_user write_audit
  grant_user-GrantEnds user_id s = elim (Bool-cases (may_share env actor ref s)) [
    | inr refused ↦ rw refused refl
    | inl may ↦ elim (Bool-cases (nonempty actions)) [
      | inr empty ↦ rw (may, empty) refl
      | inl given ↦
          rw (may, given)
            (
              may,
              grants-write_grant env ref actor (user user_id) actions s,
              λ who action h k.
                  ap (λ (d : AccessDecision). d.allowed)
                    (decide-write_audit env ref who actor ref _ _ _ _ action _)
                  ∙ decide-write_grant env ref actor (user user_id) actions s who action h k,
            )
    ]
  ]

  abbrev pub GroupGrantEnds : String → State → Outcome (Row EntityGrant) × State → Type 0
  GroupGrantEnds group_id s (success row, s') =
      IsShared env actor ref (group group_id) actions s s'
      × ((g : Row Group) × (group_by_id env group_id s ≡ some g)
          × ((g.body.cube == ref.cube) ≡ true))
  GroupGrantEnds group_id s (failure e, s') = s' ≡ s

  -- `grantGroup` either fails and writes nothing, or the actor had the right to share, the group
  -- exists in the cube of the entity, one grant is added behind the others, and every member of the
  -- group may do every action of the grant.
  pub grant_group-GroupGrantEnds :
      (group_id : String) (s : State)
      → GroupGrantEnds group_id s (grant_group env actor ref group_id actions s)
  unfolding grant_group write_audit
  grant_group-GroupGrantEnds group_id s = elim (Bool-cases (may_share env actor ref s)) [
    | inr refused ↦ rw refused refl
    | inl may ↦ elim (Bool-cases (nonempty actions)) [
      | inr empty ↦ rw (may, empty) refl
      | inl given ↦ elim (Option-cases (group_by_id env group_id s)) [
        | inl missing ↦ rw (may, given, missing) refl
        | inr (g, found) ↦ elim (Bool-cases (g.body.cube == ref.cube)) [
          | inr foreign ↦ rw (may, given, found, foreign) refl
          | inl same ↦
              rw (may, given, found, same)
                (
                  (
                    may,
                    grants-write_grant env ref actor (group group_id) actions s,
                    λ who action h k.
                        ap (λ (d : AccessDecision). d.allowed)
                          (decide-write_audit env ref who actor ref _ _ _ _ action _)
                        ∙ decide-write_grant env ref actor (group group_id) actions s who action h
                            k,
                  ),
                  (g, found, same),
                )
        ]
      ]
    ]
  ]
