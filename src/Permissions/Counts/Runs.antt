-- ===== src/Permissions/Counts/Runs.antt =====
-- Any sequence of operations keeps the stored keys and counts in agreement with the live grants.
use qwbe.Prelude.{
  String, Bool, ◌≡◌, refl, sym, ◌∙◌, inl, inr, some, List, arith, ◌==◌, eq_iff, Bool-cases,
  Option-cases, IsIn, IsIn-find,
}
use mathlib.Core.Path.{subst}
use qwbe.Kernel.Platform.{Platform}
use qwbe.Kernel.Where.{matches, pair}
use qwbe.Kernel.Table.{Row, view, first}
use qwbe.Kernel.Table.Laws.{first-eq-find}
use qwbe.Permissions.Model.{
  Actor, EntityRef, EntityGrant, EntityVisibility, Subject, user, group, GrantAction, transfer,
}
use qwbe.Permissions.State.{State, grant_fields, ownership_of, write_audit}
use qwbe.Permissions.Foundation.{decide, may_share, authorize, claim, transfer_ownership}
use qwbe.Permissions.Sharing.{nonempty, grant_user, grant_group, revoke_grant, group_by_id}
use qwbe.Permissions.Effect.{Outcome, success, failure}
use qwbe.Permissions.Groups.{create_group, rename_group, add_group_member, remove_group_member}
use qwbe.Permissions.CubeAdmins.{assign_cube_admin, revoke_cube_admin}
use qwbe.Permissions.Capabilities.{grant_capability, revoke_capability_grant}
use qwbe.Permissions.Visibility.Pages.{set_hidden}
use qwbe.Permissions.Visibility.Hiding.{HidingEnds, set_hidden-HidingEnds}
use qwbe.Permissions.Counts.Others.{
  KeepsShares, create_group-KeepsShares, rename_group-KeepsShares, add_group_member-KeepsShares,
  remove_group_member-KeepsShares, assign_cube_admin-KeepsShares, revoke_cube_admin-KeepsShares,
  grant_capability-KeepsShares, revoke_capability_grant-KeepsShares,
}
use qwbe.Permissions.Counts.Consistency.{IsConsistent, StateIsConsistent}
use qwbe.Permissions.Counts.Operations.{
  DrawsFreshIds, write_claim-IsConsistent, write_grant-IsConsistent, retire_grant-IsConsistent,
  write_owner-IsConsistent,
}

-- The operations of the service that write; those on capabilities carry the capabilities that are
-- declared when they run.
pub data Operation : Type 0 where
  claims : Actor → EntityRef → Operation
  authorizes : Actor → EntityRef → GrantAction → Operation
  transfers : Actor → EntityRef → (user_id : String) → Operation
  shares_user shares_group : Actor → EntityRef → (id : String) → List GrantAction → Operation
  revokes : Actor → (grant_id : String) → Operation
  creates_group : Actor → (cube name : String) → Operation
  renames_group : Actor → (group_id name : String) → Operation
  adds_member removes_member : Actor → (group_id user_id : String) → Operation
  assigns_admin revokes_admin : Actor → (cube user_id : String) → Operation
  grants_capability : List String → Actor → Subject → (capability : String) → Operation
  revokes_capability : List String → Actor → (grant_id : String) → Operation
  hides : Actor → EntityRef → Bool → Operation

module _ (env : Platform) where
  -- The state that an operation leaves, whether it succeeds or fails.
  unfoldable pub run : Operation → State → State
  run (claims actor ref) s = (claim env actor ref s).1
  run (authorizes actor ref action) s = (authorize env actor ref action s).1
  run (transfers actor ref user_id) s = (transfer_ownership env actor ref user_id s).1
  run (shares_user actor ref id actions) s = (grant_user env actor ref id actions s).1
  run (shares_group actor ref id actions) s = (grant_group env actor ref id actions s).1
  run (revokes actor grant_id) s = (revoke_grant env actor grant_id s).1
  run (creates_group actor cube name) s = (create_group env actor cube name s).1
  run (renames_group actor group_id name) s = (rename_group env actor group_id name s).1
  run (adds_member actor group_id user_id) s = (add_group_member env actor group_id user_id s).1
  run (removes_member actor group_id user_id) s =
      (remove_group_member env actor group_id user_id s).1
  run (assigns_admin actor cube user_id) s = (assign_cube_admin env actor cube user_id s).1
  run (revokes_admin actor cube user_id) s = (revoke_cube_admin env actor cube user_id s).1
  run (grants_capability declared actor subject capability) s =
      (grant_capability env declared actor subject capability s).1
  run (revokes_capability declared actor grant_id) s =
      (revoke_capability_grant env declared actor grant_id s).1
  run (hides actor ref hidden) s = (set_hidden env actor ref hidden s).1

  module _ (s : State) (consistent : StateIsConsistent s) where
    claim-IsConsistent :
        (actor : Actor) (ref : EntityRef)
        → DrawsFreshIds env s
        → StateIsConsistent (claim env actor ref s).1
    unfolding claim write_audit
    claim-IsConsistent actor ref fresh = elim (Option-cases (ownership_of env ref s)) [
      | inl free ↦ rw free (write_claim-IsConsistent env s consistent actor ref fresh)
      | inr (r, owned) ↦ rw owned consistent
    ]

    transfer-IsConsistent :
        (actor : Actor) (ref : EntityRef) (user_id : String)
        → StateIsConsistent (transfer_ownership env actor ref user_id s).1
    unfolding transfer_ownership write_audit
    transfer-IsConsistent actor ref user_id = elim (Option-cases (ownership_of env ref s)) [
      | inl free ↦ rw free consistent
      | inr (r, owned) ↦ elim (Bool-cases (decide env actor ref transfer s).allowed) [
        | inl may ↦ rw (owned, may) (write_owner-IsConsistent env s consistent ref r user_id)
        | inr refused ↦ rw (owned, refused) consistent
      ]
    ]

    grant_user-IsConsistent :
        (actor : Actor) (ref : EntityRef) (id : String) (actions : List GrantAction)
        → DrawsFreshIds env s
        → StateIsConsistent (grant_user env actor ref id actions s).1
    unfolding grant_user write_audit
    grant_user-IsConsistent actor ref id actions fresh =
        elim (Bool-cases (may_share env actor ref s)) [
          | inr refused ↦ rw refused consistent
          | inl may ↦ elim (Bool-cases (nonempty actions)) [
            | inr empty ↦ rw (may, empty) consistent
            | inl given ↦
                rw (may, given)
                  (write_grant-IsConsistent env s consistent actor ref (user id) actions fresh)
          ]
        ]

    grant_group-IsConsistent :
        (actor : Actor) (ref : EntityRef) (id : String) (actions : List GrantAction)
        → DrawsFreshIds env s
        → StateIsConsistent (grant_group env actor ref id actions s).1
    unfolding grant_group write_audit
    grant_group-IsConsistent actor ref id actions fresh =
        elim (Bool-cases (may_share env actor ref s)) [
          | inr refused ↦ rw refused consistent
          | inl may ↦ elim (Bool-cases (nonempty actions)) [
            | inr empty ↦ rw (may, empty) consistent
            | inl given ↦ elim (Option-cases (group_by_id env id s)) [
              | inl missing ↦ rw (may, given, missing) consistent
              | inr (g, found) ↦ elim (Bool-cases (g.body.cube == ref.cube)) [
                | inr foreign ↦ rw (may, given, found, foreign) consistent
                | inl same ↦
                    rw (may, given, found, same)
                      (write_grant-IsConsistent env s consistent actor ref (group id) actions fresh)
              ]
            ]
          ]
        ]

    found_by_id :
        (grant_id : String) (g : Row EntityGrant)
        → first env grant_fields (pair "id" grant_id) s.grants ≡ some g
        → IsIn g s.grants × (g.id ≡ grant_id)
    unfolding matches
    found_by_id grant_id g h =
        let (m, k) =
          IsIn-find (λ r. matches env (pair "id" grant_id) (view grant_fields r)) s.grants g
            (sym (first-eq-find env grant_fields (pair "id" grant_id) s.grants) ∙ h) in
        (m, ground (arith, eq_iff g.id grant_id, k))

    revoke_grant-IsConsistent :
        (actor : Actor) (grant_id : String)
        → StateIsConsistent (revoke_grant env actor grant_id s).1
    unfolding revoke_grant write_audit
    revoke_grant-IsConsistent actor grant_id =
        elim (Option-cases (first env grant_fields (pair "id" grant_id) s.grants)) [
          | inl missing ↦ rw missing consistent
          | inr (g, found) ↦ elim (Bool-cases (may_share env actor g.body.ref s)) [
            | inr refused ↦ rw (found, refused) consistent
            | inl may ↦
                let (m, same) = found_by_id grant_id g found in
                rw (found, may, ← same) (retire_grant-IsConsistent env s consistent g m)
          ]
        ]

  kept-IsConsistent : (s s' : State) → KeepsShares s s' → StateIsConsistent s → StateIsConsistent s'
  kept-IsConsistent s s' k c =
      subst (λ owners. IsConsistent owners s'.grants) (sym k.0)
        (subst (λ grants. IsConsistent s.ownership grants) (sym k.1) c)

  hiding_keeps :
      (actor : Actor) (ref : EntityRef) (hidden : Bool) (s : State)
      (r : Outcome EntityVisibility × State)
      → HidingEnds env actor ref hidden s r
      → KeepsShares s r.1
  hiding_keeps actor ref hidden s (success row, s') ends = (ends.2, ends.3)
  hiding_keeps actor ref hidden s (failure e, s') ends = rw ends (refl, refl)

  -- Whatever the operation and whether or not it fails: if the stored keys and counts agree with the
  -- live grants and the drawn ids are new, they agree afterwards.
  pub run-IsConsistent :
      (op : Operation) (s : State)
      → DrawsFreshIds env s
      → StateIsConsistent s
      → StateIsConsistent (run op s)
  unfolding run authorize write_audit
  run-IsConsistent (claims actor ref) s fresh c = claim-IsConsistent s c actor ref fresh
  run-IsConsistent (authorizes actor ref action) s fresh c = c
  run-IsConsistent (transfers actor ref user_id) s fresh c =
      transfer-IsConsistent s c actor ref user_id
  run-IsConsistent (shares_user actor ref id actions) s fresh c =
      grant_user-IsConsistent s c actor ref id actions fresh
  run-IsConsistent (shares_group actor ref id actions) s fresh c =
      grant_group-IsConsistent s c actor ref id actions fresh
  run-IsConsistent (revokes actor grant_id) s fresh c = revoke_grant-IsConsistent s c actor grant_id
  run-IsConsistent (creates_group actor cube name) s fresh c =
      kept-IsConsistent s (run (creates_group actor cube name) s)
        (create_group-KeepsShares env actor s cube name) c
  run-IsConsistent (renames_group actor group_id name) s fresh c =
      kept-IsConsistent s (run (renames_group actor group_id name) s)
        (rename_group-KeepsShares env actor s group_id name) c
  run-IsConsistent (adds_member actor group_id user_id) s fresh c =
      kept-IsConsistent s (run (adds_member actor group_id user_id) s)
        (add_group_member-KeepsShares env actor s group_id user_id) c
  run-IsConsistent (removes_member actor group_id user_id) s fresh c =
      kept-IsConsistent s (run (removes_member actor group_id user_id) s)
        (remove_group_member-KeepsShares env actor s group_id user_id) c
  run-IsConsistent (assigns_admin actor cube user_id) s fresh c =
      kept-IsConsistent s (run (assigns_admin actor cube user_id) s)
        (assign_cube_admin-KeepsShares env actor s cube user_id) c
  run-IsConsistent (revokes_admin actor cube user_id) s fresh c =
      kept-IsConsistent s (run (revokes_admin actor cube user_id) s)
        (revoke_cube_admin-KeepsShares env actor s cube user_id) c
  run-IsConsistent (grants_capability declared actor subject capability) s fresh c =
      kept-IsConsistent s (run (grants_capability declared actor subject capability) s)
        (grant_capability-KeepsShares env actor s declared subject capability) c
  run-IsConsistent (revokes_capability declared actor grant_id) s fresh c =
      kept-IsConsistent s (run (revokes_capability declared actor grant_id) s)
        (revoke_capability_grant-KeepsShares env actor s declared grant_id) c
  run-IsConsistent (hides actor ref hidden) s fresh c =
      kept-IsConsistent s (run (hides actor ref hidden) s)
        (hiding_keeps actor ref hidden s (set_hidden env actor ref hidden s)
          (set_hidden-HidingEnds env actor ref hidden s))
        c

-- The states that operations lead to, each drawing new ids.
pub data Reaches (env : Platform) (s : State) : State → Type 0 where
  here : Reaches env s s
  next :
      {t u : State}
      → Reaches env s t
      → DrawsFreshIds env t
      → (op : Operation) → u ≡ run env op t
      → Reaches env s u

-- From a state whose stored keys and counts agree with the live grants, every sequence of operations
-- leads to states where they agree.
pub Reaches-IsConsistent :
    (env : Platform) {s t : State} → StateIsConsistent s → Reaches env s t → StateIsConsistent t
Reaches-IsConsistent env c here = c
Reaches-IsConsistent env c (next {t = t} r fresh op e) =
    subst StateIsConsistent (sym e) (run-IsConsistent env op t fresh (Reaches-IsConsistent env c r))
