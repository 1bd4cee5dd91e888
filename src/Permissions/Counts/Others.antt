-- ===== src/Permissions/Counts/Others.antt =====
-- The operations that write neither ownership nor grants: groups, cube admins, capabilities, hidden
-- marks and lists.
use qwbe.Prelude.{
  String, ◌≡◌, refl, inl, inr, List, [], ◌∷◌, Bool-cases, Option-cases, ◌==◌, contains,
}
use qwbe.Kernel.Platform.{Platform}
use qwbe.Kernel.Table.{Row, by_id}
use qwbe.Permissions.Model.{Actor, Subject, user, group}
use qwbe.Permissions.State.{State, Capability, write_audit, is_cube_admin}
use qwbe.Permissions.Sharing.{group_by_id}
use qwbe.Permissions.Groups.{
  has_name, has_cube_access, administer, create_group, rename_group, membership_of,
  add_group_member, remove_group_member,
}
use qwbe.Permissions.CubeAdmins.{find_admin, assign_cube_admin, revoke_cube_admin}
use qwbe.Permissions.Capabilities.{
  cube_of, existing_grant, twins, retire_all, grant_capability, revoke_capability_grant,
}

-- Ownership and grants are as before.
abbrev pub KeepsShares : State → State → Type 0
KeepsShares s s' = (s'.ownership ≡ s.ownership) × (s'.grants ≡ s.grants)

module _ (env : Platform) (actor : Actor) (s : State) where
  pub create_group-KeepsShares :
      (cube name : String) → KeepsShares s (create_group env actor cube name s).1
  unfolding create_group write_audit
  create_group-KeepsShares cube name = elim (Bool-cases (has_name name)) [
    | inr blank ↦ rw blank (refl, refl)
    | inl named ↦ elim (Bool-cases (has_cube_access env actor cube s)) [
      | inr refused ↦ rw (named, refused) (refl, refl)
      | inl may ↦ rw (named, may) (refl, refl)
    ]
  ]

  pub rename_group-KeepsShares :
      (group_id name : String) → KeepsShares s (rename_group env actor group_id name s).1
  unfolding rename_group administer write_audit
  rename_group-KeepsShares group_id name = elim (Option-cases (group_by_id env group_id s)) [
    | inl missing ↦ rw missing (refl, refl)
    | inr (g, found) ↦ elim (Bool-cases (has_cube_access env actor g.body.cube s)) [
      | inr refused ↦ rw (found, refused) (refl, refl)
      | inl may ↦ elim (Bool-cases (has_name name)) [
        | inr blank ↦ rw (found, may, blank) (refl, refl)
        | inl named ↦ rw (found, may, named) (refl, refl)
      ]
    ]
  ]

  pub add_group_member-KeepsShares :
      (group_id user_id : String) → KeepsShares s (add_group_member env actor group_id user_id s).1
  unfolding add_group_member administer write_audit
  add_group_member-KeepsShares group_id user_id = elim (Option-cases (group_by_id env group_id s)) [
    | inl missing ↦ rw missing (refl, refl)
    | inr (g, found) ↦ elim (Bool-cases (has_cube_access env actor g.body.cube s)) [
      | inr refused ↦ rw (found, refused) (refl, refl)
      | inl may ↦ elim (Option-cases (membership_of env group_id user_id s)) [
        | inl new ↦ rw (found, may, new) (refl, refl)
        | inr (m, member) ↦ rw (found, may, member) (refl, refl)
      ]
    ]
  ]

  pub remove_group_member-KeepsShares :
      (group_id user_id : String)
      → KeepsShares s (remove_group_member env actor group_id user_id s).1
  unfolding remove_group_member administer write_audit
  remove_group_member-KeepsShares group_id user_id =
      elim (Option-cases (group_by_id env group_id s)) [
        | inl missing ↦ rw missing (refl, refl)
        | inr (g, found) ↦ elim (Bool-cases (has_cube_access env actor g.body.cube s)) [
          | inr refused ↦ rw (found, refused) (refl, refl)
          | inl may ↦ elim (Option-cases (membership_of env group_id user_id s)) [
            | inl new ↦ rw (found, may, new) (refl, refl)
            | inr (m, member) ↦ rw (found, may, member) (refl, refl)
          ]
        ]
      ]

  pub assign_cube_admin-KeepsShares :
      (cube user_id : String) → KeepsShares s (assign_cube_admin env actor cube user_id s).1
  unfolding assign_cube_admin write_audit
  assign_cube_admin-KeepsShares cube user_id = elim (Bool-cases (is_cube_admin env actor cube s)) [
    | inr refused ↦ rw refused (refl, refl)
    | inl may ↦ elim (Option-cases (find_admin env cube user_id s)) [
      | inl new ↦ rw (may, new) (refl, refl)
      | inr (r, found) ↦ rw (may, found) (refl, refl)
    ]
  ]

  pub revoke_cube_admin-KeepsShares :
      (cube user_id : String) → KeepsShares s (revoke_cube_admin env actor cube user_id s).1
  unfolding revoke_cube_admin write_audit
  revoke_cube_admin-KeepsShares cube user_id = elim (Bool-cases (is_cube_admin env actor cube s)) [
    | inr refused ↦ rw refused (refl, refl)
    | inl may ↦ elim (Option-cases (find_admin env cube user_id s)) [
      | inl new ↦ rw (may, new) (refl, refl)
      | inr (r, found) ↦ rw (may, found) (refl, refl)
    ]
  ]

  module _ (declared : List String) where
    pub grant_capability-KeepsShares :
        (subject : Subject) (capability : String)
        → KeepsShares s (grant_capability env declared actor subject capability s).1
    unfolding grant_capability write_audit
    grant_capability-KeepsShares (user id) capability =
        elim (Bool-cases (contains declared capability)) [
          | inr unknown ↦ rw unknown (refl, refl)
          | inl known ↦ elim (Bool-cases (is_cube_admin env actor (cube_of capability) s)) [
            | inr refused ↦ rw (known, refused) (refl, refl)
            | inl may ↦ elim (Option-cases (existing_grant env declared (user id) capability s)) [
              | inl new ↦ rw (known, may, new) (refl, refl)
              | inr (r, held) ↦ rw (known, may, held) (refl, refl)
            ]
          ]
        ]
    grant_capability-KeepsShares (group id) capability =
        elim (Bool-cases (contains declared capability)) [
          | inr unknown ↦ rw unknown (refl, refl)
          | inl known ↦ elim (Bool-cases (is_cube_admin env actor (cube_of capability) s)) [
            | inr refused ↦ rw (known, refused) (refl, refl)
            | inl may ↦ elim (Option-cases (group_by_id env id s)) [
              | inl missing ↦ rw (known, may, missing) (refl, refl)
              | inr (g, found) ↦ elim (Bool-cases (g.body.cube == cube_of capability)) [
                | inr foreign ↦ rw (known, may, found, foreign) (refl, refl)
                | inl same ↦
                    elim (Option-cases (existing_grant env declared (group id) capability s)) [
                      | inl new ↦ rw (known, may, found, same, new) (refl, refl)
                      | inr (r, held) ↦ rw (known, may, found, same, held) (refl, refl)
                    ]
              ]
            ]
          ]
        ]

    retire_all-KeepsShares :
        (rows : List (Row Capability)) (t : State) → KeepsShares t (retire_all env declared rows t)
    unfolding retire_all
    retire_all-KeepsShares [] t = (refl, refl)
    retire_all-KeepsShares (r ∷ rows) t = retire_all-KeepsShares rows _

    pub revoke_capability_grant-KeepsShares :
        (grant_id : String)
        → KeepsShares s (revoke_capability_grant env declared actor grant_id s).1
    unfolding revoke_capability_grant write_audit
    revoke_capability_grant-KeepsShares grant_id =
        elim (Option-cases (by_id grant_id s.capabilities)) [
          | inl missing ↦ rw missing (refl, refl)
          | inr (g, found) ↦ elim (Bool-cases g.deleted) [
            | inl dead ↦ rw (found, dead) (refl, refl)
            | inr live ↦ elim (Bool-cases (is_cube_admin env actor g.body.cube s)) [
              | inr refused ↦ rw (found, live, refused) (refl, refl)
              | inl may ↦ rw (found, live, may) (retire_all-KeepsShares (twins env declared g s) s)
            ]
          ]
        ]
