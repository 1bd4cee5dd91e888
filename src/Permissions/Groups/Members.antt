-- ===== src/Permissions/Groups/Members.antt =====
-- Who is in a group after a member was added.
use qwbe.Prelude.{
  String, Bool, true, ◌≡◌, refl, sym, ap, ◌∙◌, ◌&&◌, ◌⊎◌, inl, inr, some, [], ◌∷◌, ◌++◌, arith,
  ◌==◌, eq_refl, any, filter, contains, contains-map, any-append, any-filter, any-of_IsIn,
  Bool-cases, Option-cases, IsIn-find,
}
use mathlib.Core.Path.{fun_ext}
use qwbe.Kernel.Platform.{Platform}
use qwbe.Kernel.Where.{matches, pair, pairs}
use qwbe.Kernel.Table.{Row, view, rows_where, insert, is_live}
use qwbe.Kernel.Table.Laws.{first-eq-find}
use qwbe.Permissions.Model.{Actor}
use qwbe.Permissions.Effect.{Outcome, success, failure}
use qwbe.Permissions.State.{
  State, Group, Membership, membership_fields, group_ids_for, new_row, write_audit,
}
use qwbe.Permissions.Sharing.{group_by_id}
use qwbe.Permissions.Groups.{
  has_cube_access, administer, membership_of, member_pairs, add_group_member,
}

module _ (env : Platform) (group_id user_id : String) where
  abbrev pub in_group : Row Membership → Bool
  in_group m = is_live m && (m.body.user_id == user_id && m.body.group_id == group_id)

  matches-member :
      (m : Row Membership)
      → matches env (pairs (member_pairs group_id user_id)) (view membership_fields m) ≡ in_group m
  unfolding matches
  matches-member m = ground arith

  matches-user :
      (m : Row Membership)
      → (matches env (pair "userId" user_id) (view membership_fields m)
          && m.body.group_id == group_id)
        ≡ in_group m
  unfolding matches
  matches-user m = ground arith

  pub group_ids-any :
      (s : State) → contains (group_ids_for env user_id s) group_id ≡ any in_group s.memberships
  unfolding group_ids_for rows_where
  group_ids-any s =
      let here =
        λ (m : Row Membership). matches env (pair "userId" user_id) (view membership_fields m) in
      let group_of = λ (m : Row Membership). m.body.group_id in
      contains-map group_of (filter here s.memberships) group_id
      ∙ any-filter here (λ m. group_of m == group_id) s.memberships
      ∙ ap (λ (p : Row Membership → Bool). any p s.memberships) (fun_ext matches-user)

  is_member :
      (s : State) (m : Row Membership)
      → membership_of env group_id user_id s ≡ some m
      → contains (group_ids_for env user_id s) group_id ≡ true
  unfolding membership_of
  is_member s m h =
      let test = pairs (member_pairs group_id user_id) in
      let (k, holds) =
        IsIn-find (λ r. matches env test (view membership_fields r)) s.memberships m
          (sym (first-eq-find env membership_fields test s.memberships) ∙ h) in
      group_ids-any s ∙ any-of_IsIn in_group m s.memberships k (sym (matches-member m) ∙ holds)

  abbrev added : Actor → State → Row Membership
  added actor s =
      new_row env "GroupMembership" "mem" s.draws
        (record { group_id = group_id; user_id = user_id; created_by = actor.user_id })

  -- What adding a member ends with.
  abbrev pub AddEnds : Actor → State → Outcome (Row Membership) × State → Type 0
  AddEnds actor s (success row, s') =
      ((g : Row Group) × (group_by_id env group_id s ≡ some g)
        × (has_cube_access env actor g.body.cube s ≡ true))
      × (contains (group_ids_for env user_id s') group_id ≡ true)
      × ((s' ≡ s) ⊎ (s'.memberships ≡ s.memberships ++ row ∷ []))
  AddEnds actor s (failure e, s') = s' ≡ s

  -- `addGroupMember` either fails and writes nothing, or the group exists, the actor has access to its
  -- cube, the user is in the group afterwards, and nothing was written where the user already was, and
  -- otherwise one membership, behind the others.
  pub add_group_member-AddEnds :
      (actor : Actor) (s : State) → AddEnds actor s (add_group_member env actor group_id user_id s)
  unfolding add_group_member administer write_audit insert
  add_group_member-AddEnds actor s = elim (Option-cases (group_by_id env group_id s)) [
    | inl missing ↦ rw missing refl
    | inr (g, found) ↦ elim (Bool-cases (has_cube_access env actor g.body.cube s)) [
      | inr refused ↦ rw (found, refused) refl
      | inl may ↦ elim (Option-cases (membership_of env group_id user_id s)) [
        | inr (m, member) ↦
            rw (found, may, member) ((g, found, may), is_member s m member, inl refl)
        | inl new ↦
            rw (found, may, new)
              (
                (g, found, may),
                group_ids-any _
                    ∙ any-append in_group s.memberships (added actor s ∷ [])
                    ∙ ground (arith, eq_refl user_id, eq_refl group_id),
                inr refl,
              )
      ]
    ]
  ]
