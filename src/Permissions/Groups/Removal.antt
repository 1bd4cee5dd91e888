-- ===== src/Permissions/Groups/Removal.antt =====
-- core/src/cubes/permissions/groups.ts, removeGroupMember: who is in which group afterwards.
use qwbe.Prelude.{
  String, Bool, true, not, ◌≡◌, refl, ◌∙◌, ◌&&◌, inl, inr, some, [], ◌∷◌, arith, ◌==◌, any,
  contains, Bool-cases, Option-cases,
}
use qwbe.Kernel.Platform.{Platform}
use qwbe.Kernel.Table.{Row, Table, update, retire, patched}
use qwbe.Permissions.Model.{Actor}
use qwbe.Permissions.Effect.{Outcome, success, failure}
use qwbe.Permissions.State.{State, Group, Membership, group_ids_for, write_audit}
use qwbe.Permissions.Sharing.{group_by_id}
use qwbe.Permissions.Groups.{has_cube_access, administer, membership_of, remove_group_member}
use qwbe.Permissions.Groups.Members.{in_group, group_ids-any}

module _ (env : Platform) where
  abbrev pub remains : String → String → String → Row Membership → Bool
  remains id group user_id m = not (m.id == id) && in_group env group user_id m

  retired_member :
      (id group user_id : String) (m : Row Membership)
      → in_group env group user_id (patched id retire m) ≡ remains id group user_id m
  retired_member id group user_id m = ground arith

  any-retired :
      (id group user_id : String) (t : Table Membership)
      → any (in_group env group user_id) (update id retire t) ≡ any (remains id group user_id) t
  unfolding update
  any-retired id group user_id [] = refl
  any-retired id group user_id (m ∷ t) =
      ground (arith, retired_member id group user_id m, any-retired id group user_id t)

  abbrev pub RemoveEnds : Actor → String → String → State → Outcome (Unit {0}) × State → Type 0
  RemoveEnds actor group_id user_id s (success done, s') =
      ((g : Row Group) × (group_by_id env group_id s ≡ some g)
        × (has_cube_access env actor g.body.cube s ≡ true))
      × ((m : Row Membership) × (membership_of env group_id user_id s ≡ some m)
          × ((group other : String)
              → contains (group_ids_for env other s') group
                ≡ any (remains m.id group other) s.memberships))
  RemoveEnds actor group_id user_id s (failure e, s') = s' ≡ s

  -- `removeGroupMember` either fails and writes nothing, or the group exists, the actor has access to
  -- its cube, the user had a live membership in it, and with the first of those retired, any user is in
  -- any group exactly if a live membership of the state before, under another id, says so.
  pub remove_group_member-RemoveEnds :
      (actor : Actor) (group_id user_id : String) (s : State)
      → RemoveEnds actor group_id user_id s (remove_group_member env actor group_id user_id s)
  unfolding remove_group_member administer write_audit
  remove_group_member-RemoveEnds actor group_id user_id s =
      elim (Option-cases (group_by_id env group_id s)) [
        | inl missing ↦ rw missing refl
        | inr (g, found) ↦ elim (Bool-cases (has_cube_access env actor g.body.cube s)) [
          | inr refused ↦ rw (found, refused) refl
          | inl may ↦ elim (Option-cases (membership_of env group_id user_id s)) [
            | inl absent ↦ rw (found, may, absent) refl
            | inr (m, member) ↦
                rw (found, may, member)
                  (
                    (g, found, may),
                    (
                      m,
                      member,
                      λ group other.
                          group_ids-any env group other _
                          ∙ any-retired m.id group other s.memberships,
                    ),
                  )
          ]
        ]
      ]
