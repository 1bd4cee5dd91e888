-- ===== src/Permissions/CubeAdmins/Removal.antt =====
-- core/src/cubes/permissions/cube-admins.ts, revokeCubeAdmin: who manages which cube afterwards.
use qwbe.Prelude.{
  String, Bool, true, not, ◌≡◌, refl, ap, ◌∙◌, ◌&&◌, ◌||◌, inl, inr, some, [], ◌∷◌, arith, ◌==◌,
  any, contains, Bool-cases, Option-cases,
}
use qwbe.Kernel.Platform.{Platform}
use qwbe.Kernel.Table.{Row, Table, update, retire, patched}
use qwbe.Permissions.Model.{Actor}
use qwbe.Permissions.Effect.{Outcome, success, failure}
use qwbe.Permissions.State.{State, CubeAdmin, is_cube_admin, write_audit}
use qwbe.Permissions.CubeAdmins.{find_admin, revoke_cube_admin}
use qwbe.Permissions.CubeAdmins.Managers.{manages, is_cube_admin-any}

module _ (env : Platform) where
  abbrev pub still_manages : String → String → String → Row CubeAdmin → Bool
  still_manages id cube user_id r = not (r.id == id) && manages env cube user_id r

  retired_admin :
      (id cube user_id : String) (r : Row CubeAdmin)
      → manages env cube user_id (patched id retire r) ≡ still_manages id cube user_id r
  retired_admin id cube user_id r = ground arith

  any-retired :
      (id cube user_id : String) (t : Table CubeAdmin)
      → any (manages env cube user_id) (update id retire t) ≡ any (still_manages id cube user_id) t
  unfolding update
  any-retired id cube user_id [] = refl
  any-retired id cube user_id (r ∷ t) =
      ground (arith, retired_admin id cube user_id r, any-retired id cube user_id t)

  abbrev pub RevokeEnds : Actor → String → String → State → Outcome (Unit {0}) × State → Type 0
  RevokeEnds actor cube user_id s (success done, s') =
      (is_cube_admin env actor cube s ≡ true)
      × ((r : Row CubeAdmin) × (find_admin env cube user_id s ≡ some r)
          × ((who : Actor) (other : String)
              → is_cube_admin env who other s' ≡ (
                  contains who.roles "admin"
                  || any (still_manages r.id other who.user_id) s.cube_admins)))
  RevokeEnds actor cube user_id s (failure e, s') = s' ≡ s

  -- `revokeCubeAdmin` either fails and writes nothing, or the actor manages the cube, the user had a
  -- live row of it, and with the first of those retired, any user manages any cube exactly by the
  -- role of an admin or by a live row of the state before, under another id.
  pub revoke_cube_admin-RevokeEnds :
      (actor : Actor) (cube user_id : String) (s : State)
      → RevokeEnds actor cube user_id s (revoke_cube_admin env actor cube user_id s)
  unfolding revoke_cube_admin write_audit
  revoke_cube_admin-RevokeEnds actor cube user_id s =
      elim (Bool-cases (is_cube_admin env actor cube s)) [
        | inr refused ↦ rw refused refl
        | inl may ↦ elim (Option-cases (find_admin env cube user_id s)) [
          | inl absent ↦ rw (may, absent) refl
          | inr (r, found) ↦
              rw (may, found)
                (
                  may,
                  (
                    r,
                    found,
                    λ who other.
                        is_cube_admin-any env other who _
                        ∙ ap (λ b. contains who.roles "admin" || b)
                            (any-retired r.id other who.user_id s.cube_admins),
                  ),
                )
        ]
      ]
