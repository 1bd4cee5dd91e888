-- ===== src/Permissions/CubeAdmins/Managers.antt =====
-- What assigning a cube admin ends with.
use qwbe.Prelude.{
  String, Bool, true, false, ◌≡◌, refl, sym, ap, ◌∙◌, ◌&&◌, inl, inr, is_some, [], ◌∷◌, ◌++◌, arith,
  ◌==◌, eq_iff, eq_refl, ◌||◌, contains, any, any-append, is_some-find, Bool-cases, Option-cases,
}
use mathlib.Core.Path.{fun_ext}
use qwbe.Kernel.Platform.{Platform}
use qwbe.Kernel.Where.{matches, pairs}
use qwbe.Kernel.Table.{Row, view, insert, is_live}
use qwbe.Kernel.Table.Laws.{first-eq-find}
use qwbe.Permissions.Model.{Actor}
use qwbe.Permissions.Effect.{Outcome, success, failure, forbidden}
use qwbe.Permissions.State.{
  State, CubeAdmin, cube_admin_fields, is_cube_admin, new_row, write_audit,
}
use qwbe.Permissions.CubeAdmins.{find_admin, assign_cube_admin}

module _ (env : Platform) (cube : String) where
  abbrev pub manages : String → Row CubeAdmin → Bool
  manages user_id r = is_live r && (r.body.cube == cube && r.body.user_id == user_id)

  matches-manages :
      (user_id : String) (r : Row CubeAdmin)
      → matches env (pairs (("cube", cube) ∷ ("userId", user_id) ∷ [])) (view cube_admin_fields r)
        ≡ manages user_id r
  unfolding matches
  matches-manages user_id r = ground arith

  find_admin-any :
      (user_id : String) (s : State)
      → is_some (find_admin env cube user_id s) ≡ any (manages user_id) s.cube_admins
  unfolding find_admin
  find_admin-any user_id s =
      let test = pairs (("cube", cube) ∷ ("userId", user_id) ∷ []) in
      ap is_some (first-eq-find env cube_admin_fields test s.cube_admins)
      ∙ is_some-find (λ r. matches env test (view cube_admin_fields r)) s.cube_admins
      ∙ ap (λ (p : Row CubeAdmin → Bool). any p s.cube_admins) (fun_ext (matches-manages user_id))

  pub is_cube_admin-any :
      (who : Actor) (s : State)
      → is_cube_admin env who cube s
        ≡ (contains who.roles "admin" || any (manages who.user_id) s.cube_admins)
  unfolding is_cube_admin find_admin
  is_cube_admin-any who s = ground (arith, find_admin-any who.user_id s)

  abbrev assigned_row : String → State → Row CubeAdmin
  assigned_row user_id s =
      new_row env "CubeAdmin" "cadm" s.draws (record { cube = cube; user_id = user_id })

  -- An appended row makes its user an admin of the cube.
  assigned_manages :
      (who : Actor) (user_id : String) (s s' : State)
      → s'.cube_admins ≡ s.cube_admins ++ assigned_row user_id s ∷ []
      → is_cube_admin env who cube s' ≡ (is_cube_admin env who cube s || user_id == who.user_id)
  assigned_manages who user_id s s' e =
      is_cube_admin-any who s'
      ∙ ap (λ t. contains who.roles "admin" || any (manages who.user_id) t) e
      ∙ ground (
        arith,
        any-append (manages who.user_id) s.cube_admins (assigned_row user_id s ∷ []),
        is_cube_admin-any who s,
        eq_refl cube,
      )

  -- Without another row the admins are as before.
  same_admins :
      (who : Actor) (s s' : State)
      → s'.cube_admins ≡ s.cube_admins
      → is_cube_admin env who cube s' ≡ is_cube_admin env who cube s
  same_admins who s s' e =
      is_cube_admin-any who s'
      ∙ ap (λ t. contains who.roles "admin" || any (manages who.user_id) t) e
      ∙ sym (is_cube_admin-any who s)

  found_manages :
      (who : Actor) (s : State)
      → is_some (find_admin env cube who.user_id s) ≡ true
      → is_cube_admin env who cube s ≡ true
  found_manages who s h = ground (arith, is_cube_admin-any who s, find_admin-any who.user_id s)

  abbrev pub AssignEnds : Actor → String → State → Outcome (Unit {0}) × State → Type 0
  AssignEnds actor user_id s (success done, s') =
      (is_cube_admin env actor cube s ≡ true)
      × ((who : Actor) → who.user_id ≡ user_id → is_cube_admin env who cube s' ≡ true)
      × ((who : Actor)
          → (who.user_id == user_id) ≡ false
          → is_cube_admin env who cube s' ≡ is_cube_admin env who cube s)
  AssignEnds actor user_id s (failure e, s') =
      (e ≡ forbidden) × (s' ≡ s) × (is_cube_admin env actor cube s ≡ false)

  -- `assignCubeAdmin` fails exactly for an actor who does not manage the cube, and then writes nothing;
  -- otherwise the user manages the cube afterwards, and every other user does exactly if before.
  pub assign_cube_admin-AssignEnds :
      (actor : Actor) (user_id : String) (s : State)
      → AssignEnds actor user_id s (assign_cube_admin env actor cube user_id s)
  unfolding assign_cube_admin write_audit insert
  assign_cube_admin-AssignEnds actor user_id s =
      elim (Bool-cases (is_cube_admin env actor cube s)) [
        | inr refused ↦ rw refused (refl, refl, refused)
        | inl may ↦ elim (Option-cases (find_admin env cube user_id s)) [
          | inr (r, found) ↦
              rw (may, found)
                (
                  may,
                  λ who same.
                      same_admins who s _ refl ∙ found_manages who s (rw (same, found) refl),
                  λ who other. same_admins who s _ refl,
                )
          | inl new ↦
              rw (may, new)
                (
                  may,
                  λ who same.
                      assigned_manages who user_id s _ refl
                      ∙ ground (arith, eq_iff user_id who.user_id),
                  λ who other.
                      assigned_manages who user_id s _ refl
                      ∙ ground (arith, eq_iff user_id who.user_id, eq_iff who.user_id user_id),
                )
        ]
      ]
