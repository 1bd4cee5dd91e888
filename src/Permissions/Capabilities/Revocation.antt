-- ===== src/Permissions/Capabilities/Revocation.antt =====
-- What `revokeCapabilityGrant` ends with, on every branch.
use qwbe.Prelude.{
  String, Bool, true, false, ◌≡◌, refl, ap, ◌∙◌, ◌&&◌, inl, inr, some, List, [], ◌∷◌, arith, ◌==◌,
  eq_iff, eq_refl, any, filter, map, contains, contains-map, any-of_IsIn, Bool-cases, Option-cases,
  IsIn, IsIn-filter, if◌then◌else◌,
}
use qwbe.Kernel.Platform.{Platform}
use qwbe.Kernel.Where.{matches, pair}
use qwbe.Kernel.Table.{Row, Table, view, rows_where, update, retire, is_live, by_id}
use qwbe.Permissions.Model.{Actor}
use qwbe.Permissions.Effect.{Outcome, success, failure}
use qwbe.Permissions.State.{State, Capability, capability_fields, is_cube_admin, write_audit}
use qwbe.Permissions.Capabilities.{
  by_subject, of_capability, twins, retire_all, revoke_capability_grant,
}

abbrev ids_of_rows : List (Row Capability) → List String
ids_of_rows rows = map (λ (r : Row Capability). r.id) rows

abbrev retired : List String → Row Capability → Row Capability
retired ids r = if contains ids r.id then retire r else r

retired_twice :
    (id : String) (ids : List String) (t : Table Capability)
    → map (retired ids) (update id retire t) ≡ map (retired (id ∷ ids)) t
unfolding update
retired_twice id ids [] = refl
retired_twice id ids (x ∷ t) =
    ground (arith, retired_twice id ids t, eq_iff x.id id, eq_iff id x.id)

nothing_retired : (t : Table Capability) → t ≡ map (retired []) t
nothing_retired [] = refl
nothing_retired (x ∷ t) = ap (λ xs. x ∷ xs) (nothing_retired t)

none_left :
    (p : Row Capability → Bool) (f : Row Capability → Row Capability) (t : Table Capability)
    → ((x : Row Capability) → IsIn x t → p (f x) ≡ false)
    → any p (map f t) ≡ false
none_left p f [] h = refl
none_left p f (x ∷ t) h = rw (h x (inl refl)) (none_left p f t (λ y m. h y (inr m)))

-- A live grant of the same capability to the same subject.
abbrev pub same_grant : Row Capability → Row Capability → Bool
same_grant g r =
    is_live r
    && (r.body.subject_key == g.body.subject_key && r.body.capability == g.body.capability)

module _ (env : Platform) (declared : List String) where
  retire_all-map :
      (rows : List (Row Capability)) (s : State)
      → (retire_all env declared rows s).capabilities
        ≡ map (retired (ids_of_rows rows)) s.capabilities
  unfolding retire_all
  retire_all-map [] s = nothing_retired s.capabilities
  retire_all-map (r ∷ rows) s =
      retire_all-map rows (record s { capabilities = update r.id retire s.capabilities })
      ∙ retired_twice r.id (ids_of_rows rows) s.capabilities

  twin_is_listed :
      (g x : Row Capability) (s : State)
      → IsIn x s.capabilities
      → same_grant g x ≡ true
      → contains (ids_of_rows (twins env declared g s)) x.id ≡ true
  unfolding by_subject rows_where matches
  twin_is_listed g x s m h =
      let here = λ (r : Row Capability).
        matches env (pair "subjectKey" g.body.subject_key) (view capability_fields r) in
      let wanted = of_capability env declared g.body.capability in
      let keyed = IsIn-filter here x s.capabilities m (ground arith) in
      let live = IsIn-filter is_live x (filter here s.capabilities) keyed (ground arith) in
      let twin =
        IsIn-filter wanted x (filter is_live (filter here s.capabilities)) live (ground arith) in
      contains-map (λ (r : Row Capability). r.id) (twins env declared g s) x.id
      ∙ any-of_IsIn (λ r. r.id == x.id) x (twins env declared g s) twin (eq_refl x.id)

  no_twin_left :
      (g : Row Capability) (s : State)
      → any (same_grant g) (retire_all env declared (twins env declared g s) s).capabilities ≡ false
  no_twin_left g s =
      let ids = ids_of_rows (twins env declared g s) in
      ap (any (same_grant g)) (retire_all-map (twins env declared g s) s)
      ∙ none_left (same_grant g) (retired ids) s.capabilities (λ x m.
        elim (Bool-cases (same_grant g x)) [
          | inl same ↦ rw (twin_is_listed g x s m same) refl
          | inr other ↦ ground arith
        ])

  -- What a revocation ends with.
  abbrev pub LeavesNone : Actor → String → State → Outcome (Unit {0}) × State → Type 0
  LeavesNone actor grant_id s (success done, s') =
      (g : Row Capability) × (by_id grant_id s.capabilities ≡ some g)
      × (is_cube_admin env actor g.body.cube s ≡ true)
      × (any (same_grant g) s'.capabilities ≡ false)
  LeavesNone actor grant_id s (failure e, s') = s' ≡ s

  -- `revokeCapabilityGrant` either fails and writes nothing, or the grant was live, the actor manages
  -- its cube, and no live grant of its capability to its subject is left, doubles included.
  pub revoke_capability_grant-LeavesNone :
      (actor : Actor) (grant_id : String) (s : State)
      → LeavesNone actor grant_id s (revoke_capability_grant env declared actor grant_id s)
  unfolding revoke_capability_grant write_audit
  revoke_capability_grant-LeavesNone actor grant_id s =
      elim (Option-cases (by_id grant_id s.capabilities)) [
        | inl missing ↦ rw missing refl
        | inr (g, found) ↦ elim (Bool-cases g.deleted) [
          | inl dead ↦ rw (found, dead) refl
          | inr live ↦ elim (Bool-cases (is_cube_admin env actor g.body.cube s)) [
            | inr refused ↦ rw (found, live, refused) refl
            | inl may ↦ rw (found, live, may) (g, found, may, no_twin_left g s)
          ]
        ]
      ]
