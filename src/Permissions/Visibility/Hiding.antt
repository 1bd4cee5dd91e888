-- ===== src/Permissions/Visibility/Hiding.antt =====
-- What `setHidden` ends with, on every branch.
use mathlib.Core.Option
use mathlib.Core.Option.{some-injective}
use qwbe.Prelude.{
  Option, &&_true, Bool, true, false, ◌≡◌, refl, sym, ap, ◌∙◌, inl, inr, some, none, is_some, [],
  ◌∷◌, ◌++◌, arith, eq_refl, any-append, is_some-find, Option-cases, IsIn-find,
}
use qwbe.Kernel.Platform.{Platform}
use qwbe.Kernel.Where.{matches, pairs}
use qwbe.Kernel.Table.{Row, view, is_live, first, insert}
use qwbe.Kernel.Table.Laws.{first-eq-find}
use qwbe.Permissions.Model.{Actor, EntityRef, Ownership, EntityVisibility, Access, grant_access}
use qwbe.Permissions.Effect.{Outcome, success, failure}
use qwbe.Permissions.State.{
  State, HiddenPreference, hidden_fields, ownership_of, new_row, write_audit, grants_for,
  group_ids_for, is_cube_admin,
}
use qwbe.Permissions.State.Lookups.{owns_ref, ownership_of-eq-find}
use qwbe.Permissions.Counts.Consistency.{same_ref_lem}
use qwbe.Permissions.Visibility.{decide, hidden_pairs, EntityFacts, visible_row, access_of}
use qwbe.Permissions.Visibility.Pages.{load_entity_facts, visibility_for, write_hidden, set_hidden}

is_some-map : {A B : Type 0} (f : A → B) (o : Option A) → is_some (Option.map f o) ≡ is_some o
is_some-map f none = refl
is_some-map f (some a) = refl

hidden-visible_row :
    (r : Row Ownership) (facts : EntityFacts) (o : Option Access) (row : EntityVisibility)
    → Option.map (visible_row r facts) o ≡ some row
    → row.hidden ≡ facts.hidden
hidden-visible_row r facts none row h = cc
hidden-visible_row r facts (some a) row h =
    sym (ap (λ (v : EntityVisibility). v.hidden) (some-injective _ _ h))

module _ (env : Platform) (actor : Actor) (ref : EntityRef) where
  abbrev access : Row Ownership → State → Option Access
  access r s =
      let facts = load_entity_facts env actor r.body.ref s in
      access_of actor r.body (grant_access actor.user_id facts.group_ids facts.grants) facts.admin

  sees-access :
      (r : Row Ownership) (s : State)
      → is_some (visibility_for env actor r s) ≡ is_some (access r s)
  unfolding visibility_for decide
  sees-access r s =
      is_some-map (visible_row r (load_entity_facts env actor r.body.ref s)) (access r s)

  -- Hiding or showing an entity leaves why it is seen.
  access_kept :
      (r : Row Ownership) (hidden : Bool) (s : State)
      → access r (write_hidden env actor.user_id ref hidden s) ≡ access r s
  unfolding load_entity_facts write_hidden grants_for group_ids_for is_cube_admin
  access_kept r true s =
      elim (Option-cases
        (first env hidden_fields (pairs (hidden_pairs actor.user_id ref)) s.hidden)) [
          | inl new ↦ rw new refl
          | inr (h, found) ↦ rw found refl
        ]
  access_kept r false s =
      elim (Option-cases
        (first env hidden_fields (pairs (hidden_pairs actor.user_id ref)) s.hidden)) [
          | inl new ↦ rw new refl
          | inr (h, found) ↦ rw found refl
        ]

  row_hidden :
      (r : Row Ownership) (s : State) (row : EntityVisibility)
      → visibility_for env actor r s ≡ some row
      → row.hidden ≡ (load_entity_facts env actor r.body.ref s).hidden
  unfolding visibility_for decide
  row_hidden r s row h =
      hidden-visible_row r (load_entity_facts env actor r.body.ref s) (access r s) row h

  marked :
      (s : State)
      → (load_entity_facts env actor ref (write_hidden env actor.user_id ref true s)).hidden ≡ true
  unfolding load_entity_facts write_hidden insert matches
  marked s =
      elim (Option-cases
        (first env hidden_fields (pairs (hidden_pairs actor.user_id ref)) s.hidden)) [
          | inr (h, found) ↦ rw found (rw found refl)
          | inl new ↦
              let test = pairs (hidden_pairs actor.user_id ref) in
              let mark : Row HiddenPreference =
                new_row env "HiddenPreference" "hidden" s.draws
                  (record { ref = ref; user_id = actor.user_id }) in
              let holds = λ (h : Row HiddenPreference). matches env test (view hidden_fields h) in
              rw new (
                ap is_some (first-eq-find env hidden_fields test (s.hidden ++ mark ∷ []))
                ∙ is_some-find holds (s.hidden ++ mark ∷ [])
                ∙ any-append holds s.hidden (mark ∷ [])
                ∙ ground (
                  arith,
                  eq_refl actor.user_id,
                  eq_refl ref.cube,
                  eq_refl ref.entity_type,
                  eq_refl ref.entity_id,
                ))
        ]

  owner_of_ref :
      (s : State) (r : Row Ownership) → ownership_of env ref s ≡ some r → r.body.ref ≡ ref
  owner_of_ref s r h =
      let (m, k) =
        IsIn-find (owns_ref ref) s.ownership r (sym (ownership_of-eq-find env ref s) ∙ h) in
      same_ref_lem r.body.ref ref (&&_true (is_live r) _ k).1

  -- What hiding or showing an entity ends with.
  abbrev pub HidingEnds : Bool → State → Outcome EntityVisibility × State → Type 0
  HidingEnds hidden s (success row, s') =
      (hidden ≡ true → row.hidden ≡ true)
      × ((r : Row Ownership) × (ownership_of env ref s ≡ some r)
          × (is_some (visibility_for env actor r s) ≡ true))
      × (s'.ownership ≡ s.ownership)
      × (s'.grants ≡ s.grants)
  HidingEnds hidden s (failure e, s') = s' ≡ s

  after_write :
      (hidden : Bool) (s : State) (r : Row Ownership) (v : EntityVisibility)
      → ownership_of env ref s ≡ some r
      → visibility_for env actor r s ≡ some v
      → (row : EntityVisibility) × (visibility_for env actor r
            (write_hidden env actor.user_id ref hidden s)
          ≡ some row)
        × (hidden ≡ true → row.hidden ≡ true)
  after_write hidden s r v owned seen =
      let s' = write_hidden env actor.user_id ref hidden s in
      let still : is_some (visibility_for env actor r s') ≡ true =
        sees-access r s'
        ∙ ap is_some (access_kept r hidden s)
        ∙ sym (sees-access r s)
        ∙ ap is_some seen in
      elim (Option-cases (visibility_for env actor r s')) [
        | inl gone ↦ absurd (cc (gone, still))
        | inr (row, shown) ↦ (
          row,
          shown,
          λ h.
              row_hidden r s' row shown
              ∙ ap (λ (x : EntityRef). (load_entity_facts env actor x s').hidden)
                  (owner_of_ref s r owned)
              ∙ rw h (marked s),
        )
      ]

  write_keeps :
      (hidden : Bool) (s : State)
      → let s' : State = write_hidden env actor.user_id ref hidden s in
        (s'.ownership ≡ s.ownership) × (s'.grants ≡ s.grants)
  unfolding write_hidden
  write_keeps true s =
      elim (Option-cases
        (first env hidden_fields (pairs (hidden_pairs actor.user_id ref)) s.hidden)) [
          | inl new ↦ rw new (refl, refl)
          | inr (h, found) ↦ rw found (refl, refl)
        ]
  write_keeps false s =
      elim (Option-cases
        (first env hidden_fields (pairs (hidden_pairs actor.user_id ref)) s.hidden)) [
          | inl new ↦ rw new (refl, refl)
          | inr (h, found) ↦ rw found (refl, refl)
        ]

  -- `setHidden` either fails and writes nothing, or the entity has an owner and the actor sees it, and
  -- the reported row is hidden if hiding was asked for; ownership and grants are as before.
  pub set_hidden-HidingEnds :
      (hidden : Bool) (s : State) → HidingEnds hidden s (set_hidden env actor ref hidden s)
  unfolding set_hidden write_audit
  set_hidden-HidingEnds hidden s = elim (Option-cases (ownership_of env ref s)) [
    | inl unowned ↦ rw unowned refl
    | inr (r, owned) ↦ elim (Option-cases (visibility_for env actor r s)) [
      | inl unseen ↦ rw (owned, unseen) refl
      | inr (v, seen) ↦
          let (row, shown, marks) = after_write hidden s r v owned seen in
          let (owners, grants) = write_keeps hidden s in
          rw (owned, seen, shown) (marks, (r, owned, ap is_some seen), owners, grants)
    ]
  ]
