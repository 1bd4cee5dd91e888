-- ===== src/Permissions/Visibility/Whole.antt =====
-- No row of a page is dropped: the rule shows every row that the predicate lets the store list.
use qwbe.Prelude.{
  ℕ, zero, suc, String, Bool, true, false, not, ◌≡◌, refl, sym, ap, ◌∙◌, ◌&&◌, inl, inr, Option,
  some, none, List, [], ◌∷◌, map, arith, ◌==◌, eq_iff, nat_eq, length, contains, filter-filter,
  filter-agree, length-append, take, drop, &&_true, Bool-cases, Option-cases, IsIn,
}
use mathlib.Core.Path.{subst}
use mathlib.Core.Option
use mathlib.Core.Option.{some-injective}
use qwbe.Kernel.Platform.{Platform}
use qwbe.Kernel.Where.{matches, full, list_where, no_groups, no_not, set_sql}
use qwbe.Kernel.Table.{Row, view, is_live, rows_where}
use qwbe.Permissions.Model.{
  Actor, EntityRef, Access, EntityGrant, Ownership, VisibilityView, EntityVisibility,
}
use qwbe.Permissions.State.{
  State, ownership_fields, grant_fields, is_cube_admin, grants_for, group_ids_for,
}
use qwbe.Permissions.State.Lookups.{grants_ref, grants_for-eq-filter}
use qwbe.Permissions.Counts.Consistency.{StateIsConsistent}
use qwbe.Permissions.Counts.Reconcile.{RefsArePlain, same_key}
use qwbe.Permissions.Visibility.{
  EntityFacts, visible_row, decide, bodies, owner_key, grant_key, grants_at, visible_where,
}
use qwbe.Permissions.Visibility.Pages.{
  load_entity_facts, reach_of, visibility_for, kept, page_grants, decided_rows,
}
use qwbe.Permissions.Visibility.Predicate.{shows}
use qwbe.Permissions.Visibility.Facts.{
  HiddenArePlain, hidden_agrees, visible_where-eq-visibility_for,
}

length-kept :
    (v : VisibilityView) (user_id : String) (o : Option EntityVisibility)
    → shows v user_id o ≡ true
    → length (kept v user_id o) ≡ 1
length-kept v user_id none h = cc
length-kept v user_id (some row) h = rw h refl

-- What an entry of a page says of the ownership row itself.
abbrev pub entry_facts : EntityVisibility → EntityRef × (String × (String × String))
entry_facts e = (e.ref, (e.owner_id, (e.created_by, e.created_at)))

abbrev pub row_ownership : Row Ownership → EntityRef × (String × (String × String))
row_ownership r = (r.body.ref, (r.body.owner_id, (r.body.created_by, r.created_at)))

kept-shown :
    (v : VisibilityView) (user_id : String) (o : Option EntityVisibility)
    → shows v user_id o ≡ true
    → (row : EntityVisibility) × (o ≡ some row) × (kept v user_id o ≡ row ∷ [])
kept-shown v user_id none h = cc
kept-shown v user_id (some row) h = (row, refl, rw h refl)

visible_row-facts :
    (r : Row Ownership) (facts : EntityFacts) (o : Option Access) (row : EntityVisibility)
    → Option.map (visible_row r facts) o ≡ some row
    → entry_facts row ≡ row_ownership r
visible_row-facts r facts none row h = cc
visible_row-facts r facts (some a) row h =
    ap entry_facts (sym (some-injective (visible_row r facts a) row h))

pub IsIn-take : {A : Type 0} (n : ℕ) (x : A) (xs : List A) → IsIn x (take n xs) → IsIn x xs
IsIn-take zero x xs m = absurd m
IsIn-take (suc n) x [] m = absurd m
IsIn-take (suc n) x (y ∷ xs) (inl e) = inl e
IsIn-take (suc n) x (y ∷ xs) (inr m) = inr (IsIn-take n x xs m)

pub IsIn-drop : {A : Type 0} (n : ℕ) (x : A) (xs : List A) → IsIn x (drop n xs) → IsIn x xs
IsIn-drop zero x xs m = m
IsIn-drop (suc n) x [] m = absurd m
IsIn-drop (suc n) x (y ∷ xs) m = inr (IsIn-drop n x xs m)

abbrev is_listed : List String → Option String → Bool
is_listed keys none = false
is_listed keys (some key) = contains keys key

module _ (env : Platform) (zero_text : (n : ℕ) → (env.number_text n == "0") ≡ nat_eq n 0)
    (s : State) (consistent : StateIsConsistent s) (plain : RefsArePlain s)
    (hidden_plain : HiddenArePlain s) (actor : Actor) (cube : String) where
  keyed_grant :
      (keys : List String) (g : Row EntityGrant)
      → matches env
          (full (list_where [] none (("entityKey", keys) ∷ []) none none no_groups no_not))
          (view grant_fields g)
        ≡ (is_live g && is_listed keys g.body.entity_key)
  unfolding matches set_sql
  keyed_grant [] g = elim (Option-cases g.body.entity_key) [
    | inl missing ↦ rw missing (ground arith)
    | inr (key, stored) ↦ rw stored (ground arith)
  ]
  keyed_grant (k ∷ keys) g = elim (Option-cases g.body.entity_key) [
    | inl missing ↦ rw missing (ground arith)
    | inr (key, stored) ↦ rw stored (ground arith)
  ]

  same_grants :
      (r : Row Ownership) (keys : List String)
      → IsIn r s.ownership
      → contains keys (owner_key r) ≡ true
      → (g : Row EntityGrant) → IsIn g s.grants
      → (matches env
            (full (list_where [] none (("entityKey", keys) ∷ []) none none no_groups no_not))
            (view grant_fields g)
          && grant_key g == owner_key r)
        ≡ grants_ref r.body.ref g
  same_grants r keys m h g n = elim (Bool-cases g.deleted) [
    | inl dead ↦ ground (arith, keyed_grant keys g)
    | inr live ↦ elim (Bool-cases (grant_key g == owner_key r)) [
      | inr other ↦ ground (arith, same_key g.body.ref r.body.ref (plain.0 r m) (plain.1 g n))
      | inl same ↦
          let stored = consistent.keyed g n live in
          let key = (eq_iff (grant_key g) (owner_key r)).0 same in
          let listed : is_listed keys g.body.entity_key ≡ true = rw (stored, key) h in
          ground (
            arith,
            keyed_grant keys g,
            listed,
            same_key g.body.ref r.body.ref (plain.0 r m) (plain.1 g n),
          )
    ]
  ]

  -- The grants that a page reads at a key are those of the entity.
  page_grants-eq-grants_for :
      (r : Row Ownership) (keys : List String)
      → IsIn r s.ownership
      → contains keys (owner_key r) ≡ true
      → grants_at (owner_key r) (page_grants env keys s) ≡ grants_for env r.body.ref s
  unfolding rows_where
  page_grants-eq-grants_for r [] m h = cc
  page_grants-eq-grants_for r (k ∷ keys) m h =
      let key = owner_key r in
      let listed = λ (g : Row EntityGrant).
        matches env
          (full (list_where [] none (("entityKey", k ∷ keys) ∷ []) none none no_groups no_not))
          (view grant_fields g) in
      filter-filter listed (λ g. grant_key g == key) s.grants
      ∙ filter-agree (λ g. listed g && grant_key g == key) (grants_ref r.body.ref) s.grants
          (λ g n. same_grants r (k ∷ keys) m h g n)
      ∙ sym (grants_for-eq-filter env r.body.ref s)

  -- The facts that a page decides a row by are those that are read of its entity alone.
  page_facts-eq-entity_facts :
      (r : Row Ownership) (keys : List String)
      → IsIn r s.ownership
      → r.body.ref.cube ≡ cube
      → contains keys (owner_key r) ≡ true
      → record {
        grants = bodies (grants_at (owner_key r) (page_grants env keys s));
        group_ids = group_ids_for env actor.user_id s;
        admin = (reach_of env actor cube s).admin;
        hidden = contains (reach_of env actor cube s).hidden (owner_key r);
      }
        ≡ load_entity_facts env actor r.body.ref s
  unfolding load_entity_facts reach_of
  page_facts-eq-entity_facts r keys m same h = cc (
    page_grants-eq-grants_for r keys m h,
    ap (λ c. is_cube_admin env actor c s) same,
    subst
        (λ c.
          (load_entity_facts env actor r.body.ref s).hidden
          ≡ contains (reach_of env actor c s).hidden (owner_key r))
        same (hidden_agrees env s plain hidden_plain actor r.body.ref (plain.0 r m)),
  )

  -- a row as the store lists it
  abbrev pub IsListed : VisibilityView → Row Ownership → Type 0
  IsListed v r =
      IsIn r s.ownership
      × (matches env (full (visible_where actor cube v (reach_of env actor cube s)))
            (view (ownership_fields env) r)
          ≡ true)

  listed_is_shown :
      (v : VisibilityView) (r : Row Ownership)
      → IsListed v r
      → (r.body.ref.cube ≡ cube) × (shows v actor.user_id (visibility_for env actor r s) ≡ true)
  listed_is_shown v r (m, holds) =
      let rule =
        sym (
          visible_where-eq-visibility_for env zero_text s consistent plain hidden_plain actor cube r
            m v)
        ∙ holds in
      let (live, rest) = &&_true (not r.deleted) _ rule in
      let (here, shown) = &&_true (r.body.ref.cube == cube) _ rest in
      ((eq_iff r.body.ref.cube cube).0 here, shown)

  pub length-decided_rows :
      (v : VisibilityView) (keys : List String) (rows : List (Row Ownership))
      → ((r : Row Ownership) → IsIn r rows → IsListed v r × (contains keys (owner_key r) ≡ true))
      → length (
          decided_rows env actor v
            (reach_of env actor cube s)
            (group_ids_for env actor.user_id s)
            (page_grants env keys s)
            rows)
        ≡ length rows
  unfolding decided_rows visibility_for
  length-decided_rows v keys [] h = refl
  length-decided_rows v keys (r ∷ rows) h =
      let (listed, keyed) = h r (inl refl) in
      let (same, shown) = listed_is_shown v r listed in
      let facts = page_facts-eq-entity_facts r keys listed.0 same keyed in
      let one =
        length-kept v actor.user_id (decide actor r _)
          (ap (λ (f : EntityFacts). shows v actor.user_id (decide actor r f)) facts ∙ shown) in
      ground (
        arith,
        one,
        length-append (kept v actor.user_id (decide actor r _)) _,
        length-decided_rows v keys rows (λ x m. h x (inr m)),
      )

  -- The page has the entry that the rule for one entity gives, for each of its rows and in their order.
  pub decided_rows-shown :
      (v : VisibilityView) (keys : List String) (rows : List (Row Ownership))
      → ((r : Row Ownership) → IsIn r rows → IsListed v r × (contains keys (owner_key r) ≡ true))
      → let shown =
          decided_rows env actor v
            (reach_of env actor cube s)
            (group_ids_for env actor.user_id s)
            (page_grants env keys s)
            rows in
        (map some shown ≡ map (λ (r : Row Ownership). visibility_for env actor r s) rows)
        × (map entry_facts shown ≡ map row_ownership rows)
  unfolding decided_rows visibility_for decide
  decided_rows-shown v keys [] h = (refl, refl)
  decided_rows-shown v keys (r ∷ rows) h =
      let (listed, keyed) = h r (inl refl) in
      let (same, shown) = listed_is_shown v r listed in
      let facts = page_facts-eq-entity_facts r keys listed.0 same keyed in
      let one = ap (decide actor r) facts in
      let (row, found, one_row) = kept-shown v actor.user_id (visibility_for env actor r s) shown in
      let rest = decided_rows-shown v keys rows (λ x m. h x (inr m)) in
      let same_facts = visible_row-facts r (load_entity_facts env actor r.body.ref s) _ row found in
      rw (one, one_row, found) (cc rest.0, cc (same_facts, rest.1))
