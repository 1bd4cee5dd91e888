-- ===== src/Permissions/Visibility/Facts.antt =====
-- What a page reads at once agrees with what is read about one entity, where the stored keys and
-- counts are right: so the store predicate lists what the rule for one entity shows.
use qwbe.Prelude.{
  ℕ, String, Bool, true, false, not, ◌≡◌, refl, sym, ap, ◌∙◌, ◌&&◌, inl, inr, some, List, [], ◌∷◌,
  arith, ◌==◌, eq_iff, nat_eq, any, filter, map, length, contains, contains-map, any-filter,
  is_some, is_some-find, Bool-cases, IsIn,
}
use mathlib.Core.Path.{subst}
use qwbe.Kernel.Platform.{Platform}
use qwbe.Kernel.Where.{matches, full, pair, pairs}
use qwbe.Kernel.Table.{Row, view, is_live, rows_where}
use qwbe.Kernel.Table.Laws.{first-eq-find}
use qwbe.Permissions.Model.{Actor, EntityRef, EntityGrant, Ownership, VisibilityView, names_user}
use qwbe.Permissions.State.{
  State, HiddenPreference, ownership_fields, grant_fields, hidden_fields, entity_key_of,
  is_cube_admin, grants_for, group_ids_for,
}
use qwbe.Permissions.State.Lookups.{grants_ref, grants_for-eq-filter}
use qwbe.Permissions.State.Keys.{IsPlain}
use qwbe.Permissions.Counts.Consistency.{StateIsConsistent}
use qwbe.Permissions.Counts.Reconcile.{RefsArePlain, same_key}
use qwbe.Permissions.Visibility.{grant_key, hidden_pairs, visible_where, EntityFacts, Reach}
use qwbe.Permissions.Visibility.Pages.{load_entity_facts, reach_of, visibility_for}
use qwbe.Permissions.Visibility.Predicate.{Agrees, shows, matches-visible_where}

any-map :
    {A B : Type 0} (p : B → Bool) (f : A → B) (xs : List A)
    → any p (map f xs) ≡ any (λ x. p (f x)) xs
any-map p f [] = refl
any-map p f (x ∷ xs) = ground (arith, any-map p f xs)

length-map : {A B : Type 0} (f : A → B) (xs : List A) → length (map f xs) ≡ length xs
length-map f [] = refl
length-map f (x ∷ xs) = ground (arith, length-map f xs)

any-agree :
    {A : Type 0} (p q : A → Bool) (xs : List A)
    → ((x : A) → IsIn x xs → p x ≡ q x)
    → any p xs ≡ any q xs
any-agree p q [] h = refl
any-agree p q (x ∷ xs) h = cc (h x (inl refl), any-agree p q xs (λ y m. h y (inr m)))

-- No preference hides an entity whose ref holds a colon.
abbrev pub HiddenArePlain : State → Type 0
HiddenArePlain s = (h : Row HiddenPreference) → IsIn h s.hidden → IsPlain h.body.ref

module _ (env : Platform) (s : State) (plain : RefsArePlain s) (hidden_plain : HiddenArePlain s)
    (actor : Actor) (ref : EntityRef) (plain_ref : IsPlain ref) where
  abbrev names : Row EntityGrant → Bool
  names g = names_user actor.user_id (group_ids_for env actor.user_id s) g.body.subject

  cube_grant :
      (g : Row EntityGrant)
      → matches env (pair "cube" ref.cube) (view grant_fields g)
        ≡ (is_live g && g.body.ref.cube == ref.cube)
  unfolding matches
  cube_grant g = ground arith

  same_grant :
      (g : Row EntityGrant)
      → IsIn g s.grants
      → (matches env (pair "cube" ref.cube) (view grant_fields g)
          && (names g && grant_key g == entity_key_of ref))
        ≡ (grants_ref ref g && names g)
  same_grant g m = ground (arith, cube_grant g, same_key g.body.ref ref plain_ref (plain.1 g m))

  granted_agrees :
      (reach_of env actor ref.cube s).admin ≡ false
      → contains (reach_of env actor ref.cube s).granted (entity_key_of ref)
        ≡ any
            (λ (g : EntityGrant).
              names_user actor.user_id (load_entity_facts env actor ref s).group_ids g.subject)
            (load_entity_facts env actor ref s).grants
  unfolding reach_of load_entity_facts rows_where
  granted_agrees h =
      let here =
        λ (g : Row EntityGrant). matches env (pair "cube" ref.cube) (view grant_fields g) in
      let key = entity_key_of ref in
      rw h (
        contains-map grant_key (filter names (filter here s.grants)) key
        ∙ any-filter names (λ g. grant_key g == key) (filter here s.grants)
        ∙ any-filter here (λ g. names g && grant_key g == key) s.grants
        ∙ any-agree (λ g. here g && (names g && grant_key g == key))
            (λ g. grants_ref ref g && names g) s.grants same_grant
        ∙ sym (any-filter (grants_ref ref) names s.grants)
        ∙ ap (any names) (sym (grants_for-eq-filter env ref s))
        ∙ sym (
            any-map
              (λ (g : EntityGrant).
                names_user actor.user_id (group_ids_for env actor.user_id s) g.subject)
              (λ (g : Row EntityGrant). g.body) (grants_for env ref s)))

  same_hidden :
      (h : Row HiddenPreference)
      → IsIn h s.hidden
      → matches env (pairs (hidden_pairs actor.user_id ref)) (view hidden_fields h) ≡ (
          matches env
            (pairs (("userId", actor.user_id) ∷ ("cube", ref.cube) ∷ []))
            (view hidden_fields h)
          && entity_key_of h.body.ref == entity_key_of ref)
  unfolding matches
  same_hidden h m = ground (arith, same_key h.body.ref ref plain_ref (hidden_plain h m))

  pub hidden_agrees :
      (load_entity_facts env actor ref s).hidden
      ≡ contains (reach_of env actor ref.cube s).hidden (entity_key_of ref)
  unfolding reach_of load_entity_facts rows_where
  hidden_agrees =
      let marks = λ (h : Row HiddenPreference).
        matches env (pairs (hidden_pairs actor.user_id ref)) (view hidden_fields h) in
      let mine = λ (h : Row HiddenPreference).
        matches env (pairs (("userId", actor.user_id) ∷ ("cube", ref.cube) ∷ []))
          (view hidden_fields h) in
      let key_of = λ (h : Row HiddenPreference). entity_key_of h.body.ref in
      ap is_some (first-eq-find env hidden_fields (pairs (hidden_pairs actor.user_id ref)) s.hidden)
      ∙ is_some-find marks s.hidden
      ∙ any-agree marks (λ h. mine h && key_of h == entity_key_of ref) s.hidden same_hidden
      ∙ sym (any-filter mine (λ h. key_of h == entity_key_of ref) s.hidden)
      ∙ sym (contains-map key_of (filter mine s.hidden) (entity_key_of ref))

module _ (env : Platform) (zero_text : (n : ℕ) → (env.number_text n == "0") ≡ nat_eq n 0)
    (s : State) (consistent : StateIsConsistent s) (plain : RefsArePlain s)
    (hidden_plain : HiddenArePlain s) (actor : Actor) (cube : String) (r : Row Ownership)
    (member : IsIn r s.ownership) where
  abbrev row_facts : EntityFacts
  row_facts = load_entity_facts env actor r.body.ref s

  superadmin_reaches :
      (c : String) → contains actor.roles "admin" ≡ true → is_cube_admin env actor c s ≡ true
  unfolding is_cube_admin
  superadmin_reaches c h = rw h refl

  row-Agrees : r.deleted ≡ false → Agrees actor (reach_of env actor r.body.ref.cube s) r row_facts
  unfolding reach_of load_entity_facts
  row-Agrees live =
      let (key, count) = consistent.counted r member live in
      let grants = grants_for env r.body.ref s in
      record {
        keyed = key;
        counted =
            count
            ∙ ap some (
                sym (
                  length-map (λ (g : Row EntityGrant). g.body) grants
                  ∙ ap length (grants_for-eq-filter env r.body.ref s)));
        same_admin = refl;
        superadmin = superadmin_reaches r.body.ref.cube;
        granted = granted_agrees env s plain hidden_plain actor r.body.ref (plain.0 r member);
        same_hidden = hidden_agrees env s plain hidden_plain actor r.body.ref (plain.0 r member);
      }

  other_cube :
      (v : VisibilityView) (reach : Reach)
      → (r.body.ref.cube == cube) ≡ false
      → matches env (full (visible_where actor cube v reach)) (view (ownership_fields env) r)
        ≡ false
  unfolding matches visible_where
  other_cube v reach h = elim (Bool-cases r.deleted) [
    | inl dead ↦ rw dead refl
    | inr live ↦ rw (live, h) refl
  ]

  -- In a store whose stored keys and counts agree with the live grants and whose refs hold no colon,
  -- for every view: the predicate of the page holds of an ownership row exactly when the row is live
  -- and of the cube and the rule for its one entity, read on its own, shows it in the view.
  pub visible_where-eq-visibility_for :
      (v : VisibilityView)
      → matches env
          (full (visible_where actor cube v (reach_of env actor cube s)))
          (view (ownership_fields env) r)
        ≡ (not r.deleted
            && (r.body.ref.cube == cube && shows v actor.user_id (visibility_for env actor r s)))
  unfolding visibility_for matches
  visible_where-eq-visibility_for v = elim (Bool-cases r.deleted) [
    | inl dead ↦ rw dead refl
    | inr live ↦ elim (Bool-cases (r.body.ref.cube == cube)) [
      | inr h ↦ ground (arith, other_cube v (reach_of env actor cube s) h)
      | inl h ↦
          let same = (eq_iff r.body.ref.cube cube).0 h in
          let agrees =
            subst (λ c. Agrees actor (reach_of env actor c s) r row_facts) same (row-Agrees live) in
          matches-visible_where env zero_text actor cube (reach_of env actor cube s) r row_facts
            agrees v
    ]
  ]
