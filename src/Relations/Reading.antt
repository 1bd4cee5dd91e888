-- ===== src/Relations/Reading.antt =====
-- core/src/registry-runtime.ts, core/src/relational-enforcement.ts: no answer of the registry shows
-- what the permission service does not let the caller read.
use qwbe.Prelude.{
  String, Bool, true, false, ◌≡◌, refl, sym, ◌∙◌, ◌⊎◌, inl, inr, Option, none, some, List, [], ◌∷◌,
  ◌==◌, true-ne-false, contains, filter, IsIn, IsIn-find, IsIn-of_filter, Bool-cases, Option-cases,
}
use qwbe.Kernel.Platform.{Platform}
use qwbe.Kernel.Paging.{PageRequest}
use qwbe.Permissions.Model.{Actor, read}
use qwbe.Permissions.State.{State, write_audit}
use qwbe.Permissions.Foundation.{
  Scope, entity, Visible, everything, only, sees, visible_ids, decide, authorize,
}
use qwbe.Permissions.Foundation.Scopes.{visible_ids-eq-decide}
use qwbe.Relations.Registry.{
  Summary, SearchResult, RegistryEntry, entity_name, search_of, summary_of, seen_rows, scope_of,
  search_visible, protected_search, entry_search, entry_of, search, allowed_entity, read_allowed,
  if_allowed, guarded_answer, is_of_entity, summary,
}

none-ne-some : (v : Summary) → none ≡ some v → ⊥
none-ne-some v h = cc

module _ (env : Platform) (actor : Actor) (s : State) where
  abbrev MayRead : Scope → String → Type 0
  MayRead scope id = (decide env actor (entity scope id) read s).allowed ≡ true

  -- The rows of the entry need no permission, or the actor may read this one.
  abbrev pub IsOpen : RegistryEntry → String → Type 0
  IsOpen entry id =
      (entry.permission_exempt ≡ true)
      ⊎ ((entity_name entry.entity ≡ none)
          ⊎ ((e : String) × (entity_name entry.entity ≡ some e)
              × ((decide env actor (entity (scope_of env actor entry e) id) read s).allowed
                  ≡ true)))

  -- The entry is registered, its cube is on, and it passes the test.
  abbrev pub IsFound :
      (RegistryEntry → Bool) → (String → Bool) → List RegistryEntry → RegistryEntry → Type 0
  IsFound test is_enabled entries entry =
      IsIn entry entries × (is_enabled entry.name ≡ true) × (test entry ≡ true)

  entry_of-IsFound :
      (test : RegistryEntry → Bool) (is_enabled : String → Bool) (entries : List RegistryEntry)
      (entry : RegistryEntry)
      → entry_of env actor test is_enabled entries ≡ some entry
      → IsFound test is_enabled entries entry
  entry_of-IsFound test is_enabled entries entry h =
      let (i, k) =
        IsIn-find test (filter (λ (x : RegistryEntry). is_enabled x.name) entries) entry h in
      let (j, e) = IsIn-of_filter (λ (x : RegistryEntry). is_enabled x.name) entry entries i in
      (j, e, k)

  seen_rows-sees :
      (visible : Visible) (rows : List Summary) (r : Summary)
      → IsIn r (seen_rows env actor visible rows)
      → sees visible r.id ≡ true
  seen_rows-sees everything rows r i = refl
  seen_rows-sees (only ids) rows r i =
      (IsIn-of_filter (λ (r : Summary). contains ids r.id) r rows i).1

  search_visible-MayRead :
      (scope : Scope) (f : PageRequest → Option Visible → SearchResult) (page : PageRequest)
      (visible : Visible) (r : Summary)
      → IsIn r (search_visible env actor scope f page visible s).0.rows
      → sees visible r.id ≡ true
  search_visible-MayRead scope f page everything r i = refl
  search_visible-MayRead scope f page (only []) r i = absurd i
  search_visible-MayRead scope f page (only (id ∷ ids)) r i =
      seen_rows-sees (only (id ∷ ids)) (f page (some (only (id ∷ ids)))).rows r i

  protected_search-MayRead :
      (scope : Scope) (f : PageRequest → Option Visible → SearchResult) (page : PageRequest)
      (r : Summary)
      → IsIn r (protected_search env actor scope f page s).0.rows
      → MayRead scope r.id
  unfolding protected_search
  protected_search-MayRead scope f page r i =
      sym (visible_ids-eq-decide env scope s actor read r.id)
      ∙ search_visible-MayRead scope f page (visible_ids env actor scope read s) r i

  entry_search-IsOpen :
      (entry : RegistryEntry) (e : Option String)
      (f : Option (String → String → PageRequest → Option Visible → SearchResult))
      (field value : String) (page : PageRequest) (r : Summary)
      → entity_name entry.entity ≡ e
      → IsIn r (entry_search env actor entry e f field value page s).0.rows
      → IsOpen entry r.id
  entry_search-IsOpen entry e none field value page r h i = absurd i
  entry_search-IsOpen entry none (some f) field value page r h i = inr (inl h)
  entry_search-IsOpen entry (some e) (some f) field value page r h i =
      elim (Bool-cases entry.permission_exempt) [
        | inl exempt ↦ inl exempt
        | inr guarded ↦ inr (
            inr (
              e,
              h,
              protected_search-MayRead (scope_of env actor entry e) (f field value) page r
                  (rw guarded at i),
            ))
      ]

  -- Every row that a search through the registry shows is of a cube that is mounted and on, and the
  -- actor may read it, unless the cube needs no permissions or holds no entity; also if the cube
  -- ignores which rows it is asked for.
  pub search-IsOpen :
      (is_enabled : String → Bool) (entries : List RegistryEntry) (cube field value : String)
      (page : PageRequest) (r : Summary)
      → IsIn r (search env actor is_enabled entries cube field value page s).0.rows
      → (entry : RegistryEntry) × IsFound
          (λ (x : RegistryEntry). x.name == cube)
          is_enabled
          entries
          entry
        × IsOpen entry r.id
  unfolding search
  search-IsOpen is_enabled entries cube field value page r i =
      elim (Option-cases
        (entry_of env actor (λ (x : RegistryEntry). x.name == cube) is_enabled entries)) [
          | inl missing ↦ absurd (rw missing at i)
          | inr (entry, found) ↦ (
            entry,
            entry_of-IsFound (λ (x : RegistryEntry). x.name == cube) is_enabled entries entry found,
            entry_search-IsOpen entry (entity_name entry.entity) (search_of entry.relational) field
                value page r refl (rw found at i),
          )
        ]

  -- The row needs no permission, or a caller is named who may read it.
  abbrev pub IsTold : RegistryEntry → Bool → String → Type 0
  IsTold entry has_caller id =
      (entry.permission_exempt ≡ true)
      ⊎ ((has_caller ≡ true)
          × ((e : String) × (entity_name entry.entity ≡ some e)
              × ((decide env actor (entity (scope_of env actor entry e) id) read s).allowed
                  ≡ true)))

  allowed_entity-decide :
      (entry : RegistryEntry) (e : Option String) (id : String)
      → entity_name entry.entity ≡ e
      → (allowed_entity env actor entry e id s).0 ≡ true
      → (x : String) × (entity_name entry.entity ≡ some x)
        × ((decide env actor (entity (scope_of env actor entry x) id) read s).allowed ≡ true)
  unfolding authorize write_audit
  allowed_entity-decide entry none id h k = absurd (cc)
  allowed_entity-decide entry (some e) id h k = (e, h, k)

  read_allowed-IsTold :
      (entry : RegistryEntry) (has_caller : Bool) (id : String)
      → (read_allowed env actor entry has_caller id s).0 ≡ true
      → IsTold entry has_caller id
  unfolding read_allowed
  read_allowed-IsTold entry has_caller id h = elim (Bool-cases entry.permission_exempt) [
    | inl exempt ↦ inl exempt
    | inr guarded ↦ elim (Bool-cases has_caller) [
      | inr nobody ↦ absurd (true-ne-false (sym h ∙ rw (guarded, nobody) refl))
      | inl somebody ↦ inr (
        somebody,
        allowed_entity-decide entry (entity_name entry.entity) id refl
            (rw (guarded, somebody) at h),
      )
    ]
  ]

  if_allowed-true :
      {A : Type 0} (answer : Unit {0} → Option A) (r : Bool × State) (a : A)
      → (if_allowed env actor answer r).0 ≡ some a
      → r.0 ≡ true
  if_allowed-true answer (true, t) a h = refl
  if_allowed-true answer (false, t) a h = cc

  guarded_answer-IsTold :
      {A : Type 0} (entry : RegistryEntry) (has_caller : Bool) (f : Option (String → Option A))
      (id : String) (a : A)
      → (guarded_answer env actor entry has_caller f id s).0 ≡ some a
      → IsTold entry has_caller id
  guarded_answer-IsTold entry has_caller none id a h = cc
  guarded_answer-IsTold entry has_caller (some f) id a h =
      read_allowed-IsTold entry has_caller id
        (if_allowed-true (λ _. f id) (read_allowed env actor entry has_caller id s) a h)

  -- A summary is told only of a row of a cube that is mounted and on, and only to a named caller who
  -- may read the row, unless the cube needs no permissions; without a caller nothing of any
  -- other cube is told.
  pub summary-IsTold :
      (is_enabled : String → Bool) (entries : List RegistryEntry) (e id : String)
      (has_caller : Bool) (v : Summary)
      → (summary env actor is_enabled entries e id has_caller s).0 ≡ some v
      → (entry : RegistryEntry) × IsFound (is_of_entity env actor e) is_enabled entries entry
        × IsTold entry has_caller id
  unfolding summary
  summary-IsTold is_enabled entries e id has_caller v h =
      elim (Option-cases (entry_of env actor (is_of_entity env actor e) is_enabled entries)) [
        | inl missing ↦ absurd (none-ne-some v (rw missing at h))
        | inr (entry, found) ↦ (
          entry,
          entry_of-IsFound (is_of_entity env actor e) is_enabled entries entry found,
          guarded_answer-IsTold entry has_caller (summary_of entry.relational) id v (rw found at h),
        )
      ]
