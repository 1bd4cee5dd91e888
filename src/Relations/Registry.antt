-- ===== src/Relations/Registry.antt =====
-- core/src/registry-runtime.ts, core/src/relational-enforcement.ts: what the registry answers about
-- other cubes' rows, with the permission service between. What a cube answers of itself is a
-- parameter: its functions read their own store, and cannot write the tables of the service.
use qwbe.Prelude.{
  ℕ, ◌+◌, String, Bool, true, false, Option, none, some, List, [], ◌∷◌, ◌==◌, contains, filter,
  find, length, map, nat_eq, if◌then◌else◌,
}
use qwbe.Kernel.Platform.{Platform}
use qwbe.Kernel.Paging.{PageRequest}
use qwbe.Permissions.Model.{Actor, AccessDecision, read}
use qwbe.Permissions.Effect.{Outcome, success, failure}
use qwbe.Permissions.State.{State}
use qwbe.Permissions.Foundation.{
  Scope, entity, Visible, everything, only, visible_ids, authorize, audit_list,
}

-- `SummaryRow`: a row's id, and what the cube chose to show of it.
pub record Summary : Type 0 where
  pub id : String
  pub title : String
  pub details : List (String × String)

-- `SearchResult`
pub record SearchResult : Type 0 where
  pub rows : List Summary
  pub total : ℕ

-- `RowState`
pub record RowState : Type 0 where
  pub id : String
  pub kind : String
  pub deleted : Bool

-- `RelationalPart`
pub record RelationalPart : Type 0 where
  pub search : Option (String → String → PageRequest → Option Visible → SearchResult)
  pub summary_by_id : Option (String → Option Summary)
  pub field_value : Option (String → String → Option String)

-- `RegistryEntry`
pub record RegistryEntry : Type 0 where
  pub name : String
  pub entity : Option String
  pub relational : Option RelationalPart
  pub permission_exempt : Bool
  pub capture_entity : Option String
  pub state : Option (String → Option RowState)

abbrev no_rows : SearchResult
no_rows = record { rows = []; total = 0 }

-- `entry.entity`, where it is there and not empty
abbrev pub entity_name : Option String → Option String
entity_name none = none
entity_name (some e) = if e == "" then none else some e

abbrev pub search_of :
    Option RelationalPart → Option (String → String → PageRequest → Option Visible → SearchResult)
search_of none = none
search_of (some part) = part.search

abbrev pub summary_of : Option RelationalPart → Option (String → Option Summary)
summary_of none = none
summary_of (some part) = part.summary_by_id

abbrev pub field_of : Option RelationalPart → Option (String → String → Option String)
field_of none = none
field_of (some part) = part.field_value

abbrev same_entity : String → Option String → Bool
same_entity e none = false
same_entity e (some x) = x == e

module _ (env : Platform) (actor : Actor) where
  abbrev pub source_of : Visible → String
  source_of (only ids) = "scoped"
  source_of everything = if contains actor.roles "admin" then "superadmin" else "cube-admin"

  abbrev pub row_ids : List Summary → List String
  row_ids rows = map (λ (r : Summary). r.id) rows

  abbrev pub seen_rows : Visible → List Summary → List Summary
  seen_rows everything rows = rows
  seen_rows (only ids) rows = filter (λ (r : Summary). contains ids r.id) rows

  -- the count is the cube's only where no row was dropped
  abbrev pub published : PageRequest → SearchResult → List Summary → SearchResult
  published page found rows = record {
    rows = rows;
    total =
        if nat_eq (length rows) (length found.rows) then found.total else page.offset + length rows;
  }

  abbrev pub audited : Scope → Visible → PageRequest → SearchResult → State → SearchResult × State
  audited scope visible page found s = (
    published page found (seen_rows visible found.rows),
    (audit_list env actor scope read (source_of visible) (row_ids (seen_rows visible found.rows))
        s).1,
  )

  abbrev pub search_visible :
      Scope
      → (PageRequest → Option Visible → SearchResult)
      → PageRequest
      → Visible
      → State
      → SearchResult × State
  search_visible scope search page (only []) s =
      (no_rows, (audit_list env actor scope read "scoped" [] s).1)
  search_visible scope search page (only (id ∷ ids)) s =
      audited scope (only (id ∷ ids)) page (search page (some (only (id ∷ ids)))) s
  search_visible scope search page everything s =
      audited scope everything page (search page (some everything)) s

  abbrev pub scope_of : RegistryEntry → String → Scope
  scope_of entry e = record { cube = entry.name; entity_type = e }

  -- `protectedSearch`
  unfoldable pub protected_search :
      Scope
      → (PageRequest → Option Visible → SearchResult)
      → PageRequest
      → State
      → SearchResult × State
  protected_search scope search page s =
      search_visible scope search page (visible_ids env actor scope read s) s

  -- the search of an entry, as `protectRelational` leaves it
  abbrev pub entry_search :
      RegistryEntry
      → Option String
      → Option (String → String → PageRequest → Option Visible → SearchResult)
      → String
      → String
      → PageRequest
      → State
      → SearchResult × State
  entry_search entry e none field value page s = (no_rows, s)
  entry_search entry none (some search) field value page s = (search field value page none, s)
  entry_search entry (some e) (some search) field value page s =
      if entry.permission_exempt
      then (search field value page none, s)
      else protected_search (scope_of entry e) (search field value) page s

  abbrev pub entry_of :
      (RegistryEntry → Bool) → (String → Bool) → List RegistryEntry → Option RegistryEntry
  entry_of test is_enabled entries =
      find test (filter (λ (entry : RegistryEntry). is_enabled entry.name) entries)

  abbrev pub search_entry :
      Option RegistryEntry → String → String → PageRequest → State → SearchResult × State
  search_entry none field value page s = (no_rows, s)
  search_entry (some entry) field value page s =
      entry_search entry (entity_name entry.entity) (search_of entry.relational) field value page s

  -- `Registry.search`
  unfoldable pub search :
      (String → Bool)
      → List RegistryEntry
      → String
      → String
      → String
      → PageRequest
      → State
      → SearchResult × State
  unfolding protected_search
  search is_enabled entries cube field value page s =
      search_entry (entry_of (λ (x : RegistryEntry). x.name == cube) is_enabled entries) field value
        page s

  abbrev pub decided : Outcome AccessDecision × State → Bool × State
  decided (success d, s) = (d.allowed, s)
  decided (failure e, s) = (false, s)

  abbrev pub allowed_entity : RegistryEntry → Option String → String → State → Bool × State
  allowed_entity entry none id s = (false, s)
  allowed_entity entry (some e) id s =
      decided (authorize env actor (entity (scope_of entry e) id) read s)

  -- `relationalReadAllowed`; the caller is the actor, or nobody
  unfoldable pub read_allowed : RegistryEntry → Bool → String → State → Bool × State
  read_allowed entry has_caller id s =
      if entry.permission_exempt
      then (true, s)
      else if has_caller
      then allowed_entity entry (entity_name entry.entity) id s
      else (false, s)

  abbrev pub if_allowed : {A : Type 0} → (Unit {0} → Option A) → Bool × State → Option A × State
  if_allowed answer (true, s) = (answer tt, s)
  if_allowed answer (false, s) = (none, s)

  abbrev pub guarded_answer :
      {A : Type 0}
      → RegistryEntry
      → Bool
      → Option (String → Option A)
      → String
      → State
      → Option A × State
  guarded_answer entry has_caller none id s = (none, s)
  guarded_answer entry has_caller (some answer) id s =
      if_allowed (λ _. answer id) (read_allowed entry has_caller id s)

  abbrev pub summary_entry : Option RegistryEntry → Bool → String → State → Option Summary × State
  summary_entry none has_caller id s = (none, s)
  summary_entry (some entry) has_caller id s =
      guarded_answer entry has_caller (summary_of entry.relational) id s

  -- whether the entry holds the entity
  abbrev pub is_of_entity : String → RegistryEntry → Bool
  is_of_entity e entry = same_entity e entry.entity

  -- `Registry.summary`
  unfoldable pub summary :
      (String → Bool) → List RegistryEntry → String → String → Bool → State → Option Summary × State
  unfolding read_allowed
  summary is_enabled entries e id has_caller s =
      summary_entry (entry_of (is_of_entity e) is_enabled entries) has_caller id s

  abbrev pub at_field :
      Option (String → String → Option String) → String → Option (String → Option String)
  at_field none field = none
  at_field (some value) field = some (λ id. value id field)

  abbrev pub field_entry :
      Option RegistryEntry → String → Bool → String → State → Option String × State
  field_entry none field has_caller id s = (none, s)
  field_entry (some entry) field has_caller id s =
      guarded_answer entry has_caller (at_field (field_of entry.relational) field) id s

  -- `Registry.fieldValue`
  unfoldable pub field_value :
      (String → Bool)
      → List RegistryEntry
      → String
      → String
      → String
      → Bool
      → State
      → Option String × State
  unfolding read_allowed
  field_value is_enabled entries cube id field has_caller s =
      field_entry (entry_of (λ (x : RegistryEntry). x.name == cube) is_enabled entries) field
        has_caller id s
