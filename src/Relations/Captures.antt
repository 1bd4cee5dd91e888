-- ===== src/Relations/Captures.antt =====
-- core/src/registry-runtime.ts: what the registry tells of links, and of the rows that the kernel
-- records.
use qwbe.Prelude.{String, Bool, Option, none, some, List, ◌==◌, filter, find, map, if◌then◌else◌}
use qwbe.Relations.Spaces.{Link}
use qwbe.Relations.Registry.{RegistryEntry, RowState}

-- `linksTo`
pub record LinkGroup : Type 0 where
  pub cube : String
  pub label : String
  pub field : String

unfoldable pub links_to : List Link → String → List LinkGroup
links_to live e =
    map
      (λ (l : Link).
        let group : LinkGroup = record { cube = l.from; label = l.label; field = l.field } in group)
      (filter (λ (l : Link). l.to == e) live)

-- `linksFrom`
unfoldable pub links_from : List Link → String → List Link
links_from live cube = filter (λ (l : Link). l.from == cube) live

abbrev captured : Option RegistryEntry → Option String
captured none = none
captured (some entry) = entry.capture_entity

-- `captureOf`
unfoldable pub capture_of : (String → Bool) → List RegistryEntry → String → Option String
capture_of is_enabled entries cube = captured (
    find (λ (x : RegistryEntry). x.name == cube)
      (filter (λ (entry : RegistryEntry). is_enabled entry.name) entries))

abbrev of_kind : String → Option RowState → Option RowState
of_kind capture none = none
of_kind capture (some row) = if row.kind == capture then some row else none

abbrev entry_state : Option String → Option (String → Option RowState) → String → Option RowState
entry_state none state id = none
entry_state (some capture) none id = none
entry_state (some capture) (some state) id = of_kind capture (state id)

abbrev state_of : Option RegistryEntry → String → Option RowState
state_of none id = none
state_of (some entry) id = entry_state entry.capture_entity entry.state id

-- `targetState`
unfoldable pub target_state :
    (String → Bool) → List RegistryEntry → String → String → Option RowState
target_state is_enabled entries cube id =
    state_of
      (find (λ (x : RegistryEntry). x.name == cube)
        (filter (λ (entry : RegistryEntry). is_enabled entry.name) entries))
      id
