-- ===== src/Relations/Spaces.antt =====
-- core/src/kernel/space.ts: links between cubes, declared by a third party.
use qwbe.Prelude.{
  or_this, String, Bool, false, not, ◌&&◌, Option, none, some, List, [], ◌∷◌, ◌++◌, ◌==◌, any,
  filter, if◌then◌else◌,
}

-- `Link`
pub record Link : Type 0 where
  pub from : String
  pub field : String
  pub to : String
  pub label : String

-- `SpaceDefinition`
pub record SpaceDefinition : Type 0 where
  pub name : String
  pub title : String
  pub links : List Link

-- A mounted cube, with the entity that it holds.
pub record Holder : Type 0 where
  pub name : String
  pub entity : Option String

pub data DanglingReason : Type 0 where
  no_cube no_holder : DanglingReason

pub record DanglingLink : Type 0 where
  pub space : String
  pub link : Link
  pub reason : DanglingReason

-- the cube holds this entity: `c.entity` is there and not empty
abbrev pub is_entity : String → Option String → Bool
is_entity entity none = false
is_entity entity (some e) = not (e == "") && e == entity

abbrev pub holds_entity : String → Holder → Bool
holds_entity entity c = is_entity entity c.entity

abbrev pub has_cube : List Holder → String → Bool
has_cube cubes name = any (λ (c : Holder). c.name == name) cubes

abbrev pub has_entity : List Holder → String → Bool
has_entity cubes entity = any (holds_entity entity) cubes

abbrev pub dangles : List Holder → String → Link → List DanglingLink
dangles cubes space l =
    if not (has_cube cubes l.from)
    then record { space = space; link = l; reason = no_cube } ∷ []
    else if not (has_entity cubes l.to)
    then record { space = space; link = l; reason = no_holder } ∷ []
    else []

unfoldable pub dangling_in : List Holder → String → List Link → List DanglingLink
dangling_in cubes space [] = []
dangling_in cubes space (l ∷ ls) = dangles cubes space l ++ dangling_in cubes space ls

-- `danglingLinks`
unfoldable pub dangling_links : List SpaceDefinition → List Holder → List DanglingLink
unfolding dangling_in
dangling_links [] cubes = []
dangling_links (s ∷ ss) cubes = dangling_in cubes s.name s.links ++ dangling_links ss cubes

-- `holder.get(entity)`: the last cube that holds an entity is in the Map
unfoldable pub holder_of : List Holder → String → Option String
holder_of [] entity = none
holder_of (c ∷ cs) entity =
    or_this (holder_of cs entity) (if holds_entity entity c then some c.name else none)

abbrev pub is_on : (String → Bool) → Option String → Bool
is_on is_enabled none = false
is_on is_enabled (some target) = not (target == "") && is_enabled target

abbrev pub is_active : List Holder → (String → Bool) → Link → Bool
is_active cubes is_enabled l = is_on is_enabled (holder_of cubes l.to) && is_enabled l.from

-- `activeLinks`
unfoldable pub active_links : List SpaceDefinition → List Holder → (String → Bool) → List Link
unfolding holder_of
active_links [] cubes is_enabled = []
active_links (s ∷ ss) cubes is_enabled =
    filter (is_active cubes is_enabled) s.links ++ active_links ss cubes is_enabled
