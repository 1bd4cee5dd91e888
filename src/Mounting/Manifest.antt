-- ===== src/Mounting/Manifest.antt =====
-- core/src/kernel/manifest.ts, manifest-validation.ts: what a cube declares, and the gates that
-- check it against the directory, the endpoints and itself. A gate collects its reasons and throws
-- if there is one; here it returns them.
pub mod Owners
pub mod Routes
pub mod Surface
use Prim.Native.Char.{code}
use Prim.Native.String
use qwbe.Prelude.{
  ℕ, String, Bool, true, false, not, ◌&&◌, ◌||◌, Option, none, some, or_else, is_some, List, [],
  ◌∷◌, ◌++◌, ◌==◌, any, find, filter, map, contains, starts_with, leb, nat_eq, ltb, if◌then◌else◌,
}
use Prim.Native.String.{count}
use qwbe.Mounting.Names.{is_name, full_name, read_permission_of}

-- `PermissionSpec`
pub record PermissionSpec : Type 0 where
  pub name : String
  pub roles : List String

-- A flag as the imported module has it: a Boolean or something else.
pub data Flag : Type 0 where
  bool : Bool → Flag
  other : Flag

-- `Manifest`, the parts that the gates read. A route without a permission is declared null.
pub record Manifest : Type 0 where
  pub name : String
  pub parent : Option String
  pub tables : List String
  pub indexed : List (String × List String)
  pub entity : Option String
  pub agent : Bool
  pub requires_auth : Bool
  pub permissions : List PermissionSpec
  pub publishes : Option (List String)
  pub required : Bool
  pub manages_cubes : Bool
  pub runs_commands : Bool
  pub provides_custom_fields : Bool
  pub provides_credentials : Bool
  pub uses_credentials : Bool
  pub provides_identity_directory : Bool
  pub provides_entity_permissions : Bool
  pub reads_activity : Option Flag
  pub routes : List (String × Option String)

-- An endpoint of the built contract: whether it has the Authorization middleware itself, and the
-- statuses that its error schema declares.
pub record Endpoint : Type 0 where
  pub name : String
  pub path : String
  pub method : String
  pub authorized : Bool
  pub error_statuses : List ℕ

-- `CubeGroup`, with the middleware of the whole group.
pub record Group : Type 0 where
  pub identifier : Option String
  pub authorized : Bool
  pub endpoints : List Endpoint

-- `CommandSpec`
pub record CommandSpec : Type 0 where
  pub name : String
  pub summary : String
  pub permission : String
  pub max_args : Option ℕ

pub data Reason : Type 0 where
  name_differs name_malformed name_reserved parent_malformed no_table not_boolean : Reason
  foreign_permission index_not_table : String → Reason
  index_malformed : String → String → Reason
  command_twice command_foreign command_undeclared : String → Reason
  route_unserved list_opts_out route_undeclared route_unauthorized route_silent : String → Reason
  undeclared_route : String → Reason

abbrev pub full : Manifest → String
full m = full_name m.name m.parent

abbrev pub reason_if : Bool → Reason → List Reason → List Reason
reason_if holds reason rest = if holds then reason ∷ rest else rest

abbrev is_word_start : ℕ → Bool
is_word_start c = (leb b'A' c && leb c b'Z') || ((leb b'a' c && leb c b'z') || nat_eq c b'_')

all_word : String → Bool
all_word String.[] = true
all_word (String.◌∷◌ c s) =
    (is_word_start (code c) || (leb b'0' (code c) && leb (code c) b'9')) && all_word s

-- `isLookupField`: a letter or underscore, and at most 62 more
unfoldable pub is_lookup_field : String → Bool
unfolding all_word
is_lookup_field String.[] = false
is_lookup_field (String.◌∷◌ c s) = is_word_start (code c) && (all_word s && leb (count s) 62)

unfoldable pub malformed_fields : String → List String → List Reason
malformed_fields table [] = []
malformed_fields table (field ∷ fields) =
    reason_if (not (is_lookup_field field)) (index_malformed table field)
      (malformed_fields table fields)

-- `indexedReasons`
unfoldable pub indexed_reasons : List String → List (String × List String) → List Reason
unfolding malformed_fields
indexed_reasons tables [] = []
indexed_reasons tables ((table, fields) ∷ rest) =
    reason_if (not (contains tables table)) (index_not_table table)
      (malformed_fields table fields ++ indexed_reasons tables rest)

abbrev pub has_prefix : String → String → Bool
has_prefix cube name = starts_with name (String.◌++◌ cube ":")

unfoldable pub foreign_permissions : String → List PermissionSpec → List Reason
foreign_permissions cube [] = []
foreign_permissions cube (p ∷ ps) =
    reason_if (not (has_prefix cube p.name)) (foreign_permission p.name)
      (foreign_permissions cube ps)

abbrev pub names_parent : Option String → Bool
names_parent none = true
names_parent (some parent) = is_name parent

abbrev not_bool : Option Flag → Bool
not_bool none = false
not_bool (some (bool b)) = false
not_bool (some other) = true

abbrev pub is_truthy : Option String → Bool
is_truthy none = false
is_truthy (some s) = not (s == "")

abbrev is_empty : List String → Bool
is_empty [] = true
is_empty (x ∷ xs) = false

-- `validateManifest`
unfoldable pub validate_manifest : String → Manifest → List Reason
unfolding foreign_permissions indexed_reasons
validate_manifest directory m = reason_if (not (m.name == directory)) name_differs (
    reason_if (not (is_name m.name)) name_malformed (
      reason_if (m.name == "qwbe") name_reserved (
        reason_if (not (names_parent m.parent)) parent_malformed (
          reason_if (is_empty m.tables && is_truthy m.entity) no_table (
            reason_if (not_bool m.reads_activity) not_boolean (
              foreign_permissions (full m) m.permissions ++ indexed_reasons m.tables m.indexed))))))

abbrev pub declares : Manifest → String → Bool
declares m permission = any (λ (p : PermissionSpec). p.name == permission) m.permissions

-- the loop over the commands that looks for a name seen before
unfoldable pub repeated_commands : List String → List CommandSpec → List Reason
repeated_commands seen [] = []
repeated_commands seen (c ∷ cs) =
    reason_if (contains seen c.name) (command_twice c.name) (repeated_commands (c.name ∷ seen) cs)

unfoldable pub bad_commands : Manifest → List CommandSpec → List Reason
bad_commands m [] = []
bad_commands m (c ∷ cs) =
    reason_if (not (has_prefix (full m) c.name)) (command_foreign c.name)
      (reason_if (not (declares m c.permission)) (command_undeclared c.name) (bad_commands m cs))

-- `validateCommands`
unfoldable pub validate_commands : Manifest → List CommandSpec → List Reason
unfolding repeated_commands bad_commands
validate_commands m commands = repeated_commands [] commands ++ bad_commands m commands

-- `endpoints[name]`
abbrev pub endpoint_of : Group → String → Option Endpoint
endpoint_of g name = find (λ (e : Endpoint). e.name == name) g.endpoints

-- `routes[name]`
unfoldable pub lookup_route : List (String × Option String) → String → Option (Option String)
lookup_route [] name = none
lookup_route ((key, permission) ∷ rest) name =
    if key == name then some permission else lookup_route rest name

-- `declaredPermission` (kernel/auth-contract.ts)
unfoldable pub declared_permission : List (String × Option String) → String → String → Option String
unfolding lookup_route
declared_permission routes cube name =
    or_else (lookup_route routes name)
      (if name == "list" then some (read_permission_of cube) else none)

abbrev pub behind_auth : Group → Endpoint → Bool
behind_auth g e = g.authorized || e.authorized

abbrev pub declares_forbidden : Endpoint → Bool
declares_forbidden e = any (nat_eq 403) e.error_statuses

-- the three demands on a route with a permission
unfoldable pub permission_reasons : Manifest → Group → Endpoint → String → List Reason → List Reason
permission_reasons m g e permission rest =
    reason_if (not (declares m permission)) (route_undeclared e.name) (
      reason_if (not (behind_auth g e)) (route_unauthorized e.name)
        (reason_if (not (declares_forbidden e)) (route_silent e.name) rest))

abbrev pub declared_reasons :
    Manifest → Group → String → Option Endpoint → Option String → List Reason → List Reason
declared_reasons m g name none permission rest = route_unserved name ∷ rest
declared_reasons m g name (some e) none rest = reason_if (name == "list") (list_opts_out name) rest
declared_reasons m g name (some e) (some permission) rest = permission_reasons m g e permission rest

-- the loop over the declared routes
unfoldable pub declared_routes : Manifest → Group → List (String × Option String) → List Reason
unfolding permission_reasons
declared_routes m g [] = []
declared_routes m g ((name, permission) ∷ rest) =
    declared_reasons m g name (endpoint_of g name) permission (declared_routes m g rest)

-- the loop over the endpoints
unfoldable pub undeclared_routes : Manifest → Group → List Endpoint → List Reason
undeclared_routes m g [] = []
undeclared_routes m g (e ∷ es) =
    reason_if
      (not (is_some (lookup_route m.routes e.name) || (e.name == "list" || not (behind_auth g e))))
      (undeclared_route e.name) (undeclared_routes m g es)

-- the demands on a `list` that is served and not declared
abbrev pub list_reasons : Manifest → Group → Option Endpoint → Option (Option String) → List Reason
list_reasons m g (some e) none = permission_reasons m g e (read_permission_of (full m)) []
list_reasons m g (some e) (some declared) = []
list_reasons m g none declared = []

-- `validateRoutes`
unfoldable pub validate_routes : Manifest → Group → List Reason
unfolding declared_routes undeclared_routes lookup_route permission_reasons
validate_routes m g =
    declared_routes m g m.routes
    ++ (undeclared_routes m g g.endpoints
        ++ list_reasons m g (endpoint_of g "list") (lookup_route m.routes "list"))
