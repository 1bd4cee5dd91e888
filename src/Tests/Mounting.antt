-- ===== src/Tests/Mounting.antt =====
-- The theorems about the cubes of a server, each at one input: notes, whose text may be edited, and
-- tags, with its child shelves.
use qwbe.Prelude.{
  ℕ, ◌+◌, String, Bool, true, false, ◌≡◌, refl, none, some, List, [], ◌∷◌, all, ◌&&◌, ◌==◌, inl,
  inr, split,
}
use qwbe.Mounting.Names.{command_owner, is_name, full_name, path_prefix, dash_form}
use qwbe.Mounting.Manifest.{
  Manifest, PermissionSpec, CommandSpec, Endpoint, Group, full, declares, lookup_route,
  declared_permission, validate_manifest, validate_commands, validate_routes, is_lookup_field,
}
use qwbe.Mounting.Manifest.Owners.{validate_commands-owner}
use qwbe.Mounting.Manifest.Routes.{IsGuarded, validate_routes-IsGuarded}
use qwbe.Mounting.Routes.{
  MountedCube, check_route_ownership, reject_disabled, url_prefix, group_id_of,
}
use qwbe.Mounting.Mount.{CubeParts, CubeDefinition, mount}
use qwbe.Mounting.Mount.Sound.{AreLoaded, MountEnds, mount-MountEnds}
use qwbe.Mounting.Routes.Switching.{Rejects, reject_disabled-Rejects}

abbrev pub notes : Manifest
notes = record {
  name = "notes";
  parent = none;
  tables = "notes" ∷ [];
  indexed = ("notes", "title" ∷ []) ∷ [];
  entity = some "note";
  agent = false;
  requires_auth = true;
  permissions =
      record { name = "notes:read"; roles = "user" ∷ [] }
      ∷ record { name = "notes:write"; roles = [] }
      ∷ [];
  publishes = none;
  required = false;
  manages_cubes = false;
  runs_commands = false;
  provides_custom_fields = false;
  provides_credentials = false;
  uses_credentials = false;
  provides_identity_directory = false;
  provides_entity_permissions = false;
  reads_activity = none;
  routes = ("rename", some "notes:write") ∷ ("mine", none) ∷ [];
}

abbrev pub export_notes : CommandSpec
export_notes = record {
  name = "notes:export";
  summary = "Write all notes";
  permission = "notes:read";
  max_args = some 1;
}

abbrev rename_route : Endpoint
rename_route = record {
  name = "rename";
  path = "/notes/:id/rename";
  method = "POST";
  authorized = false;
  error_statuses = 401 ∷ 403 ∷ [];
}

abbrev list_route : Endpoint
list_route = record rename_route { name = "list"; path = "/notes"; method = "GET" }

abbrev mine_route : Endpoint
mine_route = record list_route { name = "mine"; path = "/notes/mine"; error_statuses = [] }

abbrev notes_group : Group
notes_group = record {
  identifier = some "notes";
  authorized = true;
  endpoints = list_route ∷ rename_route ∷ mine_route ∷ [];
}

notes_valid : validate_manifest "notes" notes ≡ []
unfolding validate_manifest is_name full_name is_lookup_field
notes_valid = refl

export_valid : validate_commands notes (export_notes ∷ []) ≡ []
unfolding validate_commands full_name
export_valid = refl

routes_valid : validate_routes notes notes_group ≡ []
unfolding validate_routes full_name
routes_valid = refl

validate_commands-owner_example :
    (all
        (λ (c : CommandSpec). command_owner c.name == full notes && declares notes c.permission)
        (export_notes ∷ [])
      ≡ true)
    × (all (λ (p : PermissionSpec). command_owner p.name == full notes) notes.permissions ≡ true)
validate_commands-owner_example =
    validate_commands-owner "notes" notes (export_notes ∷ []) notes_valid export_valid

validate_routes-IsGuarded_example :
    IsGuarded notes notes_group list_route
      (lookup_route notes.routes "list")
      (declared_permission notes.routes (full notes) "list")
validate_routes-IsGuarded_example =
    validate_routes-IsGuarded notes notes_group list_route refl routes_valid

abbrev notes_cube : MountedCube
notes_cube = record { manifest = notes; name = "notes"; group = notes_group }

abbrev login_route : Endpoint
login_route = record {
  name = "login";
  path = "/auth/login";
  method = "POST";
  authorized = false;
  error_statuses = [];
}

abbrev auth_cube : MountedCube
auth_cube = record {
  manifest = record notes { name = "auth"; requires_auth = false; permissions = []; routes = [] };
  name = "auth";
  group = record { identifier = some "auth"; authorized = false; endpoints = login_route ∷ [] };
}

abbrev both_cubes : List MountedCube
both_cubes = auth_cube ∷ notes_cube ∷ []

owned : check_route_ownership both_cubes ≡ none
unfolding check_route_ownership path_prefix dash_form split group_id_of
owned = refl

abbrev only_auth : String → Bool
only_auth name = name == "auth"

renames_note : url_prefix "/notes/n1/rename?x=1" ≡ some "notes"
unfolding url_prefix path_prefix split
renames_note = refl

reject_disabled-Rejects_example :
    Rejects both_cubes only_auth "/notes/n1/rename?x=1" "notes"
      (reject_disabled both_cubes only_auth "/notes/n1/rename?x=1")
reject_disabled-Rejects_example =
    reject_disabled-Rejects both_cubes only_auth "/notes/n1/rename?x=1" "notes" owned renames_note

-- the notes, with a listener that adds the payload to a number
abbrev notes_parts : CubeParts ℕ ℕ
notes_parts = record {
  group = notes_group;
  handlers = ("list", true) ∷ ("rename", true) ∷ ("mine", true) ∷ [];
  subscriptions = record { event = "tags/renamed"; handle = λ n w. (n + w, true) } ∷ [];
  commands = export_notes ∷ [];
  credentials = false;
  identities = false;
  entity_permissions = false;
}

abbrev notes_definition : CubeDefinition ℕ ℕ
notes_definition = record { manifest = notes; created = some notes_parts }

notes_AreLoaded : AreLoaded (notes_definition ∷ [])
notes_AreLoaded m (inl e) = rw e ("notes", notes_valid)
notes_AreLoaded m (inr n) = absurd n

mount-MountEnds_example : MountEnds (notes_definition ∷ []) (mount (notes_definition ∷ []))
mount-MountEnds_example = mount-MountEnds (notes_definition ∷ []) notes_AreLoaded
