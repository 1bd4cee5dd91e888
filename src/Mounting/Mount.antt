-- ===== src/Mounting/Mount.antt =====
-- core/src/kernel/discovery.ts, core/src/cube-contract.ts, core/src/capability-runtime.ts: the mount of
-- all cubes. What a cube creates, with the wrappers of its handlers, is a part of its definition
-- here, and nothing where its create throws.
pub mod Cubes
pub mod Sound
use qwbe.Prelude.{
  String, Bool, true, false, not, ◌&&◌, Option, none, some, List, [], ◌∷◌, ◌++◌, ◌==◌, filter, map,
  contains, if◌then◌else◌,
}
use qwbe.Mounting.Manifest.{
  Manifest, Flag, bool, other, Group, Endpoint, CommandSpec, Reason, full, validate_commands,
  validate_routes,
}
use qwbe.Mounting.Manifest.Surface.{validate_agent_surface, SurfaceRoute}
use qwbe.Mounting.Routes.{
  MountedCube, MountError, check_unique_tables, single_holder_of, double_privilege,
}
use qwbe.Mounting.Bus.{Bus, Subscriber, seal, subscribe}

-- A subscription: the event, and what the listener does.
pub record Subscription (P W : Type 0) : Type 0 where
  pub event : String
  pub handle : P → W → W × Bool

-- `CubeParts`; a handler has a name and is a function or not, and of a provided service only counts
-- whether it is there.
pub record CubeParts (P W : Type 0) : Type 0 where
  pub group : Group
  pub handlers : List (String × Bool)
  pub subscriptions : List (Subscription P W)
  pub commands : List CommandSpec
  pub credentials : Bool
  pub identities : Bool
  pub entity_permissions : Bool

pub record CubeDefinition (P W : Type 0) : Type 0 where
  pub manifest : Manifest
  pub created : Option (CubeParts P W)

pub data Refused : Type 0 where
  unfit : MountError → Refused
  double_capability : List String → Refused
  not_created : String → Refused
  invalid_contract : List String → List String → List String → Refused
  no_surface : String → List SurfaceRoute → Refused
  returned_none : String → Refused
  invalid_manifest : List Reason → Refused

-- the names that `names` lacks
abbrev absent_from : List String → List String → List String
absent_from names = filter (λ n. not (contains names n))

abbrev handler_names : List (String × Bool) → List String
handler_names handlers = map (λ (h : String × Bool). h.0) handlers

abbrev endpoint_names : Group → List String
endpoint_names g = map (λ (e : Endpoint). e.name) g.endpoints

abbrev contract_error : List String → List String → List String → Option Refused
contract_error [] [] [] = none
contract_error [] [] (i ∷ invalid) = some (invalid_contract [] [] (i ∷ invalid))
contract_error [] (e ∷ extra) invalid = some (invalid_contract [] (e ∷ extra) invalid)
contract_error (m ∷ missing) extra invalid = some (invalid_contract (m ∷ missing) extra invalid)

-- `validateCubeParts`, of parts that are typed
unfoldable pub validate_cube_parts : Group → List (String × Bool) → Option Refused
validate_cube_parts g handlers =
    contract_error (absent_from (handler_names handlers) (endpoint_names g))
      (absent_from (endpoint_names g) (handler_names handlers))
      (handler_names (filter (λ (h : String × Bool). not h.1) handlers))

abbrev surface_error : Option (String × List SurfaceRoute) → Option Refused
surface_error none = none
surface_error (some (prefix, missing)) = some (no_surface prefix missing)

abbrev reasons_error : List Reason → Option Refused
reasons_error [] = none
reasons_error (r ∷ rs) = some (invalid_manifest (r ∷ rs))

abbrev provides_error : Bool → Bool → String → Option Refused
provides_error declared given cube =
    if declared && not given then some (returned_none cube) else none

-- the first refusal of two checks
abbrev pub first_of : Option Refused → Option Refused → Option Refused
first_of none later = later
first_of (some r) later = some r

-- what `capabilityRuntime` and the runners of commands demand: one cube at most with the flag
abbrev capability_error : List String → Option Refused
capability_error (a ∷ b ∷ rest) = some (double_capability (a ∷ b ∷ rest))
capability_error (a ∷ []) = none
capability_error [] = none

abbrev holders : (Manifest → Bool) → List Manifest → List String
holders flag manifests = map full (filter flag manifests)

abbrev unfit_error : Option MountError → Option Refused
unfit_error none = none
unfit_error (some e) = some (unfit e)

abbrev is_flagged : Option Flag → Bool
is_flagged none = false
is_flagged (some (bool b)) = b
is_flagged (some other) = true

-- the checks before the first cube is created
unfoldable pub check_manifests : List Manifest → Option Refused
unfolding check_unique_tables single_holder_of
check_manifests ms = first_of (unfit_error (check_unique_tables ms)) (
    first_of (capability_error (holders (λ m. m.runs_commands) ms)) (
      first_of (unfit_error (single_holder_of (λ m. m.manages_cubes) ms)) (
        first_of (unfit_error (single_holder_of (λ m. m.provides_custom_fields) ms)) (
          first_of (unfit_error (single_holder_of (λ m. is_flagged m.reads_activity) ms)) (
            first_of (capability_error (holders (λ m. m.provides_credentials) ms)) (
              first_of (capability_error (holders (λ m. m.uses_credentials) ms)) (
                first_of (capability_error (holders (λ m. m.provides_identity_directory) ms))
                  (capability_error (holders (λ m. m.provides_entity_permissions) ms)))))))))

-- `MountedSystem`: the cubes, the commands of all, and the bus
pub record System (P W : Type 0) : Type 0 where
  pub cubes : List MountedCube
  pub commands : List CommandSpec
  pub bus : Bus P W

pub data Mounted (P W : Type 0) : Type 0 where
  mounted : System P W → Mounted P W
  stopped : Refused → Mounted P W

module _ {P W : Type 0} where
  -- the checks of the parts of one cube, in their order
  unfoldable pub check_parts : Manifest → CubeParts P W → Option Refused
  unfolding validate_cube_parts validate_agent_surface validate_commands validate_routes
  check_parts m p = first_of (validate_cube_parts p.group p.handlers) (
      first_of (surface_error (validate_agent_surface (full m) m p.group)) (
        first_of (provides_error m.provides_credentials p.credentials (full m)) (
          first_of (provides_error m.provides_identity_directory p.identities (full m)) (
            first_of (provides_error m.provides_entity_permissions p.entity_permissions (full m)) (
              first_of (reasons_error (validate_commands m p.commands))
                (reasons_error (validate_routes m p.group)))))))

  unfoldable pub subscribe_all : String → List (Subscription P W) → Bus P W → Bus P W
  subscribe_all cube [] b = b
  subscribe_all cube (s ∷ rest) b =
      subscribe_all cube rest
        (subscribe (record { cube = cube; event = s.event; handle = s.handle }) b)

  abbrev pub with_cube : Manifest → CubeParts P W → System P W → System P W
  with_cube m p sys = record {
    cubes = sys.cubes ++ record { manifest = m; name = full m; group = p.group } ∷ [];
    commands = sys.commands ++ p.commands;
    bus = subscribe_all (full m) p.subscriptions sys.bus;
  }

  abbrev pub after_check :
      Option Refused
      → (System P W → Mounted P W)
      → Manifest
      → CubeParts P W
      → System P W
      → Mounted P W
  after_check (some r) next m p sys = stopped r
  after_check none next m p sys = next (with_cube m p sys)

  abbrev pub after_create :
      Option (CubeParts P W) → (System P W → Mounted P W) → Manifest → System P W → Mounted P W
  after_create none next m sys = stopped (not_created (full m))
  after_create (some p) next m sys = after_check (check_parts m p) next m p sys

  -- the loop over the definitions, and the seal behind it
  unfoldable pub mount_all : List (CubeDefinition P W) → System P W → Mounted P W
  unfolding check_parts subscribe_all
  mount_all [] sys = mounted (record sys { bus = seal sys.bus })
  mount_all (d ∷ ds) sys = after_create d.created (mount_all ds) d.manifest sys

  abbrev pub manifests_of : List (CubeDefinition P W) → List Manifest
  manifests_of ds = map (λ (d : CubeDefinition P W). d.manifest) ds

  abbrev pub nothing_mounted : System P W
  nothing_mounted = record {
    cubes = [];
    commands = [];
    bus = record { subscriptions = []; journal = []; sealed = false };
  }

  abbrev unless_refused : Option Refused → Mounted P W → Mounted P W
  unless_refused (some r) result = stopped r
  unless_refused none result = result

  -- `mount`
  unfoldable pub mount : List (CubeDefinition P W) → Mounted P W
  unfolding check_manifests mount_all
  mount ds = unless_refused (check_manifests (manifests_of ds)) (mount_all ds nothing_mounted)
