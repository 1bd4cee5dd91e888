-- ===== src/Mounting/Routes.antt =====
-- core/src/kernel/routes.ts, mount.ts, store.ts: what is checked of all cubes together before the
-- server starts, and which cube's switch rules a request.
pub mod Switching
pub mod Checks
use qwbe.Prelude.{
  or_this, String, Bool, true, false, not, ◌&&◌, ◌||◌, Option, none, some, or_else, is_some, List,
  [], ◌∷◌, ◌++◌, ◌==◌, any, filter, head, map, contains, split, if◌then◌else◌,
}
use qwbe.Mounting.Names.{dash_form, path_prefix}
use qwbe.Mounting.Manifest.{Manifest, Endpoint, Group, behind_auth, full}

-- `MountedCube`, without its parts that run
pub record MountedCube : Type 0 where
  pub manifest : Manifest
  pub name : String
  pub group : Group

pub data MountError : Type 0 where
  dead_cubes : List String → MountError
  public_endpoints : String → List String → MountError
  route_ownership : List (String × String) → MountError
  prefix_collision duplicate_group duplicate_table : String → MountError
  double_privilege : List String → MountError

abbrev first_path : List Endpoint → Option String
first_path [] = none
first_path (e ∷ es) = path_prefix e.path

-- `routePrefixOf`
unfoldable pub route_prefix_of : MountedCube → Option String
route_prefix_of c = first_path c.group.endpoints

-- `groupIdOf`
unfoldable pub group_id_of : MountedCube → String
group_id_of c = or_else c.group.identifier c.manifest.name

-- the prefix is not one of the two that the cube may serve under
abbrev pub is_foreign : MountedCube → Endpoint → Bool
is_foreign c e = not (
    or_else (path_prefix e.path) "" == c.manifest.name
    || or_else (path_prefix e.path) "" == dash_form c.name)

unfoldable pub foreign_paths : MountedCube → List Endpoint → List (String × String)
foreign_paths c [] = []
foreign_paths c (e ∷ es) =
    let rest = foreign_paths c es in if is_foreign c e then (c.name, e.path) ∷ rest else rest

unfoldable pub route_problems : List MountedCube → List (String × String)
unfolding foreign_paths
route_problems [] = []
route_problems (c ∷ cs) = foreign_paths c c.group.endpoints ++ route_problems cs

abbrev entry_for : Option String → String → List (String × String) → List (String × String)
entry_for none name rest = rest
entry_for (some prefix) name rest = (prefix, name) ∷ rest

-- the prefixes that are served, each with its cube
unfoldable pub served_prefixes : List MountedCube → List (String × String)
unfolding route_prefix_of
served_prefixes [] = []
served_prefixes (c ∷ cs) = entry_for (route_prefix_of c) c.name (served_prefixes cs)

-- the first key of a Map of lists that has more than one entry
unfoldable pub repeated : List String → Option String
repeated [] = none
repeated (x ∷ xs) = let rest = repeated xs in if contains xs x then some x else rest

abbrev pub keys : List (String × String) → List String
keys entries = map (λ (e : String × String). e.0) entries

abbrev group_error : Option String → Option MountError
group_error none = none
group_error (some id) = some (duplicate_group id)

abbrev prefix_error : Option String → Option MountError → Option MountError
prefix_error none rest = rest
prefix_error (some prefix) rest = some (prefix_collision prefix)

abbrev problem_error : List (String × String) → Option MountError → Option MountError
problem_error [] rest = rest
problem_error (p ∷ ps) rest = some (route_ownership (p ∷ ps))

-- `checkRouteOwnership`
unfoldable pub check_route_ownership : List MountedCube → Option MountError
unfolding route_problems served_prefixes repeated
check_route_ownership cubes = problem_error (route_problems cubes) (
    prefix_error (repeated (keys (served_prefixes cubes)))
      (group_error (repeated (map group_id_of cubes))))

-- `publicEndpoints`
unfoldable pub open_endpoints : MountedCube → List String
open_endpoints c =
    map (λ (e : Endpoint). e.name)
      (filter (λ (e : Endpoint). not (behind_auth c.group e)) c.group.endpoints)

abbrev public_error : String → List String → Option MountError → Option MountError
public_error name [] rest = rest
public_error name (e ∷ es) rest = some (public_endpoints name (e ∷ es))

unfoldable pub check_public : List MountedCube → Option MountError → Option MountError
unfolding open_endpoints
check_public [] last = last
check_public (c ∷ cs) last =
    let rest = check_public cs last in
    if c.manifest.name == "auth" then rest else public_error c.manifest.name (open_endpoints c) rest

-- the cubes that need authentication
abbrev pub needing_auth : List MountedCube → List String
needing_auth cubes =
    map (λ (c : MountedCube). c.manifest.name)
      (filter (λ (c : MountedCube). c.manifest.requires_auth) cubes)

abbrev dead_error : List String → Option MountError → Option MountError
dead_error [] rest = rest
dead_error (n ∷ ns) rest = some (dead_cubes (n ∷ ns))

abbrev pub has_auth : List MountedCube → Bool
has_auth cubes = any (λ (c : MountedCube). c.manifest.name == "auth") cubes

-- `checkCubes`, what is fatal of it
unfoldable pub check_cubes : List MountedCube → Option MountError
unfolding check_public check_route_ownership
check_cubes cubes =
    let rest = check_public cubes (check_route_ownership cubes) in
    if has_auth cubes then rest else dead_error (needing_auth cubes) rest

abbrev table_error : Option String → Option MountError
table_error none = none
table_error (some table) = some (duplicate_table table)

unfoldable pub all_tables : List Manifest → List String
all_tables [] = []
all_tables (m ∷ ms) = m.tables ++ all_tables ms

-- `checkUniqueTables`
unfoldable pub check_unique_tables : List Manifest → Option MountError
unfolding all_tables repeated
check_unique_tables manifests = table_error (repeated (all_tables manifests))

-- `singleHolderOf`: the holders of a flag, if there is one at most
abbrev one_at_most : List String → Option MountError
one_at_most (a ∷ b ∷ rest) = some (double_privilege (a ∷ b ∷ rest))
one_at_most (a ∷ []) = none
one_at_most [] = none

unfoldable pub single_holder_of : (Manifest → Bool) → List Manifest → Option MountError
single_holder_of flag manifests = one_at_most (map full (filter flag manifests))

-- the Map from prefixes to cubes
unfoldable pub owner_of : List (String × String) → String → Option String
owner_of [] prefix = none
owner_of ((p, name) ∷ rest) prefix =
    or_this (owner_of rest prefix) (if p == prefix then some name else none)

-- the first segment of a URL's path
unfoldable pub url_prefix : String → Option String
url_prefix url = path_prefix (or_else (head (split b'?' url)) "")

abbrev owner_at : List (String × String) → Option String → Option String
owner_at entries none = none
owner_at entries (some prefix) = owner_of entries prefix

-- `cubeOwner`
unfoldable pub cube_owner : List MountedCube → String → Option String
unfolding served_prefixes owner_of
cube_owner cubes url = owner_at (served_prefixes cubes) (url_prefix url)

abbrev pub is_off : (String → Bool) → Option String → Bool
is_off is_enabled none = false
is_off is_enabled (some cube) = not (cube == "") && not (is_enabled cube)

-- `rejectDisabled`: whether a request is answered with 404 before any handler
unfoldable pub reject_disabled : List MountedCube → (String → Bool) → String → Bool
unfolding cube_owner
reject_disabled cubes is_enabled url = is_off is_enabled (cube_owner cubes url)
