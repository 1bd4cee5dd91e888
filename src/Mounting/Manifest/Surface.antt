-- ===== src/Mounting/Manifest/Surface.antt =====
-- core/src/agent-contracts.ts, core/src/kernel/manifest-validation.ts: the routes that a cube with an
-- agent serves.
use Prim.Native.String
use qwbe.Prelude.{
  String, Bool, true, false, not, ◌&&◌, ◌||◌, Option, none, some, List, [], ◌∷◌, ◌==◌, any, all,
  filter, ltb, length, if◌then◌else◌, ◌≡◌, refl, ◌∙◌, inl, inr, Bool-cases, arith, is_some,
}
use qwbe.Mounting.Names.{path_prefix, dash_form}
use qwbe.Mounting.Manifest.{Manifest, Endpoint, Group}

-- a route of the surface
pub record SurfaceRoute : Type 0 where
  pub method : String
  pub suffix : String

-- `AGENT_SURFACE`
abbrev pub agent_surface : List SurfaceRoute
agent_surface =
    record { method = "GET"; suffix = "health" }
    ∷ record { method = "GET"; suffix = "context" }
    ∷ record { method = "POST"; suffix = "goals" }
    ∷ record { method = "GET"; suffix = "trace" }
    ∷ []

-- `text.endsWith(suffix)`
unfoldable pub ends_with : String → String → Bool
ends_with suffix String.[] = suffix == ""
ends_with suffix (String.◌∷◌ c s) = suffix == String.◌∷◌ c s || ends_with suffix s

abbrev is_prefix : String → Option String → Bool
is_prefix prefix none = false
is_prefix prefix (some p) = p == prefix

-- Some endpoint serves the route under the prefix.
unfoldable pub serves_route : List Endpoint → String → SurfaceRoute → Bool
unfolding ends_with
serves_route endpoints prefix r =
    any
      (λ (e : Endpoint).
        e.method == r.method
        && (is_prefix prefix (path_prefix e.path) && ends_with (String.◌++◌ "/" r.suffix) e.path))
      endpoints

-- what an entry of `missingByPrefix` lists
unfoldable pub missing_under : List Endpoint → String → List SurfaceRoute
unfolding serves_route
missing_under endpoints prefix = filter (λ r. not (serves_route endpoints prefix r)) agent_surface

-- the selected prefix and what it misses: the second one only where it misses less
unfoldable pub best_prefix : String → Manifest → List Endpoint → String × List SurfaceRoute
unfolding missing_under
best_prefix cube m endpoints =
    let own = missing_under endpoints m.name in
    let dashed = missing_under endpoints (dash_form cube) in
    if ltb (length dashed) (length own) then (dash_form cube, dashed) else (m.name, own)

abbrev refusal : String × List SurfaceRoute → Option (String × List SurfaceRoute)
refusal (prefix, []) = none
refusal (prefix, r ∷ missing) = some (prefix, r ∷ missing)

-- `validateAgentSurface`: none where it does not throw
unfoldable pub validate_agent_surface :
    String → Manifest → Group → Option (String × List SurfaceRoute)
unfolding best_prefix
validate_agent_surface cube m group =
    if m.agent then refusal (best_prefix cube m group.endpoints) else none

-- The whole surface is served under the prefix.
abbrev pub is_served : List Endpoint → String → Bool
is_served endpoints prefix = all (serves_route endpoints prefix) agent_surface

abbrev pub serves_surface : String → Manifest → Group → Bool
serves_surface cube m group =
    is_served group.endpoints m.name || is_served group.endpoints (dash_form cube)

-- What passing and failing mean.
abbrev pub SurfaceEnds : String → Manifest → Group → Option (String × List SurfaceRoute) → Type 0
SurfaceEnds cube m group none = (not m.agent || serves_surface cube m group) ≡ true
SurfaceEnds cube m group (some _) = (m.agent ≡ true) × (serves_surface cube m group ≡ false)

abbrev is_nil : List SurfaceRoute → Bool
is_nil [] = true
is_nil (r ∷ rs) = false

is_nil-filter :
    (p : SurfaceRoute → Bool) (rs : List SurfaceRoute)
    → is_nil (filter (λ r. not (p r)) rs) ≡ all p rs
is_nil-filter p [] = refl
is_nil-filter p (r ∷ rs) = elim (Bool-cases (p r)) [
  | inl there ↦ rw there (is_nil-filter p rs)
  | inr absent ↦ rw absent refl
]

-- The better of two prefixes misses nothing exactly where one of them does.
is_some-refusal :
    (p q : String) (own dashed : List SurfaceRoute)
    → is_some (refusal (if ltb (length dashed) (length own) then (q, dashed) else (p, own)))
      ≡ not (is_nil own || is_nil dashed)
is_some-refusal p q [] [] = refl
is_some-refusal p q [] (d ∷ dashed) = ground arith
is_some-refusal p q (r ∷ own) [] = ground arith
is_some-refusal p q (r ∷ own) (d ∷ dashed) =
    elim (Bool-cases (ltb (length (d ∷ dashed)) (length (r ∷ own)))) [
      | inl less ↦ rw less refl
      | inr more ↦ rw more refl
    ]

is_some-best_prefix :
    (cube : String) (m : Manifest) (group : Group)
    → is_some (refusal (best_prefix cube m group.endpoints)) ≡ not (serves_surface cube m group)
unfolding best_prefix missing_under
is_some-best_prefix cube m group =
    is_some-refusal m.name (dash_form cube) (missing_under group.endpoints m.name)
      (missing_under group.endpoints (dash_form cube))
    ∙ ground (
      arith,
      is_nil-filter (serves_route group.endpoints m.name) agent_surface,
      is_nil-filter (serves_route group.endpoints (dash_form cube)) agent_surface,
    )

checked-SurfaceEnds :
    (cube : String) (m : Manifest) (group : Group) (agent : Bool)
    (found : Option (String × List SurfaceRoute))
    → m.agent ≡ agent
    → is_some found ≡ not (serves_surface cube m group)
    → SurfaceEnds cube m group (if agent then found else none)
checked-SurfaceEnds cube m group false found a h = ground (arith, a)
checked-SurfaceEnds cube m group true none a h = ground (arith, a, h)
checked-SurfaceEnds cube m group true (some r) a h = (a, ground (arith, h))

-- A cube that declares an agent passes exactly if one of its two prefixes, its name and its dash form,
-- serves all four routes of the surface; every other cube passes.
pub validate_agent_surface-SurfaceEnds :
    (cube : String) (m : Manifest) (group : Group)
    → SurfaceEnds cube m group (validate_agent_surface cube m group)
unfolding validate_agent_surface
validate_agent_surface-SurfaceEnds cube m group =
    checked-SurfaceEnds cube m group m.agent (refusal (best_prefix cube m group.endpoints)) refl
      (is_some-best_prefix cube m group)
