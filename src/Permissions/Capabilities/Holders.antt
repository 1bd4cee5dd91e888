-- ===== src/Permissions/Capabilities/Holders.antt =====
-- Which capabilities a user holds.
use qwbe.Prelude.{
  String, Bool, ◌≡◌, ap, ◌∙◌, ◌&&◌, none, List, [], ◌∷◌, arith, ◌==◌, any, filter, map, contains,
  contains-map, any-filter,
}
use mathlib.Core.Path.{fun_ext}
use qwbe.Kernel.Platform.{Platform}
use qwbe.Kernel.Where.{matches, full, set_sql, list_where, no_groups, no_not}
use qwbe.Kernel.Table.{Row, view, rows_where, is_live}
use qwbe.Kernel.ListQuery.{distinct}
use qwbe.Kernel.ListQuery.Names.{contains-sort_names, contains-distinct, contains-filter}
use qwbe.Permissions.State.{State, Capability, capability_fields}
use qwbe.Permissions.Capabilities.{capabilities_for, keys_of, live_grants}

-- A live grant of the capability for one of the keys.
abbrev pub grants_to : List String → String → Row Capability → Bool
grants_to keys capability r =
    is_live r && (contains keys r.body.subject_key && r.body.capability == capability)

module _ (env : Platform) (declared : List String) (user_id capability : String) (s : State) where
  set_of_key :
      (keys : List String) (r : Row Capability)
      → matches env
          (full (list_where [] none (("subjectKey", keys) ∷ []) none none no_groups no_not))
          (view capability_fields r)
        ≡ (is_live r && contains keys r.body.subject_key)
  unfolding matches set_sql
  set_of_key [] r = ground arith
  set_of_key (k ∷ keys) r = ground arith

  abbrev given : List String → Row Capability → Bool
  given keys r =
      matches env (full (list_where [] none (("subjectKey", keys) ∷ []) none none no_groups no_not))
        (view capability_fields r)

  to_keys :
      (keys : List String) (r : Row Capability)
      → (given keys r && (is_live r && r.body.capability == capability))
        ≡ grants_to keys capability r
  to_keys keys r = ground (arith, set_of_key keys r)

  -- What `capabilitiesFor` reports: a capability exactly when a mounted cube declares it and a live
  -- grant gives it to the user or to one of the user's groups.
  pub contains-capabilities_for : contains (capabilities_for env declared user_id s) capability ≡ (
      contains declared capability
      && any (grants_to (keys_of env declared user_id s) capability) s.capabilities)
  unfolding capabilities_for rows_where
  contains-capabilities_for =
      let keys = keys_of env declared user_id s in
      let granted = live_grants env declared keys s in
      let capability_of = λ (r : Row Capability). r.body.capability in
      let wanted = λ (r : Row Capability). capability_of r == capability in
      let names = filter (contains declared) (map capability_of granted) in
      contains-sort_names (distinct [] names) capability
      ∙ contains-distinct [] names capability
      ∙ ground (
        arith,
        contains-filter (contains declared) (map capability_of granted) capability,
        contains-map capability_of granted capability
            ∙ any-filter is_live wanted (filter (given keys) s.capabilities)
            ∙ any-filter (given keys) (λ r. is_live r && wanted r) s.capabilities
            ∙ ap (λ (p : Row Capability → Bool). any p s.capabilities) (fun_ext (to_keys keys)),
      )
