-- ===== src/Mounting/Manifest/Routes.antt =====
-- core/src/kernel/manifest-validation.ts, validateRoutes: what a cube that passes the gate
-- demands on each of its routes.
use qwbe.Prelude.{
  append-eq-nil, String, true, false, not, ◌≡◌, ◌⊎◌, refl, ◌||◌, Option, none, some, is_some, List,
  [], ◌∷◌, ◌==◌, or_else, subst, if◌then◌else◌, arith, eq_iff, IsIn, IsIn-find, Bool-cases, inl,
  inr,
}
use qwbe.Mounting.Names.{read_permission_of}
use qwbe.Mounting.Manifest.{
  Manifest, Group, Endpoint, Reason, full, declares, endpoint_of, lookup_route, declared_permission,
  behind_auth, declares_forbidden, permission_reasons, declared_reasons, declared_routes,
  undeclared_routes, list_reasons, validate_routes,
}

module _ (m : Manifest) (g : Group) where
  -- A route with a permission: the cube declares it, and the endpoint has the middleware and a 403.
  abbrev pub MeetsDemands : Endpoint → String → Type 0
  MeetsDemands e permission =
      (declares m permission ≡ true) × (behind_auth g e ≡ true) × (declares_forbidden e ≡ true)

  permission_reasons-eq-nil :
      (e : Endpoint) (permission : String) (rest : List Reason)
      → permission_reasons m g e permission rest ≡ []
      → MeetsDemands e permission × (rest ≡ [])
  unfolding permission_reasons
  permission_reasons-eq-nil e permission rest h = ground arith

  -- What the loop over the declared routes says of the first entry of a name.
  abbrev IsDeclaredWell : String → Endpoint → Option (Option String) → Type 0
  IsDeclaredWell name e none = Unit {0}
  IsDeclaredWell name e (some none) = (name == "list") ≡ false
  IsDeclaredWell name e (some (some permission)) = MeetsDemands e permission

  declared_reasons-eq-nil :
      (name : String) (e : Endpoint) (permission : Option String) (rest : List Reason)
      → declared_reasons m g name (some e) permission rest ≡ []
      → IsDeclaredWell name e (some permission)
  declared_reasons-eq-nil name e none rest h = ground arith
  declared_reasons-eq-nil name e (some permission) rest h =
      (permission_reasons-eq-nil e permission rest h).0

  declared_reasons-rest :
      (name : String) (found : Option Endpoint) (permission : Option String) (rest : List Reason)
      → declared_reasons m g name found permission rest ≡ []
      → rest ≡ []
  declared_reasons-rest name none permission rest h = absurd (cc)
  declared_reasons-rest name (some e) none rest h = ground arith
  declared_reasons-rest name (some e) (some permission) rest h =
      (permission_reasons-eq-nil e permission rest h).1

  declared_routes-lookup :
      (routes : List (String × Option String)) (name : String) (e : Endpoint)
      → endpoint_of g name ≡ some e
      → declared_routes m g routes ≡ []
      → IsDeclaredWell name e (lookup_route routes name)
  unfolding declared_routes lookup_route
  declared_routes-lookup [] name e f h = tt
  declared_routes-lookup ((key, permission) ∷ routes) name e f h = elim (Bool-cases (key == name)) [
    | inl same ↦
        let k : key ≡ name = (eq_iff key name).0 same in
        rw same (
          declared_reasons-eq-nil name e permission (declared_routes m g routes)
            (rw f at (rw k at h)))
    | inr other ↦ rw other (
        declared_routes-lookup routes name e f
          (declared_reasons-rest key (endpoint_of g key) permission (declared_routes m g routes) h))
  ]

  undeclared_routes-IsIn :
      (es : List Endpoint) (e : Endpoint)
      → IsIn e es
      → undeclared_routes m g es ≡ []
      → (is_some (lookup_route m.routes e.name) || (e.name == "list" || not (behind_auth g e)))
        ≡ true
  unfolding undeclared_routes
  undeclared_routes-IsIn [] e i h = absurd i
  undeclared_routes-IsIn (x ∷ es) e (inl same) h = rw same (ground arith)
  undeclared_routes-IsIn (x ∷ es) e (inr i) h = undeclared_routes-IsIn es e i (ground arith)

  -- A route demands a permission that the cube declares, behind the middleware and with a 403; or
  -- it needs no token; or it is declared to decide for itself, and is not `list`.
  abbrev pub IsGuarded : Endpoint → Option (Option String) → Option String → Type 0
  IsGuarded e declared (some permission) = MeetsDemands e permission
  IsGuarded e declared none =
      (behind_auth g e ≡ false) ⊎ ((declared ≡ some none) × ((e.name == "list") ≡ false))

  served_list :
      (e : Endpoint)
      → endpoint_of g e.name ≡ some e
      → (e.name == "list") ≡ true
      → list_reasons m g (endpoint_of g "list") none ≡ []
      → MeetsDemands e (read_permission_of (full m))
  served_list e f l h =
      let k : e.name ≡ "list" = (eq_iff e.name "list").0 l in
      let f' : endpoint_of g "list" ≡ some e = subst (λ n. endpoint_of g n ≡ some e) k f in
      (permission_reasons-eq-nil e (read_permission_of (full m)) [] (rw f' at h)).0

  guarded :
      (e : Endpoint) (declared : Option (Option String))
      → endpoint_of g e.name ≡ some e
      → IsDeclaredWell e.name e declared
      → (is_some declared || (e.name == "list" || not (behind_auth g e))) ≡ true
      → ((e.name == "list") ≡ true → declared ≡ none → MeetsDemands e (read_permission_of (full m)))
      → IsGuarded e declared
          (or_else declared (if e.name == "list" then some (read_permission_of (full m)) else none))
  guarded e (some (some permission)) f w u l = w
  guarded e (some none) f w u l = inr (refl, w)
  guarded e none f w u l = elim (Bool-cases (e.name == "list")) [
    | inl list ↦ rw list (l list refl)
    | inr other ↦ rw other (inl (ground (arith, other)))
  ]

  -- Where `validateRoutes` finds no fault: an endpoint whose permission is declared, or follows by
  -- convention since it is `list`, has one that the cube itself declares, the Authorization
  -- middleware and a 403 in its contract; and an endpoint behind the middleware without a
  -- permission is declared to decide for itself, and is not `list`.
  pub validate_routes-IsGuarded :
      (e : Endpoint)
      → endpoint_of g e.name ≡ some e
      → validate_routes m g ≡ []
      → IsGuarded e (lookup_route m.routes e.name) (declared_permission m.routes (full m) e.name)
  unfolding validate_routes declared_permission
  validate_routes-IsGuarded e f h =
      let (declared, rest) = append-eq-nil (declared_routes m g m.routes) _ h in
      let (undeclared, list) = append-eq-nil (undeclared_routes m g g.endpoints) _ rest in
      let (i, k) = IsIn-find (λ (x : Endpoint). x.name == e.name) g.endpoints e f in
      guarded e (lookup_route m.routes e.name) f
        (declared_routes-lookup m.routes e.name e f declared)
        (undeclared_routes-IsIn g.endpoints e i undeclared)
        (λ l n. served_list e f l (
          subst (λ o. list_reasons m g (endpoint_of g "list") o ≡ [])
            (subst (λ s. lookup_route m.routes s ≡ none) ((eq_iff e.name "list").0 l) n) list))
