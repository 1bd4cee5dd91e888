-- ===== src/Mounting/Mount/Cubes.antt =====
-- core/src/kernel/discovery.ts, mount: one more cube keeps a system sound.
use qwbe.Prelude.{
  append-eq-nil, String, true, ◌≡◌, refl, ap, ◌⊎◌, inl, inr, none, List, [], ◌∷◌, ◌++◌, arith, map,
  IsIn, IsIn-append,
}
use qwbe.Mounting.Bus.{Bus, Subscriber, subscribe}
use qwbe.Mounting.Manifest.{
  has_prefix, Manifest, CommandSpec, full, declares, validate_commands, validate_routes,
  repeated_commands, bad_commands,
}
use qwbe.Mounting.Manifest.Owners.{bad_commands-IsIn}
use qwbe.Mounting.Routes.{MountedCube}
use qwbe.Mounting.Mount.{
  Subscription, subscribe_all, CubeParts, System, check_parts, with_cube, nothing_mounted,
  validate_cube_parts,
}

IsIn-before : {A : Type 0} (x : A) (xs ys : List A) → IsIn x xs → IsIn x (xs ++ ys)
IsIn-before x [] ys i = absurd i
IsIn-before x (y ∷ xs) ys (inl e) = inl e
IsIn-before x (y ∷ xs) ys (inr i) = inr (IsIn-before x xs ys i)

IsIn-behind : {A : Type 0} (x : A) (xs ys : List A) → IsIn x ys → IsIn x (xs ++ ys)
IsIn-behind x [] ys i = i
IsIn-behind x (y ∷ xs) ys i = inr (IsIn-behind x xs ys i)

abbrev pub manifests : List MountedCube → List Manifest
manifests cubes = map (λ (c : MountedCube). c.manifest) cubes

pub manifests-nil : (cubes : List MountedCube) → manifests cubes ≡ manifests cubes ++ []
manifests-nil [] = refl
manifests-nil (c ∷ cubes) = ap (λ ms. c.manifest ∷ ms) (manifests-nil cubes)

pub manifests-behind :
    (cubes : List MountedCube) (new : MountedCube) (ms : List Manifest)
    → manifests (cubes ++ new ∷ []) ++ ms ≡ manifests cubes ++ new.manifest ∷ ms
manifests-behind [] new ms = refl
manifests-behind (c ∷ cubes) new ms = ap (λ ns. c.manifest ∷ ns) (manifests-behind cubes new ms)

pub IsIn-manifests :
    (c : MountedCube) (cubes : List MountedCube) → IsIn c cubes → IsIn c.manifest (manifests cubes)
IsIn-manifests c [] i = absurd i
IsIn-manifests c (x ∷ cubes) (inl e) = inl (ap (λ (y : MountedCube). y.manifest) e)
IsIn-manifests c (x ∷ cubes) (inr i) = inr (IsIn-manifests c cubes i)

module _ {P W : Type 0} where
  -- The gates let the cube pass: its handlers, its surface, its commands and its routes.
  abbrev pub Passes : Manifest → CubeParts P W → Type 0
  Passes m p =
      (validate_cube_parts p.group p.handlers ≡ none)
      × (validate_commands m p.commands ≡ [])
      × (validate_routes m p.group ≡ [])

  pub check_parts-Passes : (m : Manifest) (p : CubeParts P W) → check_parts m p ≡ none → Passes m p
  unfolding check_parts
  check_parts-Passes m p h = ground (arith, h)

  -- Each cube passed the gate of the routes and has its full name; each command and each
  -- subscription is of one of the cubes, and a command demands a permission of that cube.
  abbrev pub IsSound : System P W → Type 0
  IsSound sys =
      ((c : MountedCube)
        → IsIn c sys.cubes
        → (validate_routes c.manifest c.group ≡ []) × (c.name ≡ full c.manifest))
      × ((k : CommandSpec)
          → IsIn k sys.commands
          → (c : MountedCube) × IsIn c sys.cubes
            × (has_prefix (full c.manifest) k.name ≡ true)
            × (declares c.manifest k.permission ≡ true))
      × ((s : Subscriber P W)
          → IsIn s sys.bus.subscriptions
          → (c : MountedCube) × IsIn c sys.cubes × (s.cube ≡ c.name))

  subscribe_all-IsIn :
      (cube : String) (xs : List (Subscription P W)) (b : Bus P W) (s : Subscriber P W)
      → IsIn s (subscribe_all cube xs b).subscriptions
      → IsIn s b.subscriptions ⊎ (s.cube ≡ cube)
  unfolding subscribe_all
  subscribe_all-IsIn cube [] b s i = inl i
  subscribe_all-IsIn cube (x ∷ xs) b s i =
      let added : Subscriber P W = record { cube = cube; event = x.event; handle = x.handle } in
      elim (subscribe_all-IsIn cube xs (subscribe added b) s i) [
        | inr own ↦ inr own
        | inl before ↦ elim (IsIn-append s b.subscriptions (added ∷ []) before) [
          | inl old ↦ inl old
          | inr (inl same) ↦ inr (ap (λ (y : Subscriber P W). y.cube) same)
          | inr (inr n) ↦ absurd n
        ]
      ]

  subscribe_all-sealed :
      (cube : String) (xs : List (Subscription P W)) (b : Bus P W)
      → (subscribe_all cube xs b).sealed ≡ b.sealed
  unfolding subscribe_all
  subscribe_all-sealed cube [] b = refl
  subscribe_all-sealed cube (x ∷ xs) b =
      subscribe_all-sealed cube xs
        (subscribe (record { cube = cube; event = x.event; handle = x.handle }) b)

  pub nothing-IsSound : IsSound nothing_mounted
  nothing-IsSound = (λ c i. absurd i, λ k i. absurd i, λ s i. absurd i)

  pub with_cube-IsSound :
      (m : Manifest) (p : CubeParts P W) (sys : System P W)
      → Passes m p
      → IsSound sys
      → IsSound (with_cube m p sys)
  unfolding validate_commands
  with_cube-IsSound m p sys (handled, commands, routes) (cs, ks, ss) =
      let new : MountedCube = record { manifest = m; name = full m; group = p.group } in
      let last : IsIn new (sys.cubes ++ new ∷ []) =
        IsIn-behind new sys.cubes (new ∷ []) (inl refl) in
      let bad =
        (append-eq-nil (repeated_commands [] p.commands) (bad_commands m p.commands) commands).1 in
      (
        λ c i. elim (IsIn-append c sys.cubes (new ∷ []) i) [
          | inl old ↦ cs c old
          | inr (inl same) ↦ rw same (routes, refl)
          | inr (inr n) ↦ absurd n
        ],
        λ k i. elim (IsIn-append k sys.commands p.commands i) [
          | inl old ↦
              let (c, j, named, declared) = ks k old in
              (c, IsIn-before c sys.cubes (new ∷ []) j, named, declared)
          | inr own ↦
              let (named, declared) = bad_commands-IsIn m p.commands k bad own in
              (new, last, named, declared)
        ],
        λ s i. elim (subscribe_all-IsIn (full m) p.subscriptions sys.bus s i) [
          | inl old ↦ let (c, j, e) = ss s old in (c, IsIn-before c sys.cubes (new ∷ []) j, e)
          | inr own ↦ (new, last, own)
        ],
      )
