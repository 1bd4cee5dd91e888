-- ===== src/Mounting/Mount/Sound.antt =====
-- core/src/kernel/discovery.ts, mount: what holds of a system that was mounted.
use qwbe.Prelude.{
  String, true, ◌≡◌, refl, sym, subst, ◌∙◌, ◌⊎◌, inl, inr, Option, none, some, List, [], ◌∷◌, ◌++◌,
  IsIn, Option-cases,
}
use qwbe.Mounting.Names.{command_owner}
use qwbe.Mounting.Bus.{Subscriber}
use qwbe.Mounting.Manifest.{
  Manifest, CommandSpec, full, declares, validate_manifest, validate_routes,
}
use qwbe.Mounting.Manifest.Owners.{
  command_owner-has_prefix, full_name-lacks, validate_manifest-eq-nil,
}
use qwbe.Mounting.Routes.{MountedCube}
use qwbe.Mounting.Mount.{
  not_created, CubeParts, CubeDefinition, Refused, System, Mounted, mounted, stopped, check_parts,
  check_manifests, with_cube, after_check, after_create, mount_all, nothing_mounted, mount,
  manifests_of,
}
use qwbe.Mounting.Mount.Cubes.{
  IsSound, manifests, manifests-nil, manifests-behind, IsIn-manifests, check_parts-Passes,
  nothing-IsSound, with_cube-IsSound,
}

module _ {P W : Type 0} where
  -- The cube creates nothing, or its parts do not pass.
  abbrev pub Fails : CubeDefinition P W → Refused → Type 0
  Fails d r =
      ((d.created ≡ none) × (r ≡ not_created (full d.manifest)))
      ⊎ ((p : CubeParts P W) × (d.created ≡ some p) × (check_parts d.manifest p ≡ some r))

  -- The result of the loop: a cube that fails, or, where it mounts: sound, sealed, and with the cubes of all definitions.
  abbrev LoopEnds : List (CubeDefinition P W) → List Manifest → Mounted P W → Type 0
  LoopEnds ds all_manifests (stopped r) = (d : CubeDefinition P W) × IsIn d ds × Fails d r
  LoopEnds ds all_manifests (mounted sys) =
      IsSound sys × (sys.bus.sealed ≡ true) × (manifests sys.cubes ≡ all_manifests)

  LoopEnds-later :
      (d : CubeDefinition P W) (ds : List (CubeDefinition P W)) (ms : List Manifest)
      (r : Mounted P W)
      → LoopEnds ds ms r
      → LoopEnds (d ∷ ds) ms r
  LoopEnds-later d ds ms (stopped r) (c, i, f) = (c, inr i, f)
  LoopEnds-later d ds ms (mounted sys) h = h

  -- one round of the loop, where what follows is known
  module _ (d : CubeDefinition P W) (ds : List (CubeDefinition P W)) (sys : System P W)
      (sound : IsSound sys)
      (rest : (sys' : System P W)
        → IsSound sys'
        → LoopEnds ds (manifests sys'.cubes ++ manifests_of ds) (mount_all ds sys')) where
    after_check-LoopEnds :
        (p : CubeParts P W) (o : Option Refused)
        → d.created ≡ some p
        → check_parts d.manifest p ≡ o
        → LoopEnds
            (d ∷ ds)
            (manifests sys.cubes ++ manifests_of (d ∷ ds))
            (after_check o (mount_all ds) d.manifest p sys)
    after_check-LoopEnds p (some r) e h = (d, inl refl, inr (p, e, h))
    after_check-LoopEnds p none e h =
        let sys' = with_cube d.manifest p sys in
        LoopEnds-later d ds (manifests sys.cubes ++ manifests_of (d ∷ ds)) (mount_all ds sys') (
          subst (λ ms. LoopEnds ds ms (mount_all ds sys'))
            (manifests-behind sys.cubes
              (record { manifest = d.manifest; name = full d.manifest; group = p.group })
              (manifests_of ds))
            (rest sys'
              (with_cube-IsSound d.manifest p sys (check_parts-Passes d.manifest p h) sound)))

    after_create-LoopEnds :
        (o : Option (CubeParts P W))
        → d.created ≡ o
        → LoopEnds
            (d ∷ ds)
            (manifests sys.cubes ++ manifests_of (d ∷ ds))
            (after_create o (mount_all ds) d.manifest sys)
    after_create-LoopEnds none e = (d, inl refl, inl (e, refl))
    after_create-LoopEnds (some p) e = after_check-LoopEnds p (check_parts d.manifest p) e refl

  mount_all-LoopEnds :
      (ds : List (CubeDefinition P W)) (sys : System P W)
      → IsSound sys
      → LoopEnds ds (manifests sys.cubes ++ manifests_of ds) (mount_all ds sys)
  unfolding mount_all
  mount_all-LoopEnds [] sys h = (h, refl, manifests-nil sys.cubes)
  mount_all-LoopEnds (d ∷ ds) sys h =
      after_create-LoopEnds d ds sys h (mount_all-LoopEnds ds) d.created refl

  -- Every cube was loaded from a directory that its manifest fits.
  abbrev pub AreLoaded : List (CubeDefinition P W) → Type 0
  AreLoaded ds =
      (m : Manifest)
      → IsIn m (manifests_of ds)
      → (directory : String) × (validate_manifest directory m ≡ [])

  -- A mount is stopped by the manifests together or by one cube. A mounted system is: the cubes of all definitions, in order, each of which passed the gate of the
  -- routes, on a bus that is sealed; a command is of the cube that its name is split to, and demands a
  -- permission which that cube declares.
  abbrev pub MountEnds : List (CubeDefinition P W) → Mounted P W → Type 0
  MountEnds ds (stopped r) =
      (check_manifests (manifests_of ds) ≡ some r)
      ⊎ ((d : CubeDefinition P W) × IsIn d ds × Fails d r)
  MountEnds ds (mounted sys) =
      (manifests sys.cubes ≡ manifests_of ds)
      × (sys.bus.sealed ≡ true)
      × ((c : MountedCube)
          → IsIn c sys.cubes
          → (validate_routes c.manifest c.group ≡ []) × (c.name ≡ full c.manifest))
      × ((k : CommandSpec)
          → IsIn k sys.commands
          → (c : MountedCube) × IsIn c sys.cubes
            × (command_owner k.name ≡ c.name)
            × (declares c.manifest k.permission ≡ true))
      × ((s : Subscriber P W)
          → IsIn s sys.bus.subscriptions
          → (c : MountedCube) × IsIn c sys.cubes × (s.cube ≡ c.name))

  sound-MountEnds :
      (ds : List (CubeDefinition P W)) (r : Mounted P W)
      → AreLoaded ds
      → LoopEnds ds (manifests_of ds) r
      → MountEnds ds r
  sound-MountEnds ds (stopped r) loaded h = inr h
  sound-MountEnds ds (mounted sys) loaded ((cs, ks, ss), sealed, whole) = (
    whole,
    sealed,
    cs,
    λ k i.
        let (c, j, named, declared) = ks k i in
        let (directory, valid) =
          loaded c.manifest (subst (IsIn c.manifest) whole (IsIn-manifests c sys.cubes j)) in
        let (slug, parent, rest) = validate_manifest-eq-nil directory c.manifest valid in
        (
          c,
          j,
          command_owner-has_prefix (full c.manifest) k.name
                (full_name-lacks c.manifest.name c.manifest.parent slug parent) named
              ∙ sym (cs c j).1,
          declared,
        ),
    ss,
  )

  -- Where every cube was loaded from a directory that its manifest fits: `mount` stops only at manifests
  -- that do not stand together or at a cube that fails its own checks; what it brings up has the cubes of all
  -- definitions in order, each past the gate of the routes, a sealed bus, and commands and subscriptions
  -- of mounted cubes only, where a command is of the cube that its name is split to and demands a
  -- permission of that cube.
  pub mount-MountEnds : (ds : List (CubeDefinition P W)) → AreLoaded ds → MountEnds ds (mount ds)
  unfolding mount
  mount-MountEnds ds loaded = elim (Option-cases (check_manifests (manifests_of ds))) [
    | inr (r, bad) ↦ rw bad (inl bad)
    | inl fine ↦ rw fine (
        sound-MountEnds ds (mount_all ds nothing_mounted) loaded
          (mount_all-LoopEnds ds nothing_mounted nothing-IsSound))
  ]
