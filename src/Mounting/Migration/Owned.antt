-- ===== src/Mounting/Migration/Owned.antt =====
-- core/src/kernel/migrate-ownership.ts: whose data a package may move.
use qwbe.Prelude.{
  String, true, ◌≡◌, refl, ap, subst, ◌∙◌, ◌⊎◌, inl, inr, Option, none, some, List, [], ◌∷◌, arith,
  eq_iff, IsIn, IsIn-append,
}
use qwbe.Mounting.Migration.{
  DataMigration, Definition, ValidatedMigration, Refusal, Checked, ok, refused, same_plugin,
  last_of, mounted_in, legacy_authorized, is_authorized, faults, fault_of, kept, both,
  check_migrations, check_definitions, check_migration_ownership,
}

pub same_plugin-eq : (a b : Option String) → same_plugin a b ≡ true → a ≡ b
unfolding same_plugin
same_plugin-eq none none h = refl
same_plugin-eq (some a) (some b) h = ap some ((eq_iff a b).0 h)
same_plugin-eq none (some b) h = absurd (cc)
same_plugin-eq (some a) none h = absurd (cc)

is_authorized-eq :
    (legacy : Option (Option (Option String))) (claim : Option String)
    → is_authorized legacy claim ≡ true
    → legacy ≡ some (some claim)
unfolding is_authorized
is_authorized-eq none claim h = absurd (cc)
is_authorized-eq (some none) claim h = absurd (cc)
is_authorized-eq (some (some plugin)) claim h =
    ap (λ p. some (some p)) (same_plugin-eq plugin claim h)

faults-none :
    (plugin : Option String) (to source recorded : Option (Option String))
    (legacy : Option (Option (Option String))) (claim : Option (Option String))
    → faults plugin to source recorded legacy claim ≡ none
    → (to ≡ some plugin)
      × (claim ≡ some plugin)
      × ((source ≡ none) ⊎ (source ≡ some plugin))
      × ((recorded ≡ some plugin) ⊎ ((recorded ≡ none) × (legacy ≡ some (some plugin))))
faults-none plugin none source recorded legacy claim h = absurd (cc)
faults-none plugin (some to) source recorded legacy none h = absurd (ground (arith, h))
faults-none plugin (some to) none (some recorded) legacy (some claim) h =
    let t : to ≡ plugin = same_plugin-eq to plugin (ground arith) in
    let c : claim ≡ plugin = same_plugin-eq claim to (ground arith) ∙ t in
    let r : recorded ≡ plugin = same_plugin-eq recorded claim (ground arith) ∙ c in
    (ap some t, ap some c, inl refl, inl (ap some r))
faults-none plugin (some to) none none legacy (some claim) h =
    let t : to ≡ plugin = same_plugin-eq to plugin (ground arith) in
    let c : claim ≡ plugin = same_plugin-eq claim to (ground arith) ∙ t in
    let l : legacy ≡ some (some plugin) =
      is_authorized-eq legacy claim (ground arith) ∙ ap (λ p. some (some p)) c in
    (ap some t, ap some c, inl refl, inr (refl, l))
faults-none plugin (some to) (some source) (some recorded) legacy (some claim) h =
    let t : to ≡ plugin = same_plugin-eq to plugin (ground arith) in
    let c : claim ≡ plugin = same_plugin-eq claim to (ground arith) ∙ t in
    let r : recorded ≡ plugin = same_plugin-eq recorded claim (ground arith) ∙ c in
    let s : source ≡ plugin = same_plugin-eq source plugin (ground arith) in
    (ap some t, ap some c, inr (ap some s), inl (ap some r))
faults-none plugin (some to) (some source) none legacy (some claim) h =
    let t : to ≡ plugin = same_plugin-eq to plugin (ground arith) in
    let c : claim ≡ plugin = same_plugin-eq claim to (ground arith) ∙ t in
    let l : legacy ≡ some (some plugin) =
      is_authorized-eq legacy claim (ground arith) ∙ ap (λ p. some (some p)) c in
    let s : source ≡ plugin = same_plugin-eq source plugin (ground arith) in
    (ap some t, ap some c, inr (ap some s), inr (refl, l))

module _ (mounted : List (String × Option String)) (ledger : List (String × Option String))
    (legacy : List (String × Option (Option String))) where
  -- The data that the package moves is its own: where it goes, what it says, and what the kernel
  -- recorded at an earlier mount, or else the operator declared, all name the package.
  abbrev pub IsOwn : Option String → DataMigration → Type 0
  IsOwn plugin m =
      (last_of m.to_cube mounted ≡ some plugin)
      × (m.from_plugin ≡ some plugin)
      × ((last_of m.from_cube mounted ≡ none) ⊎ (last_of m.from_cube mounted ≡ some plugin))
      × ((last_of m.from_cube ledger ≡ some plugin)
          ⊎ ((last_of m.from_cube ledger ≡ none)
              × (last_of m.from_cube legacy ≡ some (some plugin))))

  fault_of-IsOwn :
      (plugin : Option String) (m : DataMigration)
      → fault_of mounted ledger legacy plugin m ≡ none
      → IsOwn plugin m
  unfolding fault_of
  fault_of-IsOwn plugin m h =
      faults-none plugin (last_of m.to_cube mounted) (last_of m.from_cube mounted)
        (last_of m.from_cube ledger) (last_of m.from_cube legacy) m.from_plugin h

  abbrev pub AllOwn : List ValidatedMigration → Type 0
  AllOwn vs = (v : ValidatedMigration) → IsIn v vs → IsOwn v.declared_by v.migration

  abbrev AllChecked : Checked (List ValidatedMigration) → Type 0
  AllChecked (refused fault) = Unit {0}
  AllChecked (ok vs) = AllOwn vs

  kept-AllChecked :
      (fault : Option Refusal) (plugin : Option String) (m : DataMigration)
      (rest : Checked (List ValidatedMigration))
      → (fault ≡ none → IsOwn plugin m)
      → AllChecked rest
      → AllChecked (kept fault (record { migration = m; declared_by = plugin }) rest)
  kept-AllChecked (some fault) plugin m rest own h = tt
  kept-AllChecked none plugin m (refused fault) own h = tt
  kept-AllChecked none plugin m (ok vs) own h =
      λ v i. elim i [ inl e ↦ rw e (own refl) | inr j ↦ h v j ]

  both-AllChecked :
      (a b : Checked (List ValidatedMigration))
      → AllChecked a
      → AllChecked b
      → AllChecked (both a b)
  both-AllChecked (refused fault) b h k = tt
  both-AllChecked (ok own) (refused fault) h k = tt
  both-AllChecked (ok own) (ok rest) h k =
      λ v i. elim (IsIn-append v own rest i) [ inl j ↦ h v j | inr j ↦ k v j ]

  check_migrations-AllChecked :
      (plugin : Option String) (ms : List DataMigration)
      → AllChecked (check_migrations mounted ledger legacy plugin ms)
  unfolding check_migrations
  check_migrations-AllChecked plugin [] = λ v i. absurd i
  check_migrations-AllChecked plugin (m ∷ ms) =
      kept-AllChecked (fault_of mounted ledger legacy plugin m) plugin m
        (check_migrations mounted ledger legacy plugin ms) (fault_of-IsOwn plugin m)
        (check_migrations-AllChecked plugin ms)

  check_definitions-AllChecked :
      (ds : List Definition) → AllChecked (check_definitions mounted ledger legacy ds)
  unfolding check_definitions
  check_definitions-AllChecked [] = λ v i. absurd i
  check_definitions-AllChecked (d ∷ ds) =
      both-AllChecked (check_migrations mounted ledger legacy d.plugin d.migrations)
        (check_definitions mounted ledger legacy ds)
        (check_migrations-AllChecked d.plugin d.migrations) (check_definitions-AllChecked ds)

-- Every migration that `checkMigrationOwnership` lets through belongs to one package: the one that
-- declares it, that it names as its source, that its target is mounted by, and that its source is
-- mounted by if at all; and the kernel's ledger says so of the source, or, where the ledger has no
-- record of it, the operator does.
pub check_migration_ownership-AllOwn :
    (ds : List Definition) (ledger : List (String × Option String)) (legacy : String)
    (vs : List ValidatedMigration)
    → check_migration_ownership ds ledger legacy ≡ ok vs
    → AllOwn (mounted_in ds) ledger (legacy_authorized legacy) vs
unfolding check_migration_ownership
check_migration_ownership-AllOwn ds ledger legacy vs h =
    subst (AllChecked (mounted_in ds) ledger (legacy_authorized legacy)) h
      (check_definitions-AllChecked (mounted_in ds) ledger (legacy_authorized legacy) ds)
