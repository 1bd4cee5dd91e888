-- ===== src/Mounting/Migration.antt =====
-- core/src/kernel/migrate-ownership.ts, migrate.ts: who may move the data of whom, and the moves.
-- A plugin of none is the core. What the database does is a parameter.
pub mod Owned
pub mod Rename
pub mod Rollback
use Prim.Native.String
use Prim.Native.Char.{code}
use qwbe.Prelude.{
  or_this, String, Bool, true, false, not, ◌&&◌, Option, none, some, or_else, List, [], ◌∷◌, ◌++◌,
  ◌==◌, map, filter, trim, split, nat_eq, if◌then◌else◌,
}

-- `DataMigration`; a source package that is not named is none.
pub record DataMigration : Type 0 where
  pub from_cube : String
  pub to_cube : String
  pub from_plugin : Option (Option String)

pub record Definition : Type 0 where
  pub name : String
  pub plugin : Option String
  pub migrations : List DataMigration

-- `ValidatedMigration`
pub record ValidatedMigration : Type 0 where
  pub migration : DataMigration
  pub declared_by : Option String

-- why the rules refuse a migration
pub data Refusal : Type 0 where
  not_mounted other_package live_source unnamed_source ledger_differs : Refusal
  unauthorized foreign_claim : Refusal

pub data Checked (A : Type 0) : Type 0 where
  ok : A → Checked A
  refused : Refusal → Checked A

unfoldable pub same_plugin : Option String → Option String → Bool
same_plugin none none = true
same_plugin (some a) (some b) = a == b
same_plugin none (some b) = false
same_plugin (some a) none = false

-- the value of a key in a Map that was built from a list: the last one counts
unfoldable pub last_of {ℓ} : {A : Type ℓ} → String → List (String × A) → Option A
last_of key [] = none
last_of key ((k, a) ∷ rest) = or_this (last_of key rest) (if k == key then some a else none)

abbrev pub mounted_in : List Definition → List (String × Option String)
mounted_in ds = map (λ (d : Definition). (d.name, d.plugin)) ds

abbrev plugin_of : String → Option String
plugin_of plugin = if plugin == "core" then none else some plugin

-- one entry of QWBE_LEGACY_MIGRATIONS, split at its colons
abbrev claim_of : List String → String × Option (Option String)
claim_of [] = ("", none)
claim_of (cube ∷ []) = (cube, none)
claim_of (cube ∷ plugin ∷ rest) = (cube, some (plugin_of plugin))

-- `legacyAuthorized`
unfoldable pub legacy_authorized : String → List (String × Option (Option String))
legacy_authorized text =
    map (λ s. claim_of (split b':' s)) (filter (λ s. not (s == "")) (map trim (split b',' text)))

abbrev is_live_of_other : Option (Option String) → Option String → Bool
is_live_of_other none plugin = false
is_live_of_other (some other) plugin = not (same_plugin other plugin)

-- `authorized !== undefined && authorized === m.fromPlugin`
unfoldable pub is_authorized : Option (Option (Option String)) → Option String → Bool
is_authorized none claim = false
is_authorized (some none) claim = false
is_authorized (some (some plugin)) claim = same_plugin plugin claim

abbrev recorded_fault :
    Option (Option String) → Option (Option (Option String)) → Option String → Option Refusal
recorded_fault (some recorded) legacy claim =
    if same_plugin recorded claim then none else some ledger_differs
recorded_fault none legacy claim = if is_authorized legacy claim then none else some unauthorized

abbrev or_foreign : Option Refusal → Bool → Option Refusal
or_foreign (some fault) same = some fault
or_foreign none same = if same then none else some foreign_claim

-- the checks of one migration, on what the Maps and the ledger hold: the packages of the target and
-- of a mounted source, the ledger's record, the operator's declaration and the claim
abbrev pub faults :
    Option String
    → Option (Option String)
    → Option (Option String)
    → Option (Option String)
    → Option (Option (Option String))
    → Option (Option String)
    → Option Refusal
faults plugin none source recorded legacy claim = some not_mounted
faults plugin (some to) source recorded legacy none =
    if not (same_plugin to plugin)
    then some other_package
    else if is_live_of_other source plugin
    then some live_source
    else some unnamed_source
faults plugin (some to) source recorded legacy (some claim) =
    if not (same_plugin to plugin)
    then some other_package
    else if is_live_of_other source plugin
    then some live_source
    else or_foreign (recorded_fault recorded legacy claim) (same_plugin claim to)

abbrev pub kept :
    Option Refusal
    → ValidatedMigration
    → Checked (List ValidatedMigration)
    → Checked (List ValidatedMigration)
kept (some fault) v rest = refused fault
kept none v (refused fault) = refused fault
kept none v (ok vs) = ok (v ∷ vs)

abbrev pub both :
    Checked (List ValidatedMigration)
    → Checked (List ValidatedMigration)
    → Checked (List ValidatedMigration)
both (refused fault) rest = refused fault
both (ok own) (refused fault) = refused fault
both (ok own) (ok rest) = ok (own ++ rest)

module _ (mounted : List (String × Option String)) (ledger : List (String × Option String))
    (legacy : List (String × Option (Option String))) where
  unfoldable pub fault_of : Option String → DataMigration → Option Refusal
  fault_of plugin m =
      faults plugin (last_of m.to_cube mounted) (last_of m.from_cube mounted)
        (last_of m.from_cube ledger) (last_of m.from_cube legacy) m.from_plugin

  -- the inner loop
  unfoldable pub check_migrations :
      Option String → List DataMigration → Checked (List ValidatedMigration)
  unfolding fault_of
  check_migrations plugin [] = ok []
  check_migrations plugin (m ∷ ms) =
      kept (fault_of plugin m) (record { migration = m; declared_by = plugin })
        (check_migrations plugin ms)

  -- the outer loop
  unfoldable pub check_definitions : List Definition → Checked (List ValidatedMigration)
  unfolding check_migrations
  check_definitions [] = ok []
  check_definitions (d ∷ ds) = both (check_migrations d.plugin d.migrations) (check_definitions ds)

-- `checkMigrationOwnership`
unfoldable pub check_migration_ownership :
    List Definition → List (String × Option String) → String → Checked (List ValidatedMigration)
unfolding check_definitions legacy_authorized
check_migration_ownership ds ledger legacy =
    check_definitions (mounted_in ds) ledger (legacy_authorized legacy) ds

-- `schemaName`: every slash is replaced
unfoldable pub schema_name : String → String
schema_name String.[] = String.[]
schema_name (String.◌∷◌ c s) =
    let rest = schema_name s in
    if nat_eq (code c) b'/' then String.◌++◌ "--" rest else String.◌∷◌ c rest

pub record Move : Type 0 where
  pub from_schema : String
  pub to_schema : String

-- How the moves end: done, two schemas of one migration both there, or a rename that failed, with
-- whether a rename back failed too.
pub data Migrated : Type 0 where
  migrated : Migrated
  conflict : String → String → Migrated
  failed : Move → Bool → Migrated

-- a plan, or the conflict that stops it
pub data Plan : Type 0 where
  moves : List Move → Plan
  conflicting : String → String → Plan

abbrev pub planned : Bool → Bool → DataMigration → Plan → Plan
planned false there m rest = rest
planned true true m rest = conflicting m.from_cube m.to_cube
planned true false m (conflicting from to) = conflicting from to
planned true false m (moves rest) =
    moves
      (record { from_schema = schema_name m.from_cube; to_schema = schema_name m.to_cube } ∷ rest)

module _ {S : Type 0} (exists : String → S → Bool) (rename : String → String → S → Option S) where
  -- the first loop: every source that is there needs a target that is not
  unfoldable pub plan_of : List DataMigration → S → Plan
  plan_of [] s = moves []
  plan_of (m ∷ ms) s =
      planned (exists (schema_name m.from_cube) s) (exists (schema_name m.to_cube) s) m
        (plan_of ms s)

  abbrev pub after_back : Option S → (Bool → S → Bool × S) → Bool → S → Bool × S
  after_back none others rollback_failed s = others true s
  after_back (some s') others rollback_failed s = others rollback_failed s'

  -- the loop that renames back, the last move first
  unfoldable pub roll_back : List Move → Bool → S → Bool × S
  roll_back [] rollback_failed s = (rollback_failed, s)
  roll_back (mv ∷ done) rollback_failed s =
      after_back (rename mv.to_schema mv.from_schema s) (roll_back done) rollback_failed s

  abbrev pub rolled_back : Move → Bool × S → Migrated × S
  rolled_back mv (rollback_failed, s) = (failed mv rollback_failed, s)

  abbrev pub after_move :
      Option S → Move → (List Move → S → Migrated × S) → List Move → S → Migrated × S
  after_move none mv others done s = rolled_back mv (roll_back done false s)
  after_move (some s') mv others done s = others (mv ∷ done) s'

  -- the second loop, with what is done, its last move first
  unfoldable pub move_all : List Move → List Move → S → Migrated × S
  unfolding roll_back
  move_all [] done s = (migrated, s)
  move_all (mv ∷ rest) done s =
      after_move (rename mv.from_schema mv.to_schema s) mv (move_all rest) done s

  abbrev pub follow : Plan → S → Migrated × S
  follow (conflicting from to) s = (conflict from to, s)
  follow (moves plan) s = move_all plan [] s

  -- `migrateDataSchemas`
  unfoldable pub migrate_data_schemas : List DataMigration → S → Migrated × S
  unfolding plan_of move_all
  migrate_data_schemas ms s = follow (plan_of ms s) s
