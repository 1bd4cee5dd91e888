-- ===== src/Tests/Servers.antt =====
-- The theorems about the bus, the switches, the commands and the moves of data, each at one input.
use qwbe.Prelude.{
  ℕ, ◌+◌, String, Bool, true, false, ◌≡◌, refl, Option, some, List, [], ◌∷◌, ◌==◌, inl,
}
use qwbe.Mounting.Manifest.{CommandSpec}
use qwbe.Mounting.Bus.{Bus, Subscriber, publish, seal, subscribe}
use qwbe.Mounting.Bus.Delivery.{PublishEnds, publish-PublishEnds}
use qwbe.Mounting.Bus.Journal.{IsJournalled, Reaches-IsJournalled}
use qwbe.Mounting.Bus.Journal
use qwbe.Mounting.Switches.{Mounted, Switches, Disk, holds, boot, set, read_disabled, known_get}
use qwbe.Kernel.ListQuery.{distinct, sort_names}
use qwbe.Mounting.Switches.Restart.{Restarts, Reaches-Restarts}
use qwbe.Mounting.Switches.Restart
use qwbe.Mounting.Commands.{invoke}
use qwbe.Mounting.Commands.Dispatch.{InvokeEnds, invoke-InvokeEnds}
use qwbe.Mounting.Migration.{
  DataMigration, Definition, ValidatedMigration, mounted_in, legacy_authorized, ok, last_of,
  same_plugin, check_migration_ownership, migrate_data_schemas,
}
use qwbe.Mounting.Ledger.{next_ledger, boot_entries}
use qwbe.Mounting.Ledger.Provenance.{mounts_as, Boots-provenance}
use qwbe.Mounting.Ledger.Provenance
use qwbe.Mounting.Migration.Owned.{AllOwn, check_migration_ownership-AllOwn}
use qwbe.Mounting.Migration.Rename.{SchemaRow, Database, schema_exists, rename_schema}
use qwbe.Mounting.Migration.Rollback.{MigrationEnds, migrate_data_schemas-MigrationEnds}
use qwbe.Tests.Mounting.{export_notes}

-- a listener that adds the payload to a number
abbrev adds : ℕ → ℕ → ℕ × Bool
adds payload w = (w + payload, true)

abbrev tags_listener : Subscriber ℕ ℕ
tags_listener = record { cube = "tags"; event = "notes/renamed"; handle = adds }

abbrev quiet : Bus ℕ ℕ
quiet = record { subscriptions = []; journal = []; sealed = false }

abbrev running : Bus ℕ ℕ
running = seal (subscribe tags_listener quiet)

abbrev everyone : String → Bool
everyone cube = true

abbrev notes_events : Option (List String)
notes_events = some ("notes/renamed" ∷ [])

publish-PublishEnds_example :
    PublishEnds everyone "t1" "notes" notes_events "notes/renamed" 3 running 4
      (publish everyone "t1" "notes" notes_events "notes/renamed" 3 running 4)
publish-PublishEnds_example =
    publish-PublishEnds everyone "t1" "notes" notes_events "notes/renamed" 3 running 4

Reaches-IsJournalled_example :
    IsJournalled (publish everyone "t1" "notes" notes_events "notes/renamed" 3 running 4).1
Reaches-IsJournalled_example = Reaches-IsJournalled {a = quiet} refl (
    Journal.next
      (Journal.next (Journal.next Journal.here (Journal.subscribes tags_listener quiet))
        (Journal.seals (subscribe tags_listener quiet)))
      (Journal.publishes everyone "t1" "notes" notes_events "notes/renamed" 3 4 running))

abbrev mounted : List Mounted
mounted =
    record { name = "auth"; required = true } ∷ record { name = "tags"; required = false } ∷ []

-- a file with a cube that is gone
abbrev old_file : Disk
old_file = holds ("gone" ∷ [])

abbrev booted : Switches
booted = record { mounted = mounted; disk = holds []; disabled = [] }

boots : (boot mounted old_file true).0 ≡ some booted
unfolding boot read_disabled distinct known_get sort_names
boots = refl

Reaches-Restarts_example : Restarts (set true "tags" false booted).1
Reaches-Restarts_example =
    Reaches-Restarts mounted old_file true booted (set true "tags" false booted).1 boots
      (Restart.next true "tags" false Restart.here)

abbrev counts_up : CommandSpec → List String → List String → ℕ → ℕ × String × Bool
counts_up c args permissions w = (w + 1, "done", true)

invoke-InvokeEnds_example :
    InvokeEnds counts_up everyone
      (export_notes ∷ [])
      "notes:export"
      ("all" ∷ [])
      ("notes:read" ∷ [])
      0
      (invoke counts_up everyone
        (export_notes ∷ [])
        "notes:export"
        ("all" ∷ [])
        ("notes:read" ∷ [])
        0)
invoke-InvokeEnds_example =
    invoke-InvokeEnds counts_up everyone (export_notes ∷ []) "notes:export" ("all" ∷ [])
      ("notes:read" ∷ []) 0

abbrev to_books : DataMigration
to_books = record { from_cube = "papers"; to_cube = "books"; from_plugin = some (some "shelf") }

abbrev books : Definition
books = record { name = "books"; plugin = some "shelf"; migrations = to_books ∷ [] }

abbrev papers_ledger : List (String × Option String)
papers_ledger = ("papers", some "shelf") ∷ []

allows :
    check_migration_ownership (books ∷ []) papers_ledger ""
    ≡ ok (record { migration = to_books; declared_by = some "shelf" } ∷ [])
unfolding check_migration_ownership last_of same_plugin
allows = refl

check_migration_ownership-AllOwn_example :
    AllOwn
      (mounted_in (books ∷ []))
      papers_ledger
      (legacy_authorized "")
      (record { migration = to_books; declared_by = some "shelf" } ∷ [])
check_migration_ownership-AllOwn_example =
    check_migration_ownership-AllOwn (books ∷ []) papers_ledger ""
      (record { migration = to_books; declared_by = some "shelf" } ∷ []) allows

abbrev to_log : DataMigration
to_log = record { from_cube = "logs"; to_cube = "log"; from_plugin = some (some "shelf") }

abbrev papers_schema : SchemaRow
papers_schema = record { name = "papers"; tables = "paper" ∷ [] }

abbrev logs_schema : SchemaRow
logs_schema = record { name = "logs"; tables = "line" ∷ [] }

abbrev two_schemas : Database
two_schemas = record {
  schemas = papers_schema ∷ logs_schema ∷ [];
  roles = "qwbe_cube_papers" ∷ [];
  outbox = [];
}

-- the connection is lost at the second schema
abbrev breaks_at_logs : String → String → Database → Bool
breaks_at_logs from to db = from == "logs"

migrate_data_schemas-MigrationEnds_example :
    MigrationEnds breaks_at_logs (to_books ∷ to_log ∷ []) two_schemas (
      migrate_data_schemas schema_exists
        (rename_schema breaks_at_logs)
        (to_books ∷ to_log ∷ [])
        two_schemas)
migrate_data_schemas-MigrationEnds_example =
    migrate_data_schemas-MigrationEnds breaks_at_logs (to_books ∷ to_log ∷ []) two_schemas

abbrev shelf_step : ValidatedMigration
shelf_step = record { migration = to_books; declared_by = some "shelf" }

abbrev shelf_move : List ValidatedMigration
shelf_move = shelf_step ∷ []

abbrev second_ledger : List (String × Option String)
second_ledger = next_ledger papers_ledger (boot_entries (books ∷ []) shelf_move)

allows_again : check_migration_ownership (books ∷ []) second_ledger "" ≡ ok shelf_move
unfolding check_migration_ownership last_of same_plugin next_ledger boot_entries
allows_again = refl

recorded_once : last_of "papers" papers_ledger ≡ some (some "shelf")
unfolding last_of
recorded_once = refl

mounts_no_papers : mounts_as "papers" (some "shelf") (books ∷ []) ≡ true
unfolding same_plugin
mounts_no_papers = refl

Boots-provenance_example : shelf_step.declared_by ≡ some "shelf"
Boots-provenance_example =
    Boots-provenance "papers" (some "shelf") papers_ledger second_ledger (books ∷ []) "" shelf_move
      shelf_step recorded_once
      (Provenance.next (books ∷ []) "" shelf_move Provenance.here mounts_no_papers allows)
      allows_again (inl refl) refl
