-- ===== src/Mounting/Ledger.antt =====
-- core/src/kernel/ledger.ts, main.ts: which package owned which cube, as the kernel recorded it at each
-- mount. A file is written whole or not at all, and a write that fails stops the boot.
pub mod Provenance
use qwbe.Prelude.{
  String, Bool, true, false, not, ◌&&◌, Option, none, some, List, [], ◌∷◌, ◌++◌, ◌==◌, all, filter,
  map, split, if◌then◌else◌,
}
use qwbe.Mounting.Names.{is_name}
use qwbe.Mounting.Migration.{Definition, ValidatedMigration, mounted_in, same_plugin}

-- The owner of an entry of the file as it was parsed: null, a text, or anything else.
pub data Owner : Type 0 where
  core : Owner
  plugin : String → Owner
  neither : Owner

-- The file: not there, no object, or its entries.
pub data LedgerFile : Type 0 where
  no_file no_object : LedgerFile
  entries : List (String × Owner) → LedgerFile

-- `LedgerSnapshot`
pub data LedgerSnapshot : Type 0 where
  absent : LedgerSnapshot
  recorded : List (String × Option String) → LedgerSnapshot

abbrev one_or_two : List String → Bool
one_or_two [] = false
one_or_two (a ∷ []) = is_name a
one_or_two (a ∷ b ∷ []) = is_name a && is_name b
one_or_two (a ∷ b ∷ c ∷ rest) = false

-- `CUBE_IDENTITY.test(cube)`: one slug, or two with a slash between
unfoldable pub is_identity : String → Bool
is_identity cube = one_or_two (split b'/' cube)

abbrev owner_of : Owner → Option (Option String)
owner_of core = some none
owner_of (plugin name) = if is_name name then some (some name) else none
owner_of neither = none

abbrev entry_before :
    String
    → Option (Option String)
    → Option (List (String × Option String))
    → Option (List (String × Option String))
entry_before cube none rest = none
entry_before cube (some owner) none = none
entry_before cube (some owner) (some ledger) = some ((cube, owner) ∷ ledger)

-- `LedgerFile`, its filter
unfoldable pub decode_ledger : List (String × Owner) → Option (List (String × Option String))
unfolding is_identity
decode_ledger [] = some []
decode_ledger ((cube, owner) ∷ rest) =
    let ledger = decode_ledger rest in
    if is_identity cube then entry_before cube (owner_of owner) ledger else none

abbrev snapshot_of : Option (List (String × Option String)) → Option LedgerSnapshot
snapshot_of none = none
snapshot_of (some ledger) = some (recorded ledger)

-- `readLedger`: none where the file is corrupt
unfoldable pub read_ledger : LedgerFile → Option LedgerSnapshot
unfolding decode_ledger
read_ledger no_file = some absent
read_ledger no_object = none
read_ledger (entries es) = snapshot_of (decode_ledger es)

abbrev same_entry : String × Option String → String × Option String → Bool
same_entry (a, p) (b, q) = a == b && same_plugin p q

abbrev kept_before :
    String × Option String
    → Option (List (String × Option String))
    → Option (List (String × Option String))
kept_before x none = none
kept_before x (some xs) = some (x ∷ xs)

-- the list without the entry, if it has it
unfoldable pub without :
    String × Option String → List (String × Option String) → Option (List (String × Option String))
without e [] = none
without e (x ∷ xs) =
    let rest = without e xs in if same_entry e x then some xs else kept_before x rest

-- `sameLedger`: the same entries, in any order
unfoldable pub same_ledger : List (String × Option String) → List (String × Option String) → Bool
same_ledger [] [] = true
same_ledger [] (y ∷ ys) = false
same_ledger (x ∷ xs) ys = elim (without x ys) [ none ↦ false | some rest ↦ same_ledger xs rest ]

abbrev written_owner : Option String → Owner
written_owner none = core
written_owner (some name) = plugin name

-- `replaceLedger`
unfoldable pub replace_ledger : List (String × Option String) → LedgerFile
replace_ledger ledger =
    entries (map (λ (e : String × Option String). (e.0, written_owner e.1)) ledger)

abbrev pub ledger_of : LedgerSnapshot → List (String × Option String)
ledger_of absent = []
ledger_of (recorded ledger) = ledger

abbrev is_unchanged : LedgerSnapshot → Option LedgerSnapshot → Bool
is_unchanged snapshot none = false
is_unchanged absent (some absent) = true
is_unchanged absent (some (recorded current)) = false
is_unchanged (recorded ledger) (some absent) = false
is_unchanged (recorded ledger) (some (recorded current)) = same_ledger ledger current

-- `verifyLedgerUnchanged`: whether it lets the boot go on, and the file that it leaves
unfoldable pub verify_ledger_unchanged : LedgerSnapshot → LedgerFile → Bool × LedgerFile
unfolding read_ledger same_ledger replace_ledger
verify_ledger_unchanged snapshot file =
    if is_unchanged snapshot (read_ledger file)
    then (true, file)
    else (false, replace_ledger (ledger_of snapshot))

unfoldable pub without_key : String → List (String × Option String) → List (String × Option String)
without_key key [] = []
without_key key ((k, owner) ∷ rest) =
    let others = without_key key rest in if k == key then others else (k, owner) ∷ others

-- `next[name] = owner`: in the place of the key, or behind all
unfoldable pub set_owner :
    List (String × Option String) → String → Option String → List (String × Option String)
unfolding without_key
set_owner [] key owner = (key, owner) ∷ []
set_owner ((k, old) ∷ rest) key owner =
    let others = set_owner rest key owner in
    if k == key then (k, owner) ∷ without_key key rest else (k, old) ∷ others

-- the loop of `writeLedger`
unfoldable pub next_ledger :
    List (String × Option String) → List (String × Option String) → List (String × Option String)
unfolding set_owner
next_ledger ledger [] = ledger
next_ledger ledger ((name, owner) ∷ rest) = next_ledger (set_owner ledger name owner) rest

-- `writeLedger`
unfoldable pub write_ledger : LedgerSnapshot → List (String × Option String) → LedgerFile
unfolding next_ledger replace_ledger
write_ledger snapshot mounted = replace_ledger (next_ledger (ledger_of snapshot) mounted)

-- what main.ts writes: the mounted cubes, and each migration's source under its declaring package
unfoldable pub boot_entries :
    List Definition → List ValidatedMigration → List (String × Option String)
boot_entries ds vs =
    mounted_in ds ++ map (λ (v : ValidatedMigration). (v.migration.from_cube, v.declared_by)) vs
