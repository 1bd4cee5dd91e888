-- ===== src/Mounting/Switches.antt =====
-- core/src/kernel/state.ts: the on/off switches of the cubes, in memory and in a file. A write to
-- the file succeeds or leaves the file as it was.
pub mod Setting
pub mod Restart
use qwbe.Prelude.{
  or_this, String, Bool, true, false, not, ◌&&◌, ◌||◌, Option, none, some, or_else, is_some, List,
  [], ◌∷◌, ◌++◌, ◌==◌, filter, contains, length, nat_eq, head, split, lacks, if◌then◌else◌,
}
use qwbe.Kernel.ListQuery.{distinct, sort_names}
use qwbe.Mounting.Names.{parent_of}

pub record Mounted : Type 0 where
  pub name : String
  pub required : Bool

-- The state file: not there, not decodable, or with its list of names.
pub data Disk : Type 0 where
  absent corrupt : Disk
  holds : List String → Disk

pub data SwitchError : Type 0 where
  required_cube unknown_cube state_file : SwitchError

-- `switchesFrom`: the cubes that are mounted, the file, and the disabled cubes in memory.
pub record Switches : Type 0 where
  pub mounted : List Mounted
  pub disk : Disk
  pub disabled : List String

-- `known.get(cube)`: the last of a name is in the Map
unfoldable pub known_get : List Mounted → String → Option Mounted
known_get [] cube = none
known_get (m ∷ ms) cube = or_this (known_get ms cube) (if m.name == cube then some m else none)

abbrev pub is_known : List Mounted → String → Bool
is_known mounted cube = is_some (known_get mounted cube)

-- `readDisabled`
unfoldable pub read_disabled : Disk → Option (List String)
read_disabled absent = some []
read_disabled corrupt = none
read_disabled (holds names) = some (distinct [] names)

-- `writeDisabled`: whether it succeeds is the disk's to say
abbrev pub write_disabled : Bool → List String → Disk → Disk
write_disabled writes disabled disk = if writes then holds (sort_names disabled) else disk

abbrev boot_cleaned :
    List Mounted → Disk → Bool → List String → List String → Option Switches × Disk
boot_cleaned mounted disk writes disabled cleaned =
    if nat_eq (length cleaned) (length disabled)
    then (some (record { mounted = mounted; disk = disk; disabled = disabled }), disk)
    else if writes
    then (
      some (record {
        mounted = mounted;
        disk = write_disabled true cleaned disk;
        disabled = cleaned;
      }),
      write_disabled true cleaned disk,
    )
    else (none, disk)

abbrev boot_read : List Mounted → Disk → Bool → Option (List String) → Option Switches × Disk
boot_read mounted disk writes none = (none, disk)
boot_read mounted disk writes (some disabled) =
    boot_cleaned mounted disk writes disabled (filter (is_known mounted) disabled)

-- `switchesFrom`, with the file that it leaves
unfoldable pub boot : List Mounted → Disk → Bool → Option Switches × Disk
boot mounted disk writes = boot_read mounted disk writes (read_disabled disk)

-- `isEnabled`
unfoldable pub is_enabled : Switches → String → Bool
is_enabled s cube = is_known s.mounted cube && not (contains s.disabled cube)

-- `next.add` and `next.delete`
abbrev pub changed : Bool → String → List String → List String
changed true cube disabled = filter (λ name. not (name == cube)) disabled
changed false cube disabled = if contains disabled cube then disabled else disabled ++ cube ∷ []

-- what `set` answers: a refusal, or the cube whose return it announces
pub data Answer : Type 0 where
  refused : SwitchError → Answer
  changes : Option String → Answer

abbrev set_known : Bool → String → Bool → Option Mounted → Switches → Answer × Switches
set_known writes cube enabled none s = (refused unknown_cube, s)
set_known writes cube enabled (some m) s =
    if m.required && not enabled
    then (refused required_cube, s)
    else if writes
    then (
      changes (if enabled then some cube else none),
      record s {
        disk = write_disabled true (changed enabled cube s.disabled) s.disk;
        disabled = changed enabled cube s.disabled;
      },
    )
    else (refused state_file, s)

-- `set`
unfoldable pub set : Bool → String → Bool → Switches → Answer × Switches
set writes cube enabled s = set_known writes cube enabled (known_get s.mounted cube) s

-- `isEnabled` of mount (kernel/discovery.ts): a child is off while its parent is
unfoldable pub is_live : Switches → String → Bool
is_live s cube =
    is_enabled s cube && (lacks b'/' cube || is_enabled s (or_else (head (split b'/' cube)) ""))
