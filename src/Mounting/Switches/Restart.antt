-- ===== src/Mounting/Switches/Restart.antt =====
-- core/src/kernel/state.ts: what the file says after a restart.
use qwbe.Prelude.{
  String, Bool, true, not, ◌≡◌, refl, subst, ◌&&◌, inl, inr, Option, none, some, List, [], arith,
  contains, filter, length, nat_eq, Bool-cases, Option-cases,
}
use mathlib.Core.Option.{some-injective}
use qwbe.Kernel.ListQuery.{sort_names}
use qwbe.Kernel.ListQuery.Names.{contains-filter, contains-distinct, contains-sort_names}
use qwbe.Mounting.Switches.{
  Mounted, Switches, Disk, holds, known_get, is_known, read_disabled, is_enabled, changed, boot,
  boot_cleaned, set,
}

-- The file can be read, and names the same cubes of those that are mounted as the memory does.
abbrev AgreesOn : Switches → Option (List String) → Type 0
AgreesOn s none = ⊥
AgreesOn s (some names) =
    (cube : String)
    → is_known s.mounted cube ≡ true
    → contains names cube ≡ contains s.disabled cube

abbrev pub Agrees : Switches → Type 0
Agrees s = AgreesOn s (read_disabled s.disk)

-- What switching does to the switches, with a disk that may refuse.
pub data Reaches (a : Switches) : Switches → Type 0 where
  here : Reaches a a
  next :
      {b : Switches} (writes : Bool) (cube : String) (enabled : Bool)
      → Reaches a b
      → Reaches a (set writes cube enabled b).1

written-Agrees :
    (mounted : List Mounted) (names : List String)
    → Agrees (record { mounted = mounted; disk = holds (sort_names names); disabled = names })
unfolding read_disabled
written-Agrees mounted names cube k =
    ground (arith, contains-distinct [] (sort_names names) cube, contains-sort_names names cube)

read-Agrees :
    (mounted : List Mounted) (disk : Disk) (names : List String)
    → read_disabled disk ≡ some names
    → Agrees (record { mounted = mounted; disk = disk; disabled = names })
read-Agrees mounted disk names r = rw r (λ cube k. refl)

boot_cleaned-Agrees :
    (mounted : List Mounted) (disk : Disk) (writes : Bool) (names cleaned : List String)
    → read_disabled disk ≡ some names
    → (s : Switches) → (boot_cleaned mounted disk writes names cleaned).0 ≡ some s
    → Agrees s
boot_cleaned-Agrees mounted disk writes names cleaned r s h =
    elim (Bool-cases (nat_eq (length cleaned) (length names))) [
      | inl whole ↦
          subst Agrees (some-injective _ s (rw whole at h)) (read-Agrees mounted disk names r)
      | inr less ↦ elim (Bool-cases writes) [
        | inr full ↦ absurd (ground (arith, less, full, h))
        | inl fits ↦
            subst Agrees (some-injective _ s (rw (less, fits) at h))
              (written-Agrees mounted cleaned)
      ]
    ]

boot-Agrees :
    (mounted : List Mounted) (disk : Disk) (writes : Bool) (s : Switches)
    → (boot mounted disk writes).0 ≡ some s
    → Agrees s
unfolding boot
boot-Agrees mounted disk writes s h = elim (Option-cases (read_disabled disk)) [
  | inl bad ↦ absurd (ground (arith, bad, h))
  | inr (names, r) ↦
      boot_cleaned-Agrees mounted disk writes names (filter (is_known mounted) names) r s
        (rw r at h)
]

set-Agrees :
    (writes : Bool) (cube : String) (enabled : Bool) (s : Switches)
    → Agrees s
    → Agrees (set writes cube enabled s).1
unfolding set
set-Agrees writes cube enabled s h = elim (Option-cases (known_get s.mounted cube)) [
  | inl missing ↦ rw missing h
  | inr (m, known) ↦ elim (Bool-cases (m.required && not enabled)) [
    | inl fixed ↦ rw (known, fixed) h
    | inr free ↦ elim (Bool-cases writes) [
      | inr full ↦ rw (known, free, full) h
      | inl fits ↦
          rw (known, free, fits) (written-Agrees s.mounted (changed enabled cube s.disabled))
    ]
  ]
]

Reaches-Agrees : {a s : Switches} → Agrees a → Reaches a s → Agrees s
Reaches-Agrees h here = h
Reaches-Agrees h (next {b} writes cube enabled r) =
    set-Agrees writes cube enabled b (Reaches-Agrees h r)

abbrev pub Restarts : Switches → Type 0
Restarts s =
    (t : Switches) × ((boot s.mounted s.disk true).0 ≡ some t)
    × ((cube : String) → is_enabled t cube ≡ is_enabled s cube)

Agrees-Restarts : (s : Switches) → Agrees s → Restarts s
unfolding boot is_enabled
Agrees-Restarts s h = elim (Option-cases (read_disabled s.disk)) [
  | inl bad ↦ absurd (rw bad at h)
  | inr (names, r) ↦
      let same : AgreesOn s (some names) = rw r at h in
      elim (Bool-cases (nat_eq (length (filter (is_known s.mounted) names)) (length names))) [
        | inl whole ↦ (
          record s { disabled = names },
          rw (r, whole) refl,
          λ cube. elim (Bool-cases (is_known s.mounted cube)) [
            | inl k ↦ ground (arith, same cube k)
            | inr k ↦ ground (arith, k)
          ],
        )
        | inr less ↦
            let cleaned = filter (is_known s.mounted) names in
            (
              record s { disk = holds (sort_names cleaned); disabled = cleaned },
              rw (r, less) refl,
              λ cube. elim (Bool-cases (is_known s.mounted cube)) [
                | inl k ↦
                    ground (arith, same cube k, contains-filter (is_known s.mounted) names cube, k)
                | inr k ↦ ground (arith, k)
              ],
            )
      ]
]

-- From any file that the boot could read, after any switching, where writes may fail: a boot from
-- the file that is left succeeds, and exactly the same cubes are enabled.
pub Reaches-Restarts :
    (mounted : List Mounted) (disk : Disk) (writes : Bool) (a s : Switches)
    → (boot mounted disk writes).0 ≡ some a
    → Reaches a s
    → Restarts s
Reaches-Restarts mounted disk writes a s h r =
    Agrees-Restarts s (Reaches-Agrees (boot-Agrees mounted disk writes a h) r)
