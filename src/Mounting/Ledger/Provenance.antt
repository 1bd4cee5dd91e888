-- ===== src/Mounting/Ledger/Provenance.antt =====
-- core/src/kernel/ledger.ts, migrate-ownership.ts, main.ts: what the record of a cube is worth over many
-- boots.
use qwbe.Prelude.{
  String, Bool, true, false, not, ◌≡◌, refl, sym, ap, ◌∙◌, ◌||◌, ◌⊎◌, inl, inr, Option, none, some,
  List, [], ◌∷◌, ◌++◌, ◌==◌, arith, all, map, eq_iff, IsIn, Bool-cases, if◌then◌else◌,
}
use mathlib.Core.Option.{some-injective}
use qwbe.Mounting.Migration.{
  DataMigration, same_plugin, Definition, ValidatedMigration, ok, last_of, mounted_in,
  legacy_authorized, check_migration_ownership,
}
use qwbe.Mounting.Migration.Owned.{same_plugin-eq, IsOwn, AllOwn, check_migration_ownership-AllOwn}
use qwbe.Mounting.Ledger.{without_key, set_owner, next_ledger, boot_entries}

last_of-without_key :
    (key c : String) (l : List (String × Option String))
    → last_of c (without_key key l) ≡ (if key == c then none else last_of c l)
unfolding last_of without_key
last_of-without_key key c [] = ground arith
last_of-without_key key c ((k, p) ∷ l) = elim (Bool-cases (k == key)) [
  | inl same ↦
      ground (arith, same, last_of-without_key key c l, eq_iff k key, eq_iff key c, eq_iff k c)
  | inr other ↦
      ground (arith, other, last_of-without_key key c l, eq_iff k key, eq_iff key c, eq_iff k c)
]

last_of-set_owner :
    (l : List (String × Option String)) (key : String) (plugin : Option String) (c : String)
    → last_of c (set_owner l key plugin) ≡ (if key == c then some plugin else last_of c l)
unfolding last_of set_owner
last_of-set_owner [] key plugin c = refl
last_of-set_owner ((k, p) ∷ l) key plugin c = elim (Bool-cases (k == key)) [
  | inl same ↦ ground (arith, same, last_of-without_key key c l, eq_iff k key)
  | inr other ↦ ground (arith, other, last_of-set_owner l key plugin c, eq_iff key c, eq_iff k c)
]

-- Only an entry of the name changes what is recorded.
abbrev Leaves : String → Option String → List (String × Option String) → Type 0
Leaves c p [] = Unit {0}
Leaves c p ((name, plugin) ∷ rest) = (((name == c) ≡ false) ⊎ (plugin ≡ p)) × Leaves c p rest

set_owner-keeps :
    (name : String) (plugin : Option String) (c : String) (p : Option String)
    (l : List (String × Option String))
    → last_of c l ≡ some p
    → ((name == c) ≡ false) ⊎ (plugin ≡ p)
    → (if name == c then some plugin else last_of c l) ≡ some p
set_owner-keeps name plugin c p l h (inl other) = ground (arith, other, h)
set_owner-keeps name plugin c p l h (inr same) = elim (Bool-cases (name == c)) [
  | inl here ↦ rw here (ap some same)
  | inr there ↦ rw there h
]

next_ledger-last_of :
    (l rest : List (String × Option String)) (c : String) (p : Option String)
    → last_of c l ≡ some p
    → Leaves c p rest
    → last_of c (next_ledger l rest) ≡ some p
unfolding next_ledger
next_ledger-last_of l [] c p h k = h
next_ledger-last_of l ((name, plugin) ∷ rest) c p h (own, k) =
    next_ledger-last_of (set_owner l name plugin) rest c p
      (last_of-set_owner l name plugin c ∙ set_owner-keeps name plugin c p l h own) k

Leaves-append :
    (c : String) (p : Option String) (xs ys : List (String × Option String))
    → Leaves c p xs
    → Leaves c p ys
    → Leaves c p (xs ++ ys)
Leaves-append c p [] ys h k = k
Leaves-append c p ((name, plugin) ∷ xs) ys (own, h) k = (own, Leaves-append c p xs ys h k)

-- Each definition of the name is of the package.
abbrev pub mounts_as : String → Option String → List Definition → Bool
mounts_as c p ds = all (λ (d : Definition). not (d.name == c) || same_plugin d.plugin p) ds

mounted_in-Leaves :
    (c : String) (p : Option String) (ds : List Definition)
    → mounts_as c p ds ≡ true
    → Leaves c p (mounted_in ds)
mounted_in-Leaves c p [] h = tt
mounted_in-Leaves c p (d ∷ ds) h = elim (Bool-cases (d.name == c)) [
  | inr other ↦ (inl other, mounted_in-Leaves c p ds (ground (arith, h)))
  | inl same ↦ (
    inr (same_plugin-eq d.plugin p (ground (arith, h, same))),
    mounted_in-Leaves c p ds (ground (arith, h)),
  )
]

abbrev sources : List ValidatedMigration → List (String × Option String)
sources vs = map (λ (v : ValidatedMigration). (v.migration.from_cube, v.declared_by)) vs

none-ne-some : (p : Option String) → none ≡ some p → ⊥
none-ne-some p h = cc

-- A migration that passes the ownership rules is of the package that the ledger names.
IsOwn-recorded :
    (mounted l : List (String × Option String)) (legacy : List (String × Option (Option String)))
    (c : String) (p plugin : Option String) (m : DataMigration)
    → last_of c l ≡ some p
    → IsOwn mounted l legacy plugin m
    → (m.from_cube == c) ≡ true
    → plugin ≡ p
IsOwn-recorded mounted l legacy c p plugin m h (to, claim, source, told) e =
    let same : m.from_cube ≡ c = (eq_iff m.from_cube c).0 e in
    let known : last_of m.from_cube l ≡ some p = ap (λ n. last_of n l) same ∙ h in
    elim told [
      | inl recorded ↦ some-injective plugin p (sym recorded ∙ known)
      | inr (missing, authorized) ↦ absurd (none-ne-some p (sym missing ∙ known))
    ]

sources-Leaves :
    (mounted l : List (String × Option String)) (legacy : List (String × Option (Option String)))
    (c : String) (p : Option String) (vs : List ValidatedMigration)
    → last_of c l ≡ some p
    → AllOwn mounted l legacy vs
    → Leaves c p (sources vs)
sources-Leaves mounted l legacy c p [] h k = tt
sources-Leaves mounted l legacy c p (v ∷ vs) h k = (
  elim (Bool-cases (v.migration.from_cube == c)) [
    | inr other ↦ inl other
    | inl same ↦
        inr (IsOwn-recorded mounted l legacy c p v.declared_by v.migration h (k v (inl refl)) same)
  ],
  sources-Leaves mounted l legacy c p vs h (λ w i. k w (inr i)),
)

-- The ledger after boots that pass the ownership rules, in each of which every cube of the name is of
-- the package. What is written is what the next boot reads.
pub data Boots (c : String) (p : Option String) (l : List (String × Option String))
    : List (String × Option String) → Type 0 where
  here : Boots c p l l
  next :
      {m : List (String × Option String)} (ds : List Definition) (legacy : String)
      (vs : List ValidatedMigration)
      → Boots c p l m
      → mounts_as c p ds ≡ true
      → check_migration_ownership ds m legacy ≡ ok vs
      → Boots c p l (next_ledger m (boot_entries ds vs))

Boots-last_of :
    (c : String) (p : Option String) (l : List (String × Option String))
    {m : List (String × Option String)}
    → last_of c l ≡ some p
    → Boots c p l m
    → last_of c m ≡ some p
unfolding boot_entries
Boots-last_of c p l h here = h
Boots-last_of c p l h (next {m} ds legacy vs r mounts passes) =
    let e = Boots-last_of c p l h r in
    next_ledger-last_of m (boot_entries ds vs) c p e (
      Leaves-append c p (mounted_in ds) (sources vs) (mounted_in-Leaves c p ds mounts) (
        sources-Leaves (mounted_in ds) m (legacy_authorized legacy) c p vs e
          (check_migration_ownership-AllOwn ds m legacy vs passes)))

-- Once the ledger records the owner of a cube, then after any boots in which no other package mounts a
-- cube of the name, whatever migrations are declared and whatever the operator authorizes, every migration of the
-- cube's data that passes is declared by that owner.
pub Boots-provenance :
    (c : String) (p : Option String) (l m : List (String × Option String)) (ds : List Definition)
    (legacy : String) (vs : List ValidatedMigration) (v : ValidatedMigration)
    → last_of c l ≡ some p
    → Boots c p l m
    → check_migration_ownership ds m legacy ≡ ok vs
    → IsIn v vs
    → (v.migration.from_cube == c) ≡ true
    → v.declared_by ≡ p
Boots-provenance c p l m ds legacy vs v h r passes i e =
    IsOwn-recorded (mounted_in ds) m (legacy_authorized legacy) c p v.declared_by v.migration
      (Boots-last_of c p l h r) (check_migration_ownership-AllOwn ds m legacy vs passes v i) e
