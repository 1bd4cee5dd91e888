-- ===== src/Mounting/Switches/Setting.antt =====
-- core/src/kernel/state.ts, set: what a switch changes.
use qwbe.Prelude.{
  String, Bool, true, false, not, ◌≡◌, refl, ap, ◌∙◌, ◌&&◌, inl, inr, Option, none, some, is_some,
  List, [], ◌∷◌, ◌==◌, arith, eq_iff, contains, contains-append, Bool-cases, Option-cases,
  if◌then◌else◌,
}
use qwbe.Kernel.ListQuery.Names.{contains-filter}
use qwbe.Mounting.Switches.{
  Mounted, Switches, Answer, refused, changes, required_cube, unknown_cube, state_file, known_get,
  is_known, is_enabled, changed, set,
}

pub contains-changed :
    (enabled : Bool) (cube : String) (disabled : List String) (other : String)
    → contains (changed enabled cube disabled) other
      ≡ (if cube == other then not enabled else contains disabled other)
contains-changed true cube disabled other =
    contains-filter (λ name. not (name == cube)) disabled other
    ∙ ground (arith, eq_iff cube other, eq_iff other cube)
contains-changed false cube disabled other =
    ground (arith, eq_iff cube other, contains-append disabled (cube ∷ []) other)

abbrev pub requires : Option Mounted → Bool
requires none = false
requires (some m) = m.required

module _ (writes : Bool) (cube : String) (enabled : Bool) (s : Switches) where
  -- Whether the cube may not be switched off.
  abbrev pub is_required : Bool
  is_required = requires (known_get s.mounted cube)

  abbrev pub SetEnds : Answer × Switches → Type 0
  SetEnds (refused unknown_cube, s') = (s' ≡ s) × (is_known s.mounted cube ≡ false)
  SetEnds (refused required_cube, s') = (s' ≡ s) × (is_required ≡ true) × (enabled ≡ false)
  SetEnds (refused state_file, s') = (s' ≡ s) × (writes ≡ false)
  SetEnds (changes announced, s') =
      ((other : String)
        → is_enabled s' other ≡ (if cube == other then enabled else is_enabled s other))
      × (announced ≡ (if enabled then some cube else none))
      × ((is_required && not enabled) ≡ false)

  set_known-is_enabled :
      (m : Mounted)
      → known_get s.mounted cube ≡ some m
      → (other : String)
      → (is_known s.mounted other && not (contains (changed enabled cube s.disabled) other))
        ≡ (if cube == other then enabled else is_enabled s other)
  unfolding is_enabled
  set_known-is_enabled m k other =
      ground (arith, eq_iff cube other, contains-changed enabled cube s.disabled other)

  -- `set` refuses a cube that is not mounted, switching a required cube off, and a file that
  -- cannot be written, and then changes nothing; otherwise exactly the one cube is switched, no
  -- required one is switched off, and the return of a cube is announced.
  pub set-SetEnds : SetEnds (set writes cube enabled s)
  unfolding set is_enabled
  set-SetEnds = elim (Option-cases (known_get s.mounted cube)) [
    | inl missing ↦ rw missing (refl, ap is_some missing)
    | inr (m, known) ↦ elim (Bool-cases (m.required && not enabled)) [
      | inl fixed ↦ rw (known, fixed) (refl, ground (arith, known, fixed), ground (arith, fixed))
      | inr free ↦ elim (Bool-cases writes) [
        | inr full ↦ rw (known, free, full) (refl, refl)
        | inl fits ↦
            rw (known, free, fits)
              (λ other. set_known-is_enabled m known other, refl, ground (arith, known, free))
      ]
    ]
  ]
