-- ===== src/Prelude/Texts.antt =====
-- Texts: the native `String` where the program only compares and joins whole texts.
use Prim.Native.String
use Prim.Native.String.{String}
use mathlib.Core.Path.{◌≡◌, refl}
use Prim.Native.Nat.{ℕ}
use Prim.Native.Char.{code}
use mathlib.Core.Bool.{Bool, true, false, ◌&&◌, ◌||◌}
use mathlib.Core.List.{List, [], ◌∷◌, ◌++◌, map}
use native.Mathlib.Omega.{arith}
use qwbe.Prelude.Lists.{any}
use qwbe.Prelude.Tests.{leb, nat_eq, if◌then◌else◌}
pub use text.Mathlib.Text.{◌==◌}
pub use text.Mathlib.TextEquality.{eq_iff}
pub use text.Mathlib.TextPositions.{eq_refl}

-- `names.includes(name)`.
abbrev pub contains : List String → String → Bool
contains [] s = false
contains (x ∷ xs) s = x == s || contains xs s

-- `texts.join(separator)`.
abbrev pub join : String → List String → String
join separator [] = ""
join separator (x ∷ []) = x
join separator (x ∷ y ∷ xs) = String.◌++◌ x (String.◌++◌ separator (join separator (y ∷ xs)))

-- The white space and line ends that `trim` removes.
abbrev pub is_space : ℕ → Bool
is_space c =
    (leb 9 c && leb c 13)
    || (nat_eq c 32
        || (nat_eq c 160
            || (nat_eq c 0x1680
                || ((leb 0x2000 c && leb c 0x200a)
                    || (nat_eq c 0x2028
                        || (nat_eq c 0x2029
                            || (nat_eq c 0x202f
                                || (nat_eq c 0x205f || (nat_eq c 0x3000 || nat_eq c 0xfeff)))))))))

trim_start : String → String
trim_start String.[] = ""
trim_start (String.◌∷◌ c s) = if is_space (code c) then trim_start s else String.◌∷◌ c s

abbrev cons_unless_blank : Bool → String → String → String
cons_unless_blank true whole String.[] = ""
cons_unless_blank true whole (String.◌∷◌ c s) = whole
cons_unless_blank false whole rest = whole

trim_end : String → String
trim_end String.[] = ""
trim_end (String.◌∷◌ c s) =
    let rest = trim_end s in cons_unless_blank (is_space (code c)) (String.◌∷◌ c rest) rest

-- `text.trim()`.
unfoldable pub trim : String → String
unfolding trim_start trim_end
trim s = trim_end (trim_start s)

unfoldable pub split_from : ℕ → String → String → List String
split_from separator part String.[] = part ∷ []
split_from separator part (String.◌∷◌ c s) = elim (nat_eq (code c) separator) [
  | true ↦ part ∷ split_from separator "" s
  | false ↦ split_from separator (String.◌++◌ part (String.◌∷◌ c String.[])) s
]

-- `text.split(separator)` at one character.
unfoldable pub split : ℕ → String → List String
unfolding split_from
split separator s = split_from separator "" s

pub contains-append :
    (xs ys : List String) (s : String) → contains (xs ++ ys) s ≡ (contains xs s || contains ys s)
contains-append [] ys s = refl
contains-append (x ∷ xs) ys s = ground (arith, contains-append xs ys s)

pub contains-map {ℓ} :
    {A : Type ℓ} (f : A → String) (xs : List A) (s : String)
    → contains (map f xs) s ≡ any (λ x. f x == s) xs
contains-map f [] s = refl
contains-map f (x ∷ xs) s = ground (arith, contains-map f xs s)
