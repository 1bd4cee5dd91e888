-- ===== src/Prelude/Splits.antt =====
-- Texts that are taken apart at one character.
use Prim.Native.String
use Prim.Native.String.{String}
use Prim.Native.Char.{Char, code}
use Prim.Native.Nat.{ℕ}
use text.Mathlib.TextLemmas.{nil-append, cons-append, append-nil, append_assoc}
use mathlib.Core.Path.{◌≡◌, refl, ap, ◌∙◌, sym}
use mathlib.Core.Bool.{Bool, true, not, ◌&&◌}
use mathlib.Core.Option.{some}
use native.Mathlib.Omega.{arith}
use qwbe.Prelude.Lists.{head}
use qwbe.Prelude.Tests.{nat_eq}
use qwbe.Prelude.Texts.{split, split_from}
pub use text.Mathlib.Text.{starts_with}
pub use text.Mathlib.TextEquality.{starts_with_iff}

-- The text does not hold the character.
unfoldable pub lacks : ℕ → String → Bool
lacks n String.[] = true
lacks n (String.◌∷◌ c s) = not (nat_eq (code c) n) && lacks n s

pub lacks-append : (n : ℕ) (s t : String) → lacks n (String.◌++◌ s t) ≡ (lacks n s && lacks n t)
unfolding lacks
lacks-append n String.[] t = ap (lacks n) (nil-append t)
lacks-append n (String.◌∷◌ c s) t =
    ap (lacks n) (cons-append c s t) ∙ ground (arith, lacks-append n s t)

-- one more character before the next separator
one_more :
    (part s : String) (c : Char)
    → String.◌++◌ (String.◌++◌ part (String.◌∷◌ c String.[])) s ≡ String.◌++◌ part (String.◌∷◌ c s)
one_more part s c =
    append_assoc part (String.◌∷◌ c String.[]) s
    ∙ ap (String.◌++◌ part) (cons-append c String.[] s ∙ ap (String.◌∷◌ c) (nil-append s))

-- The first part of a text ends where the separator stands first.
split_from-head :
    (n : ℕ) (c : Char) (part s rest : String)
    → code c ≡ n
    → lacks n s ≡ true
    → head (split_from n part (String.◌++◌ s (String.◌∷◌ c rest))) ≡ some (String.◌++◌ part s)
unfolding split_from lacks
split_from-head n c part String.[] rest e h =
    ap (λ t. head (split_from n part t)) (nil-append (String.◌∷◌ c rest))
    ∙ ground (arith, append-nil part)
split_from-head n c part (String.◌∷◌ d s) rest e h =
    ap (λ t. head (split_from n part t)) (cons-append d s (String.◌∷◌ c rest))
    ∙ ground (
      arith,
      split_from-head n c (String.◌++◌ part (String.◌∷◌ d String.[])) s rest e,
      one_more part s d,
    )

-- A text that starts with a part and the separator has that part first.
pub split-head :
    (c : Char) (s text : String)
    → lacks (code c) s ≡ true
    → starts_with text (String.◌++◌ s (String.◌∷◌ c String.[])) ≡ true
    → head (split (code c) text) ≡ some s
unfolding split
split-head c s text h k =
    let (rest, e) = (starts_with_iff text (String.◌++◌ s (String.◌∷◌ c String.[]))).0 k in
    ap (λ t. head (split_from (code c) "" t))
      (sym e
        ∙ append_assoc s (String.◌∷◌ c String.[]) rest
        ∙ ap (String.◌++◌ s) (cons-append c String.[] rest ∙ ap (String.◌∷◌ c) (nil-append rest)))
    ∙ split_from-head (code c) c "" s rest refl h
    ∙ ap some (nil-append s)
