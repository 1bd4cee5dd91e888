-- ===== src/Prelude/Lists.antt =====
-- Lists measured and searched by Boolean tests, as the array methods of the source do it.
use Prim.Native.Nat.{ℕ, suc, ◌+◌, zero}
use mathlib.Core.Path.{◌≡◌, refl}
use mathlib.Core.Bool.{Bool, true, false, ◌&&◌, ◌||◌}
use mathlib.Core.Option
use mathlib.Core.Option.{Option, none, some}
use mathlib.Core.List.{List, [], ◌∷◌, ◌++◌, map}
use native.Mathlib.Omega.{arith}
use qwbe.Prelude.Tests.{if◌then◌else◌, is_some}

module _ {ℓ} {A : Type ℓ} where
  abbrev pub length : List A → ℕ
  length [] = 0
  length (x ∷ xs) = suc (length xs)

  abbrev pub any : (A → Bool) → List A → Bool
  any p [] = false
  any p (x ∷ xs) = p x || any p xs

  abbrev pub all : (A → Bool) → List A → Bool
  all p [] = true
  all p (x ∷ xs) = p x && all p xs

  -- `xs.filter(p)`.
  abbrev pub filter : (A → Bool) → List A → List A
  filter p [] = []
  filter p (x ∷ xs) = if p x then x ∷ filter p xs else filter p xs

  -- `xs.find(p)`.
  abbrev pub find : (A → Bool) → List A → Option A
  find p [] = none
  find p (x ∷ xs) = if p x then some x else find p xs

  abbrev pub head : List A → Option A
  head [] = none
  head (x ∷ xs) = some x

  abbrev pub take : ℕ → List A → List A
  take zero xs = []
  take (suc n) [] = []
  take (suc n) (x ∷ xs) = x ∷ take n xs

  abbrev pub drop : ℕ → List A → List A
  drop zero xs = xs
  drop (suc n) [] = []
  drop (suc n) (x ∷ xs) = drop n xs

module _ {ℓ} {A : Type ℓ} where
  pub length-append : (xs ys : List A) → length (xs ++ ys) ≡ length xs + length ys
  length-append [] ys = omega arith
  length-append (x ∷ xs) ys = omega (arith, length-append xs ys)

  pub append-eq-nil : (xs ys : List A) → xs ++ ys ≡ [] → (xs ≡ []) × (ys ≡ [])
  append-eq-nil [] ys h = (refl, h)
  append-eq-nil (x ∷ xs) ys h = absurd (cc)

  pub any-append : (p : A → Bool) (xs ys : List A) → any p (xs ++ ys) ≡ (any p xs || any p ys)
  any-append p [] ys = refl
  any-append p (x ∷ xs) ys = ground (arith, any-append p xs ys)

  pub filter-append :
      (p : A → Bool) (xs ys : List A) → filter p (xs ++ ys) ≡ filter p xs ++ filter p ys
  filter-append p [] ys = refl
  filter-append p (x ∷ xs) ys = ground (arith, filter-append p xs ys)

  pub head-filter : (p : A → Bool) (xs : List A) → head (filter p xs) ≡ find p xs
  head-filter p [] = refl
  head-filter p (x ∷ xs) = ground (arith, head-filter p xs)

  pub find-is_some : (p : A → Bool) (xs : List A) {x : A} → find p xs ≡ some x → p x ≡ true
  find-is_some p [] h = cc
  find-is_some p (y ∷ xs) {x} h = ground (arith, find-is_some p xs {x = x})

  pub find-none : (p : A → Bool) (xs : List A) → any p xs ≡ false → find p xs ≡ none
  find-none p [] h = refl
  find-none p (x ∷ xs) h = ground (arith, find-none p xs)

  pub is_some-find : (p : A → Bool) (xs : List A) → is_some (find p xs) ≡ any p xs
  is_some-find p [] = refl
  is_some-find p (x ∷ xs) = ground (arith, is_some-find p xs)

  pub find-filter :
      (p q : A → Bool) (xs : List A) → find q (filter p xs) ≡ find (λ x. p x && q x) xs
  find-filter p q [] = refl
  find-filter p q (x ∷ xs) = ground (arith, find-filter p q xs)

  pub any-filter : (p q : A → Bool) (xs : List A) → any q (filter p xs) ≡ any (λ x. p x && q x) xs
  any-filter p q [] = refl
  any-filter p q (x ∷ xs) = ground (arith, any-filter p q xs)

  pub filter-filter :
      (p q : A → Bool) (xs : List A) → filter q (filter p xs) ≡ filter (λ x. p x && q x) xs
  filter-filter p q [] = refl
  filter-filter p q (x ∷ xs) = ground (arith, filter-filter p q xs)

  pub any-of-find :
      (p q : A → Bool) (xs : List A) {x : A}
      → find p xs ≡ some x
      → q x ≡ true
      → any (λ y. p y && q y) xs ≡ true
  any-of-find p q [] h k = cc
  any-of-find p q (y ∷ xs) {x} h k = ground (arith, any-of-find p q xs {x = x})

  pub any-false : (xs : List A) → any (λ x. false) xs ≡ false
  any-false [] = refl
  any-false (x ∷ xs) = any-false xs

  pub find-concat :
      (p : A → Bool) (xs : List A) (y : A)
      → find p (xs ++ y ∷ []) ≡ (if any p xs then find p xs else if p y then some y else none)
  find-concat p [] y = refl
  find-concat p (x ∷ xs) y = ground (arith, find-concat p xs y)

  -- A change that the test does not see keeps what is found, changed.
  pub find-map :
      (p : A → Bool) (f : A → A) (xs : List A)
      → ((x : A) → p (f x) ≡ p x)
      → find p (map f xs) ≡ Option.map f (find p xs)
  find-map p f [] h = refl
  find-map p f (x ∷ xs) h = ground (arith, h x, find-map p f xs h)
