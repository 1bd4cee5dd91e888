-- ===== src/Prelude/Members.antt =====
-- Membership by recursion, which the proofs take apart.
use mathlib.Core.Path.{◌≡◌, refl, sym}
use mathlib.Core.Option.{some, some-injective}
use mathlib.Core.Logic.{◌⊎◌, inl, inr}
use mathlib.Core.Bool.{Bool, true}
use mathlib.Core.List.{List, [], ◌∷◌, ◌++◌, map}
use native.Mathlib.Omega.{arith}
use qwbe.Prelude.Tests.{Bool-cases, &&_true}
use qwbe.Prelude.Lists.{any, all, find, filter}

module _ {A : Type 0} where
  abbrev pub IsIn : A → List A → Type 0
  IsIn x [] = ⊥
  IsIn x (y ∷ ys) = (x ≡ y) ⊎ IsIn x ys

  pub IsIn-append : (x : A) (xs ys : List A) → IsIn x (xs ++ ys) → IsIn x xs ⊎ IsIn x ys
  IsIn-append x [] ys h = inr h
  IsIn-append x (y ∷ xs) ys (inl e) = inl (inl e)
  IsIn-append x (y ∷ xs) ys (inr h) = elim (IsIn-append x xs ys h) [
    | inl a ↦ inl (inr a)
    | inr b ↦ inr b
  ]

  pub IsIn-filter :
      (p : A → Bool) (x : A) (xs : List A) → IsIn x xs → p x ≡ true → IsIn x (filter p xs)
  IsIn-filter p x [] h k = absurd h
  IsIn-filter p x (y ∷ xs) (inl e) k = rw (← e, k) (inl refl)
  IsIn-filter p x (y ∷ xs) (inr h) k = elim (Bool-cases (p y)) [
    | inl keep ↦ rw keep (inr (IsIn-filter p x xs h k))
    | inr leave ↦ rw leave (IsIn-filter p x xs h k)
  ]

  pub IsIn-of_filter :
      (p : A → Bool) (x : A) (xs : List A) → IsIn x (filter p xs) → IsIn x xs × (p x ≡ true)
  IsIn-of_filter p x [] h = absurd h
  IsIn-of_filter p x (y ∷ xs) h = elim (Bool-cases (p y)) [
    | inr leave ↦ let (a, b) = IsIn-of_filter p x xs (rw leave at h) in (inr a, b)
    | inl keep ↦ elim (rw keep at h) [
      | inl e ↦ (inl e, rw e keep)
      | inr k ↦ let (a, b) = IsIn-of_filter p x xs k in (inr a, b)
    ]
  ]

  pub any-of_IsIn : (p : A → Bool) (x : A) (xs : List A) → IsIn x xs → p x ≡ true → any p xs ≡ true
  any-of_IsIn p x [] h k = absurd h
  any-of_IsIn p x (y ∷ xs) (inl e) k = rw (← e, k) refl
  any-of_IsIn p x (y ∷ xs) (inr h) k = ground (arith, any-of_IsIn p x xs h k)

  -- What `any` found.
  pub IsIn-of_any :
      (p : A → Bool) (xs : List A) → any p xs ≡ true → (x : A) × IsIn x xs × (p x ≡ true)
  IsIn-of_any p [] h = absurd (cc)
  IsIn-of_any p (x ∷ xs) h = elim (Bool-cases (p x)) [
    | inl here ↦ (x, inl refl, here)
    | inr later ↦ let (y, m, k) = IsIn-of_any p xs (ground arith) in (y, inr m, k)
  ]

  pub IsIn-map :
      (f : A → A) (y : A) (xs : List A) → IsIn y (map f xs) → (x : A) × IsIn x xs × (y ≡ f x)
  IsIn-map f y [] h = absurd h
  IsIn-map f y (x ∷ xs) (inl e) = (x, inl refl, e)
  IsIn-map f y (x ∷ xs) (inr h) = let (z, m, k) = IsIn-map f y xs h in (z, inr m, k)

  -- Tests that agree on the members filter alike.
  pub filter-agree :
      (p q : A → Bool) (xs : List A) → ((x : A) → IsIn x xs → p x ≡ q x) → filter p xs ≡ filter q xs
  filter-agree p q [] h = refl
  filter-agree p q (x ∷ xs) h =
      ground (arith, h x (inl refl), filter-agree p q xs (λ y m. h y (inr m)))

  -- What `find` finds is a member that passes the test.
  pub IsIn-find :
      (p : A → Bool) (xs : List A) (x : A) → find p xs ≡ some x → IsIn x xs × (p x ≡ true)
  IsIn-find p [] x h = cc
  IsIn-find p (y ∷ xs) x h = elim (Bool-cases (p y)) [
    | inl here ↦ let e : y ≡ x = some-injective y x (rw here at h) in (inl (sym e), rw (← e) here)
    | inr later ↦ let (m, k) = IsIn-find p xs x (rw later at h) in (inr m, k)
  ]

  pub IsIn-of_all : (p : A → Bool) (x : A) (xs : List A) → all p xs ≡ true → IsIn x xs → p x ≡ true
  IsIn-of_all p x [] h m = absurd m
  IsIn-of_all p x (y ∷ xs) h (inl e) = rw e (&&_true (p y) (all p xs) h).0
  IsIn-of_all p x (y ∷ xs) h (inr m) = IsIn-of_all p x xs (&&_true (p y) (all p xs) h).1 m

  pub all-of_IsIn :
      (p : A → Bool) (xs : List A) → ((x : A) → IsIn x xs → p x ≡ true) → all p xs ≡ true
  all-of_IsIn p [] h = refl
  all-of_IsIn p (y ∷ xs) h = rw (h y (inl refl)) (all-of_IsIn p xs (λ x m. h x (inr m)))
