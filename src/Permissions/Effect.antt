-- ===== src/Permissions/Effect.antt =====
-- The `Effect.gen` blocks of core/src/cubes/permissions: what a block has written before it fails
-- stays written, so the state comes back beside a failure too. Messages are left out of the errors.
use qwbe.Prelude.{Bool, true, false}

-- `PermissionServiceError`.
pub data PermissionError : Type 0 where
  not_found invalid conflict forbidden : PermissionError

pub data Outcome {ℓ} (A : Type ℓ) : Type ℓ where
  success : A → Outcome A
  failure : PermissionError → Outcome A

abbrev pub Effect {ℓ} : Type ℓ → Type ℓ → Type ℓ
Effect S A = S → Outcome A × S

module _ {ℓ} {S A : Type ℓ} where
  -- `return value`
  abbrev pub succeed : A → Effect S A
  succeed a s = (success a, s)

  -- `Effect.fail(error)`
  abbrev pub fail : PermissionError → Effect S A
  fail e s = (failure e, s)

  -- a read of the store, which cannot fail
  abbrev pub gets : (S → A) → Effect S A
  gets read s = (success (read s), s)

module _ {ℓ} {S A B : Type ℓ} where
  abbrev pub after : Outcome A → S → (A → Effect S B) → Outcome B × S
  after (success a) s next = next a s
  after (failure e) s next = (failure e, s)

  infixl 5 ◌>>=◌ ◌>>◌
  -- `yield*`
  abbrev pub ◌>>=◌ : Effect S A → (A → Effect S B) → Effect S B
  ◌>>=◌ m next s = after (m s).0 (m s).1 next

  abbrev pub ◌>>◌ : Effect S A → Effect S B → Effect S B
  m >> k = m >>= λ _. k

-- a write to the store
abbrev pub modify {ℓ} : {S : Type ℓ} → (S → S) → Effect S (Unit {ℓ})
modify write s = (success tt, write s)

-- `if (!test) return yield* Effect.fail(error)`
abbrev pub ensure {ℓ} : {S : Type ℓ} → Bool → PermissionError → Effect S (Unit {ℓ})
ensure true e s = (success tt, s)
ensure false e s = (failure e, s)
