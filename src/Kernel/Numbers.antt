-- ===== src/Kernel/Numbers.antt =====
-- The JavaScript numbers of a query string, and the integer arithmetic that the kernel does on them.
-- A finite double is an exact fraction; sums and products are exact here, where JavaScript rounds
-- above 2^53.
use qwbe.Prelude.{ℕ, zero, suc, ◌-◌, ◌/◌, ◌^◌, Bool, min, max, if◌then◌else◌}

-- `negsuc n` is -(n + 1).
pub data ℤ : Type 0 where
  pos : ℕ → ℤ
  negsuc : ℕ → ℤ

-- `finite negative n d` is n / (d + 1), with a minus sign if `negative`.
pub data JsNumber : Type 0 where
  nan infinity minus_infinity : JsNumber
  finite : (negative : Bool) (numerator denominator : ℕ) → JsNumber

abbrev pub negated : ℕ → ℤ
negated zero = pos 0
negated (suc n) = negsuc n

-- `Math.trunc` of a finite number.
abbrev pub trunc : Bool → ℕ → ℕ → ℤ
trunc negative n d = if negative then negated (n / suc d) else pos (n / suc d)

-- `Number.MAX_SAFE_INTEGER`.
abbrev pub max_safe_integer : ℕ
max_safe_integer = 2 ^ 53 - 1

-- `Math.min(MAX, Math.max(-MAX, z))`.
abbrev pub clamp_safe : ℤ → ℤ
clamp_safe (pos n) = pos (min max_safe_integer n)
clamp_safe (negsuc n) = negsuc (min (max_safe_integer - 1) n)

-- `Math.max(k, z)` for a natural number k.
abbrev pub at_least : ℕ → ℤ → ℕ
at_least k (pos n) = max k n
at_least k (negsuc n) = k
