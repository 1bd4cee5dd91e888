-- ===== src/Kernel/Paging/Bounds.antt =====
-- The bounds of a normalised page request, and that its pages tile the rows.
use qwbe.Prelude.{ℕ, ◌+◌, ◌-◌, ◌*◌, ◌/◌, ◌^◌, ◌≤◌, ◌<◌, ◌≡◌, refl, Option, some, none, arith, false}
use Prim.Native.Nat.{max, min}
use native.Mathlib.Nat.{mul-le-mul}
use qwbe.Kernel.Numbers.{
  ℤ, pos, negsuc, JsNumber, nan, infinity, minus_infinity, finite, at_least, max_safe_integer,
}
use qwbe.Kernel.Paging.{
  PageParams, PageRequest, page_request, finite_int, capped_limit, offset_of, max_limit,
}

abbrev pub IsSafe : ℤ → Type 0
IsSafe (pos n) = n ≤ max_safe_integer
IsSafe (negsuc n) = n < max_safe_integer

finite_int-IsSafe :
    (o : Option JsNumber) (fallback : ℕ)
    → fallback ≤ max_safe_integer
    → IsSafe (finite_int o fallback)
unfolding finite_int
finite_int-IsSafe none fallback h = h
finite_int-IsSafe (some nan) fallback h = h
finite_int-IsSafe (some infinity) fallback h = h
finite_int-IsSafe (some minus_infinity) fallback h = h
finite_int-IsSafe (some (finite negative n d)) fallback h = ground arith

-- A page request as the store may be given it.
abbrev pub IsBounded : PageRequest → Type 0
IsBounded r = (1 ≤ r.limit) × (r.limit ≤ max_limit) × (r.offset < 2 ^ 63)

at_least-le : (k : ℕ) (z : ℤ) → k ≤ max_safe_integer → IsSafe z → at_least k z ≤ max_safe_integer
at_least-le k (pos n) h i = omega arith
at_least-le k (negsuc n) h i = omega arith

product-lt : (a b : ℕ) → a ≤ max_safe_integer → b ≤ max_limit → (a - 1) * b < 2 ^ 63
product-lt a b h k = omega (
  arith,
  mul-le-mul {n₁ = a - 1} {m₁ = b} {n₂ = max_safe_integer} {m₂ = max_limit} (omega arith) k,
)

capped_limit_bounds : (o : Option JsNumber) → (1 ≤ capped_limit o) × (capped_limit o ≤ max_limit)
capped_limit_bounds o = limit_bounds (finite_int o 25)
  where
    limit_bounds :
        (z : ℤ) → (1 ≤ min max_limit (at_least 1 z)) × (min max_limit (at_least 1 z) ≤ max_limit)
    limit_bounds (pos n) = omega arith
    limit_bounds (negsuc n) = omega arith

-- the row i lies on the page i / l, counted from 0
page_holds :
    (i l : ℕ)
    → i < max_safe_integer
    → 1 ≤ l
    → let start : ℕ = (max 1 (min max_safe_integer ((i / l + 1) / 1)) - 1) * l in
      (start ≤ i) × (i < start + l)
page_holds i l h k = grind arith

offset_of-lt :
    (page offset : Option JsNumber) (limit : ℕ)
    → limit ≤ max_limit
    → offset_of page offset limit < 2 ^ 63
offset_of-lt none offset limit h =
    let safe =
      at_least-le 0 (finite_int offset 0) (omega arith)
        (finite_int-IsSafe offset 0 (omega arith)) in
    omega arith
offset_of-lt (some page) offset limit h =
    product-lt (at_least 1 (finite_int (some page) 1)) limit
      (at_least-le 1 (finite_int (some page) 1) (omega arith)
        (finite_int-IsSafe (some page) 1 (omega arith)))
      h

-- Whatever the query holds, NaN, an infinity, a fraction or a number of any size: the limit of the
-- normalised request is between 1 and 200, and its offset fits a signed 64-bit integer.
pub page_request-IsBounded : (p : PageParams) → IsBounded (page_request p)
unfolding page_request
page_request-IsBounded p =
    let bounds = capped_limit_bounds p.limit in
    (bounds.0, bounds.1, offset_of-lt p.page p.offset (capped_limit p.limit) bounds.1)

-- With an asked limit, the page that holds row i for the limit in force serves it.
pub page_request-covers :
    (p : PageParams) (i : ℕ)
    → i < max_safe_integer
    → let r : PageRequest =
        page_request (record p { page = some (finite false (i / (page_request p).limit + 1) 0) }) in
      (r.limit ≡ (page_request p).limit) × (r.offset ≤ i) × (i < r.offset + r.limit)
unfolding page_request
page_request-covers p i h =
    let held = page_holds i (capped_limit p.limit) h (capped_limit_bounds p.limit).0 in
    (refl, held.0, held.1)
