-- ===== src/Kernel/Paging.antt =====
-- core/src/kernel/pagination.ts: the page request, normalised from outside.
pub mod Bounds
use Prim.Native.Char.{code}
use Prim.Native.String
use qwbe.Prelude.{
  ℕ, zero, suc, ◌+◌, ◌-◌, ◌*◌, String, Bool, true, false, ◌&&◌, ◌||◌, Option, none, some, or_else,
  min, nat_eq, leb, if◌then◌else◌,
}
use qwbe.Kernel.Numbers.{
  ℤ, pos, JsNumber, nan, infinity, minus_infinity, finite, trunc, clamp_safe, at_least,
}

-- `DEFAULT_LIMIT`.
abbrev pub default_limit : ℕ
default_limit = 25

-- `MAX_LIMIT`.
abbrev pub max_limit : ℕ
max_limit = 200

pub record PageRequest : Type 0 where
  pub offset : ℕ
  pub limit : ℕ
  pub sort_by : Option String
  pub descending : Bool

-- What `pageRequest` is given: every part may be absent.
pub record PageParams : Type 0 where
  pub page : Option JsNumber
  pub offset : Option JsNumber
  pub limit : Option JsNumber
  pub sort_by : Option String
  pub descending : Option Bool

abbrev is_letter : ℕ → Bool
is_letter c = (leb 65 c && leb c 90) || (leb 97 c && leb c 122) || nat_eq c 95

abbrev is_digit : ℕ → Bool
is_digit c = leb 48 c && leb c 57

all_name : String → Bool
all_name String.[] = true
all_name (String.◌∷◌ c s) = (is_letter (code c) || is_digit (code c)) && all_name s

-- `FIELD_NAME.test(s)`: a letter or underscore, then letters, digits or underscores.
unfoldable pub is_field_name : String → Bool
unfolding all_name
is_field_name String.[] = false
is_field_name (String.◌∷◌ c s) = is_letter (code c) && all_name s

-- `finiteInt`
unfoldable pub finite_int : Option JsNumber → ℕ → ℤ
finite_int (some (finite negative n d)) fallback = clamp_safe (trunc negative n d)
finite_int none fallback = pos fallback
finite_int (some nan) fallback = pos fallback
finite_int (some infinity) fallback = pos fallback
finite_int (some minus_infinity) fallback = pos fallback

abbrev pub capped_limit : Option JsNumber → ℕ
capped_limit limit = min max_limit (at_least 1 (finite_int limit default_limit))

abbrev pub offset_of : Option JsNumber → Option JsNumber → ℕ → ℕ
offset_of none offset limit = at_least 0 (finite_int offset 0)
offset_of (some page) offset limit = (at_least 1 (finite_int (some page) 1) - 1) * limit

-- `p.sortBy && FIELD_NAME.test(p.sortBy) ? p.sortBy : undefined`
abbrev pub safe_sort : Option String → Option String
safe_sort none = none
safe_sort (some field) = if is_field_name field then some field else none

-- `pageRequest`
unfoldable pub page_request : PageParams → PageRequest
unfolding finite_int is_field_name
page_request p = record {
  offset = offset_of p.page p.offset (capped_limit p.limit);
  limit = capped_limit p.limit;
  sort_by = safe_sort p.sort_by;
  descending = or_else p.descending false;
}
