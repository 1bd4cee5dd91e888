-- ===== src/Tests/Kernel.antt =====
-- The theorems about page requests and list queries, each at one input.
use qwbe.Prelude.{
  ℕ, List, ◌≡◌, refl, String, Option, some, none, split, trim, false, [], ◌∷◌, ◌==◌, arith,
  if◌then◌else◌,
}
use qwbe.Kernel.Numbers.{infinity, finite}
use qwbe.Kernel.Paging.{PageParams, page_request, is_field_name}
use qwbe.Kernel.Paging.Bounds.{IsBounded, page_request-IsBounded}
use qwbe.Kernel.Where.{ListWhere, no_groups, no_not}
use qwbe.Kernel.ListQuery.{ListParams, Declarations, list_where_of, filter_fields, may_filter}
use qwbe.Kernel.ListQuery.Rules.{IsAsked, list_where_of-IsAsked}
use qwbe.Kernel.SortKey.{Double, number, sort_key}
use qwbe.Kernel.SortKey.Hex.{text_lt}
use qwbe.Kernel.SortKey.Order.{value_lt, sort_key-value_lt}

-- page infinity of 50 rows
abbrev last_page : PageParams
last_page = record {
  page = some infinity;
  offset = none;
  limit = some (finite false 50 0);
  sort_by = none;
  descending = none;
}

page_request-IsBounded_example : IsBounded (page_request last_page)
page_request-IsBounded_example = page_request-IsBounded last_page

abbrev status_query : ListParams
status_query = record {
  offset = none;
  limit = none;
  sort_by = none;
  descending = none;
  page = none;
  page_size = none;
  sort = none;
  q = none;
  ids = none;
}

abbrev statuses : Declarations
statuses = record { searchable = "status" ∷ "ids" ∷ []; relations = "ownerId" ∷ [] }

abbrev raw_query : String → Option String
raw_query name = if name == "status" then some "open" else none

abbrev open_items : ListWhere
open_items = ListWhere.list_where (("status", "open") ∷ []) none [] none none no_groups no_not

list_where_of-IsAsked_example : IsAsked raw_query statuses open_items
unfolding list_where_of filter_fields may_filter is_field_name split trim
list_where_of-IsAsked_example =
    list_where_of-IsAsked raw_query statuses status_query open_items refl

abbrev batch_query : ListParams
batch_query = record status_query { ids = some "a, b,c" }

-- one and minus one half
abbrev one : Double
one = record { hi = 0x3ff00000; lo = 0 }

abbrev minus_half : Double
minus_half = record { hi = 0xbfe00000; lo = 0 }

-- texts of one byte each
abbrev one_byte : String → List ℕ
one_byte s = b'a' ∷ []

sort_key-value_lt_example :
    text_lt (sort_key one_byte (number minus_half)) (sort_key one_byte (number one))
    ≡ value_lt one_byte (number minus_half) (number one)
sort_key-value_lt_example =
    sort_key-value_lt one_byte (λ s. refl) (number minus_half) (number one)
      (omega arith, omega arith) (omega arith, omega arith)
