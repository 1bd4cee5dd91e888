-- ===== src/Kernel/ListQuery.antt =====
-- core/src/kernel/list.ts and core/src/metadata/declarations.ts: from the query string of a list
-- route and the manifest of its cube to the page and the filter that the store is asked for.
pub mod Rules
pub mod Names
pub mod Batches
use qwbe.Prelude.{
  ℕ, String, Bool, true, false, not, ◌&&◌, ◌||◌, Option, none, some, or_else, is_some, List, [],
  ◌∷◌, ◌++◌, ◌==◌, map, filter, contains, head, length, min, trim, split, if◌then◌else◌,
}
use qwbe.Kernel.Numbers.{JsNumber, finite}
use qwbe.Kernel.Paging.{
  PageRequest, PageParams, page_request, is_field_name, default_limit, max_limit,
}
use qwbe.Kernel.Where.{text_le, ListWhere, list_where, Search, no_groups, no_not}

-- `ListParams`: the fixed half of the query, each part absent or read.
pub record ListParams : Type 0 where
  pub offset : Option JsNumber
  pub limit : Option JsNumber
  pub sort_by : Option String
  pub descending : Option Bool
  pub page : Option JsNumber
  pub page_size : Option JsNumber
  pub sort : Option String
  pub q : Option String
  pub ids : Option String

-- `MetadataDeclarations`, of which the list reads two parts; `relations` holds the field names.
pub record Declarations : Type 0 where
  pub searchable : List String
  pub relations : List String

-- `LIST_PARAMS`.
abbrev pub reserved : List String
reserved =
    "offset" ∷ "limit" ∷ "sortBy" ∷ "descending" ∷ "page" ∷ "pageSize" ∷ "sort" ∷ "q" ∷ "ids" ∷ []

unfoldable pub may_filter : String → Bool
may_filter field = is_field_name field && not (contains reserved field)

-- `searchFields`
unfoldable pub search_fields : Declarations → List String
search_fields m = filter may_filter m.searchable

-- `[...new Set(names)]`: the first of each name
unfoldable pub distinct : List String → List String → List String
distinct seen [] = []
distinct seen (x ∷ xs) =
    let rest = distinct (x ∷ seen) xs in if contains seen x then distinct seen xs else x ∷ rest

insert_name : String → List String → List String
insert_name x [] = x ∷ []
insert_name x (y ∷ ys) = if text_le x y then x ∷ y ∷ ys else y ∷ insert_name x ys

-- `names.sort()`
unfoldable pub sort_names : List String → List String
unfolding insert_name
sort_names [] = []
sort_names (x ∷ xs) = insert_name x (sort_names xs)

-- `filterFields`
unfoldable pub filter_fields : Declarations → List String
unfolding search_fields distinct sort_names
filter_fields m = sort_names (filter may_filter (distinct [] (search_fields m ++ m.relations)))

-- `idsOf`
unfoldable pub ids_of : Option String → List String
ids_of raw = filter (λ s. not (s == "")) (map trim (split b',' (or_else raw "")))

abbrev int : ℕ → JsNumber
int n = finite false n 0

abbrev size_or : Option JsNumber → Option JsNumber → Option JsNumber
size_or none other = other
size_or (some n) other = some n

-- the limit: the size that was asked for, else the number of ids, else the default
abbrev pub limit_of : Option JsNumber → List String → JsNumber
limit_of (some size) ids = size
limit_of none [] = int default_limit
limit_of none (id ∷ ids) = int (min max_limit (length (id ∷ ids)))

abbrev sort_parts : Option String → List String
sort_parts sort = split b':' (or_else sort "")

abbrev sort_direction : List String → Bool
sort_direction (field ∷ direction ∷ rest) = direction == "desc"
sort_direction (field ∷ []) = false
sort_direction [] = false

abbrev sort_field : Option String → Option String → Option String
sort_field none sort_by = sort_by
sort_field (some field) sort_by = if field == "" then sort_by else some field

-- `listPageRequest`
unfoldable pub list_page_request : ListParams → PageRequest
unfolding page_request ids_of
list_page_request p = page_request (record {
  page = p.page;
  offset = p.offset;
  limit = some (limit_of (size_or p.page_size p.limit) (ids_of p.ids));
  sort_by = sort_field (head (sort_parts p.sort)) p.sort_by;
  descending =
      some
        (if is_some p.sort then sort_direction (sort_parts p.sort) else or_else p.descending false);
})

abbrev asked : String → Option String → List (String × String) → List (String × String)
asked field none rest = rest
asked field (some value) rest = if value == "" then rest else (field, value) ∷ rest

-- a filter for each field that the raw query gives a text
unfoldable pub equals_of : (String → Option String) → List String → List (String × String)
equals_of raw [] = []
equals_of raw (field ∷ fields) = asked field (raw field) (equals_of raw fields)

abbrev pub asked_ids : List String → Option (List String)
asked_ids [] = none
asked_ids (id ∷ ids) = some (id ∷ ids)

abbrev pub asked_search : String → List String → Option Search
asked_search text [] = none
asked_search text (field ∷ fields) =
    if text == "" then none else some (record { text = text; fields = field ∷ fields })

abbrev pub filters :
    List (String × String) → Option (List String) → Option Search → Option ListWhere
filters [] none none = none
filters equals ids q = some (list_where equals ids [] none q no_groups no_not)

-- `listWhere`
unfoldable pub list_where_of :
    ListParams → (String → Option String) → Declarations → Option ListWhere
unfolding equals_of ids_of
list_where_of p raw manifest =
    filters (equals_of raw (filter_fields manifest)) (asked_ids (ids_of p.ids))
      (asked_search (trim (or_else p.q "")) (search_fields manifest))
