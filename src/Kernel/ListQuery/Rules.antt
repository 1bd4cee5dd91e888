-- ===== src/Kernel/ListQuery/Rules.antt =====
-- What the list contract promises: only declared fields are filtered by, and `ids` is a batch.
use qwbe.Prelude.{
  ◌≡◌, ◌≢◌, ◌⊎◌, inl, inr, is_some, refl, sym, ap, ◌∙◌, String, Bool, true, false, not, ◌&&◌, ◌||◌,
  Option, none, some, List, [], ◌∷◌, ◌++◌, ◌==◌, arith, contains, contains-append, filter, trim,
  or_else, eq_iff, eq_refl, ◌↔◌, IsIn, Bool-cases, Option-cases,
}
use mathlib.Core.Path.{subst}
use mathlib.Core.Option.{some-injective}
use qwbe.Kernel.Where.{ListWhere, Search}
use qwbe.Kernel.ListQuery.{
  ListParams, Declarations, may_filter, search_fields, filter_fields, sort_names, insert_name,
  distinct, ids_of, equals_of, asked_ids, asked_search, filters, list_where_of,
}

-- The manifest declares the field, as searchable or as a relation, and it may be a parameter.
abbrev pub declares_filter : Declarations → String → Bool
declares_filter m field =
    (contains m.searchable field || contains m.relations field) && may_filter field

contains-filter :
    (p : String → Bool) (xs : List String) (f : String)
    → contains (filter p xs) f ≡ (contains xs f && p f)
contains-filter p [] f = refl
contains-filter p (x ∷ xs) f = elim (Bool-cases (x == f)) [
  | inl same ↦ rw ((eq_iff x f).0 same) (ground (arith, contains-filter p xs f))
  | inr other ↦ ground (arith, other, contains-filter p xs f)
]

contains-insert_name :
    (x : String) (xs : List String) (f : String)
    → contains (insert_name x xs) f ≡ (x == f || contains xs f)
unfolding insert_name
contains-insert_name x [] f = refl
contains-insert_name x (y ∷ ys) f = ground (arith, contains-insert_name x ys f)

contains-sort_names : (xs : List String) (f : String) → contains (sort_names xs) f ≡ contains xs f
unfolding sort_names
contains-sort_names [] f = refl
contains-sort_names (x ∷ xs) f =
    ground (arith, contains-insert_name x (sort_names xs) f, contains-sort_names xs f)

contains-distinct :
    (seen xs : List String) (f : String)
    → contains (distinct seen xs) f ≡ (contains xs f && not (contains seen f))
unfolding distinct
contains-distinct seen [] f = refl
contains-distinct seen (x ∷ xs) f = elim (Bool-cases (x == f)) [
  | inl same ↦ rw ((eq_iff x f).0 same) (elim (Bool-cases (contains seen f)) [
    | inl known ↦ rw known (ground (arith, known, contains-distinct seen xs f))
    | inr fresh ↦ rw fresh (ground (arith, eq_refl f))
  ])
  | inr other ↦
      ground (arith, other, contains-distinct seen xs f, contains-distinct (x ∷ seen) xs f)
]

-- `filterFields` has exactly the fields that are declared and may be a parameter.
filter_fields-declares :
    (m : Declarations) (f : String) → contains (filter_fields m) f ≡ declares_filter m f
unfolding filter_fields search_fields
filter_fields-declares m f =
    let searched = filter may_filter m.searchable in
    contains-sort_names (filter may_filter (distinct [] (searched ++ m.relations))) f
    ∙ contains-filter may_filter (distinct [] (searched ++ m.relations)) f
    ∙ ground (
      arith,
      contains-distinct [] (searched ++ m.relations) f,
      contains-append searched m.relations f,
      contains-filter may_filter m.searchable f,
    )

-- Every field gets the text that the query gives it, where it is one and not empty.
equals_of-IsIn :
    (raw : String → Option String) (fields : List String) (field value : String)
    → IsIn (field, value) (equals_of raw fields)
    → (contains fields field ≡ true) × (raw field ≡ some value) × ((value == "") ≡ false)
unfolding equals_of
equals_of-IsIn raw [] field value m = absurd m
equals_of-IsIn raw (f ∷ fields) field value m = elim (Option-cases (raw f)) [
  | inl missing ↦
      let found = equals_of-IsIn raw fields field value (rw missing at m) in
      (ground (arith, found.0), found.1, found.2)
  | inr (text, given) ↦ elim (Bool-cases (text == "")) [
    | inl empty ↦
        let found = equals_of-IsIn raw fields field value (rw (given, empty) at m) in
        (ground (arith, found.0), found.1, found.2)
    | inr full ↦ elim (rw (given, full) at m) [
      | inl e ↦
          let this : field ≡ f = ap (λ (pair : String × String). pair.0) e in
          let value_is : value ≡ text = ap (λ (pair : String × String). pair.1) e in
          (rw this (ground (arith, eq_refl f)), rw (this, value_is) given, rw value_is full)
      | inr n ↦
          let found = equals_of-IsIn raw fields field value n in
          (ground (arith, found.0), found.1, found.2)
    ]
  ]
]

IsIn-equals_of :
    (raw : String → Option String) (fields : List String) (field value : String)
    → contains fields field ≡ true
    → raw field ≡ some value
    → (value == "") ≡ false
    → IsIn (field, value) (equals_of raw fields)
unfolding equals_of
IsIn-equals_of raw [] field value listed given full = absurd (cc)
IsIn-equals_of raw (f ∷ fields) field value listed given full = elim (Bool-cases (f == field)) [
  | inl same ↦ rw ((eq_iff f field).0 same, given, full) (inl refl)
  | inr other ↦
      let rest = IsIn-equals_of raw fields field value (ground (arith, listed, other)) given full in
      elim (Option-cases (raw f)) [
        | inl missing ↦ rw missing rest
        | inr (text, found) ↦ elim (Bool-cases (text == "")) [
          | inl empty ↦ rw (found, empty) rest
          | inr some_text ↦ rw (found, some_text) (inr rest)
        ]
      ]
]

none-ne-some : (v : Search) → none ≡ some v → ⊥
none-ne-some v h = cc

module _ (raw : String → Option String) (m : Declarations) where
  -- What the store is asked for: an equality for each declared field that may be a parameter and has
  -- a text in the query, and no other; a search in declared fields; and something is asked of it.
  abbrev pub IsAsked : ListWhere → Type 0
  IsAsked (ListWhere.list_where equals ids sets range q gs n) =
      ((field value : String)
        → IsIn (field, value) equals
          ↔ ((declares_filter m field ≡ true) × (raw field ≡ some value) × ((value == "") ≡ false)))
      × ((search : Search)
          → q ≡ some search
          → (field : String)
          → contains search.fields field ≡ (contains m.searchable field && may_filter field))
      × ((equals ≢ []) ⊎ ((is_some ids ≡ true) ⊎ (is_some q ≡ true)))

  equals_of_iff :
      (field value : String)
      → IsIn (field, value) (equals_of raw (filter_fields m))
        ↔ ((declares_filter m field ≡ true) × (raw field ≡ some value) × ((value == "") ≡ false))
  equals_of_iff field value = (
    λ i.
        let found = equals_of-IsIn raw (filter_fields m) field value i in
        (sym (filter_fields-declares m field) ∙ found.0, found.1, found.2),
    λ h.
        IsIn-equals_of raw (filter_fields m) field value (filter_fields-declares m field ∙ h.0) h.1
          h.2,
  )

  asked_search-fields :
      (text : String) (fields : List String) (search : Search)
      → asked_search text fields ≡ some search
      → search.fields ≡ fields
  asked_search-fields text [] search h = absurd (cc)
  asked_search-fields text (f ∷ fields) search h = elim (Bool-cases (text == "")) [
    | inl empty ↦ absurd (none-ne-some search (rw empty at h))
    | inr full ↦ ap (λ (s : Search). s.fields) (sym (some-injective _ search (rw full at h)))
  ]

  search_declares :
      (text : String) (search : Search)
      → asked_search text (search_fields m) ≡ some search
      → (field : String)
      → contains search.fields field ≡ (contains m.searchable field && may_filter field)
  unfolding search_fields
  search_declares text search h field =
      ap (λ l. contains l field) (asked_search-fields text (search_fields m) search h)
      ∙ contains-filter may_filter m.searchable field

  filters-IsAsked :
      (equals : List (String × String)) (ids : Option (List String)) (q : Option Search)
      (w : ListWhere)
      → ((field value : String)
          → IsIn (field, value) equals ↔ (
              (declares_filter m field ≡ true)
              × (raw field ≡ some value)
              × ((value == "") ≡ false)))
      → ((search : Search)
          → q ≡ some search
          → (field : String)
          → contains search.fields field ≡ (contains m.searchable field && may_filter field))
      → filters equals ids q ≡ some w
      → IsAsked w
  filters-IsAsked [] none none w h k e = cc
  filters-IsAsked [] none (some s) w h k e =
      subst IsAsked (some-injective _ _ e) (h, k, inr (inr refl))
  filters-IsAsked [] (some ids) q w h k e =
      subst IsAsked (some-injective _ _ e) (h, k, inr (inl refl))
  filters-IsAsked (x ∷ xs) ids q w h k e =
      subst IsAsked (some-injective _ _ e) (h, k, inl (λ p. cc))

  -- For every query and manifest: the filter that the store gets, when there is one, compares exactly
  -- the fields that the manifest declares, that may be parameters, and to which the query gives a
  -- text that is not empty, each with its text; it searches in exactly the searchable fields that
  -- may be parameters, and it holds at least one condition.
  pub list_where_of-IsAsked :
      (p : ListParams) (w : ListWhere) → list_where_of p raw m ≡ some w → IsAsked w
  unfolding list_where_of
  list_where_of-IsAsked p w h =
      filters-IsAsked (equals_of raw (filter_fields m)) (asked_ids (ids_of p.ids))
        (asked_search (trim (or_else p.q "")) (search_fields m)) w equals_of_iff
        (search_declares (trim (or_else p.q ""))) h
