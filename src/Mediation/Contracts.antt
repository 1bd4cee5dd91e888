-- ===== src/Mediation/Contracts.antt =====
-- Which cubes enforceEntityHandlers refuses, and which of their handlers it wraps.
use qwbe.Prelude.{
  String, Bool, true, false, not, ◌&&◌, ◌||◌, ◌≡◌, refl, sym, Option, none, some, is_some, List, [],
  ◌∷◌, ◌==◌, arith, any, nat_eq, eq_iff, eq_refl, ◌≢◌, ◌⊎◌, ◌∙◌, inl, inr, IsIn, true-ne-false,
  Bool-cases,
}
use mathlib.Core.Option.{some-injective}
use qwbe.Permissions.Model.{GrantAction, read, create, edit, delete, share, transfer}
use qwbe.Mediation.Endpoints.{
  Endpoint, Wrapper, guards_item, claims_created, mediates_list, action_of, Choice, refused,
  untouched, wrapped, has_page_shape, mediate_endpoint, by_parameters, put, after_choice,
  considered, protect, enforce_entity_handlers,
}

abbrev pub is_pageless_list : Endpoint → Bool
is_pageless_list e = e.method == "GET" && not (has_page_shape e)

abbrev unfit_parameters : List String → Bool → Bool
unfit_parameters [] b = b
unfit_parameters (p ∷ []) b = false
unfit_parameters (p ∷ q ∷ rest) b = true

abbrev has_parameters : List String → Bool → Bool
has_parameters [] b = b
has_parameters (p ∷ ps) b = true

-- No 403, two or more path parameters, or a list without the fields of a page.
abbrev pub breaks : Endpoint → Bool
breaks e =
    not (any (nat_eq 403) e.error_statuses) || unfit_parameters e.parameters (is_pageless_list e)

-- An item, create or list route.
abbrev pub reaches_entities : Endpoint → Bool
reaches_entities e = has_parameters e.parameters (e.method == "POST" || e.method == "GET")

abbrev is_refused : Choice → Bool
is_refused refused = true
is_refused untouched = false
is_refused (wrapped w) = false

abbrev is_wrapped : Choice → Bool
is_wrapped refused = false
is_wrapped untouched = false
is_wrapped (wrapped w) = true

post_or_get : (method : String) → (method == "POST" && method == "GET") ≡ false
post_or_get method = elim (Bool-cases (method == "POST")) [
  | inl e ↦ rw ((eq_iff method "POST").0 e) refl
  | inr n ↦ rw n refl
]

by_parameters-refused :
    (e : Endpoint) (ps : List String)
    → is_refused (by_parameters e ps) ≡ unfit_parameters ps (is_pageless_list e)
by_parameters-refused e [] = ground (arith, post_or_get e.method)
by_parameters-refused e (p ∷ []) = refl
by_parameters-refused e (p ∷ q ∷ rest) = refl

mediate_endpoint-refused : (e : Endpoint) → is_refused (mediate_endpoint e) ≡ breaks e
unfolding mediate_endpoint
mediate_endpoint-refused e = ground (arith, by_parameters-refused e e.parameters)

by_parameters-wrapped :
    (e : Endpoint) (ps : List String)
    → unfit_parameters ps (is_pageless_list e) ≡ false
    → is_wrapped (by_parameters e ps) ≡ has_parameters ps (e.method == "POST" || e.method == "GET")
by_parameters-wrapped e [] h = ground (arith, h)
by_parameters-wrapped e (p ∷ []) h = refl
by_parameters-wrapped e (p ∷ q ∷ rest) h = ground (arith, h)

mediate_endpoint-wrapped :
    (e : Endpoint) → breaks e ≡ false → is_wrapped (mediate_endpoint e) ≡ reaches_entities e
unfolding mediate_endpoint
mediate_endpoint-wrapped e h = ground (arith, h, by_parameters-wrapped e e.parameters)

-- The action that a method stands for.
abbrev pub Asks : String → GrantAction → Type 0
Asks method read = method ≡ "GET"
Asks method delete = method ≡ "DELETE"
Asks method edit = (method ≢ "GET") × (method ≢ "DELETE")
Asks method create = ⊥
Asks method share = ⊥
Asks method transfer = ⊥

-- The wrapper is the one that protects the route: the decision about its entity for an item route, the
-- claim of what was created for a POST, and the visible ids for a list.
abbrev pub Fits : Endpoint → Wrapper → Type 0
Fits e (guards_item p action) = (e.parameters ≡ p ∷ []) × Asks e.method action
Fits e claims_created = (e.parameters ≡ []) × (e.method ≡ "POST")
Fits e mediates_list = (e.parameters ≡ []) × ((e.method ≡ "GET") × (has_page_shape e ≡ true))

differs : (a b : String) → (a == b) ≡ false → a ≢ b
differs a b h e = true-ne-false (sym (eq_refl b) ∙ (rw e at h))

action_of-Asks : (method : String) → Asks method (action_of method)
action_of-Asks method = elim (Bool-cases (method == "GET")) [
  | inl get ↦ rw get ((eq_iff method "GET").0 get)
  | inr other ↦ elim (Bool-cases (method == "DELETE")) [
    | inl remove ↦ rw (other, remove) ((eq_iff method "DELETE").0 remove)
    | inr rest ↦ rw (other, rest) (differs method "GET" other, differs method "DELETE" rest)
  ]
]

abbrev ChoiceFits : Endpoint → Choice → Type 0
ChoiceFits e refused = Unit
ChoiceFits e untouched = Unit
ChoiceFits e (wrapped w) = Fits e w

by_parameters-Fits :
    (e : Endpoint) (ps : List String) → e.parameters ≡ ps → ChoiceFits e (by_parameters e ps)
by_parameters-Fits e (p ∷ q ∷ rest) h = tt
by_parameters-Fits e (p ∷ []) h = (h, action_of-Asks e.method)
by_parameters-Fits e [] h = elim (Bool-cases (e.method == "POST")) [
  | inl post ↦ rw post (h, (eq_iff e.method "POST").0 post)
  | inr other ↦ elim (Bool-cases (e.method == "GET")) [
    | inr neither ↦ rw (other, neither) tt
    | inl get ↦ elim (Bool-cases (has_page_shape e)) [
      | inr pageless ↦ rw (other, get, pageless) tt
      | inl paged ↦ rw (other, get, paged) (h, ((eq_iff e.method "GET").0 get, paged))
    ]
  ]
]

mediate_endpoint-Fits : (e : Endpoint) → ChoiceFits e (mediate_endpoint e)
unfolding mediate_endpoint
mediate_endpoint-Fits e = elim (Bool-cases (any (nat_eq 403) e.error_statuses)) [
  | inl there ↦ rw there (by_parameters-Fits e e.parameters refl)
  | inr missing ↦ rw missing tt
]

module _ (is_function : String → Bool) where
  abbrev pub broken : Endpoint → Bool
  broken e = is_function e.name && breaks e

  abbrev pub covered : String → Endpoint → Bool
  covered name e = name == e.name && (is_function e.name && reaches_entities e)

  considered-refused : (e : Endpoint) → is_refused (considered is_function e) ≡ broken e
  considered-refused e = ground (arith, mediate_endpoint-refused e)

  considered-wrapped :
      (e : Endpoint)
      → broken e ≡ false
      → is_wrapped (considered is_function e) ≡ (is_function e.name && reaches_entities e)
  considered-wrapped e h = ground (arith, h, mediate_endpoint-wrapped e)

  considered-Fits : (e : Endpoint) → ChoiceFits e (considered is_function e)
  considered-Fits e = elim (Bool-cases (is_function e.name)) [
    | inl there ↦ rw there (mediate_endpoint-Fits e)
    | inr missing ↦ rw missing tt
  ]

  -- Some endpoint of the name has the wrapper that fits it.
  abbrev pub IsFitted : List Endpoint → String → Wrapper → Type 0
  IsFitted es name w = (e : Endpoint) × (IsIn e es × ((e.name ≡ name) × Fits e w))

  abbrev pub AllFit : List Endpoint → (String → Option Wrapper) → (String → Option Wrapper) → Type 0
  AllFit es handlers after =
      (name : String) (w : Wrapper)
      → after name ≡ some w
      → (handlers name ≡ some w) ⊎ IsFitted es name w

  -- What the loop ends with, from the handlers that are wrapped when it starts.
  abbrev pub Ends :
      List Endpoint → (String → Option Wrapper) → Option (String → Option Wrapper) → Type 0
  Ends es handlers none = any broken es ≡ true
  Ends es handlers (some after) =
      (any broken es ≡ false)
      × ((name : String)
          → is_some (after name) ≡ (is_some (handlers name) || any (covered name) es))
      × AllFit es handlers after

  -- The endpoint of this step is fitted, or what its name had stays.
  abbrev StepFits : Endpoint → (String → Option Wrapper) → (String → Option Wrapper) → Type 0
  StepFits e handlers next =
      (name : String) (w : Wrapper)
      → next name ≡ some w
      → (handlers name ≡ some w) ⊎ ((e.name ≡ name) × Fits e w)

  AllFit-step :
      (e : Endpoint) (es : List Endpoint) (handlers next after : String → Option Wrapper)
      → StepFits e handlers next
      → AllFit es next after
      → AllFit (e ∷ es) handlers after
  AllFit-step e es handlers next after step rest name w h = elim (rest name w h) [
    | inr (x, (i, fits)) ↦ inr (x, (inr i, fits))
    | inl now ↦ elim (step name w now) [
      | inl before ↦ inl before
      | inr fits ↦ inr (e, (inl refl, fits))
    ]
  ]

  put-StepFits :
      (e : Endpoint) (x : Wrapper) (handlers : String → Option Wrapper)
      → Fits e x
      → StepFits e handlers (put e.name x handlers)
  put-StepFits e x handlers fits name w h = elim (Bool-cases (name == e.name)) [
    | inr other ↦ inl (rw other at h)
    | inl same ↦
        let this : x ≡ w = some-injective x w (rw same at h) in
        inr (sym ((eq_iff name e.name).0 same), rw (sym this) fits)
  ]

  Ends-step :
      (e : Endpoint) (es : List Endpoint) (handlers next : String → Option Wrapper)
      → broken e ≡ false
      → ((name : String) → is_some (next name) ≡ (is_some (handlers name) || covered name e))
      → StepFits e handlers next
      → (result : Option (String → Option Wrapper)) → Ends es next result
      → Ends (e ∷ es) handlers result
  Ends-step e es handlers next b n step none h = ground (arith, b, h)
  Ends-step e es handlers next b n step (some after) h = (
    ground (arith, b, h.0),
    λ name. ground (arith, n name, h.1 name),
    AllFit-step e es handlers next after step h.2,
  )

  after_choice-Ends :
      (e : Endpoint) (es : List Endpoint) (handlers : String → Option Wrapper) (c : Choice)
      → is_refused c ≡ broken e
      → (broken e ≡ false → is_wrapped c ≡ (is_function e.name && reaches_entities e))
      → ChoiceFits e c
      → ((h : String → Option Wrapper) → Ends es h (protect is_function es h))
      → Ends (e ∷ es) handlers (after_choice c e.name handlers (protect is_function es))
  after_choice-Ends e es handlers refused r w fits others = ground (arith, r)
  after_choice-Ends e es handlers untouched r w fits others =
      Ends-step e es handlers handlers (sym r) (λ name. ground (arith, w (sym r)))
        (λ name v h. inl h) (protect is_function es handlers) (others handlers)
  after_choice-Ends e es handlers (wrapped x) r w fits others =
      let next = put e.name x handlers in
      Ends-step e es handlers next (sym r) (λ name. ground (arith, w (sym r)))
        (put-StepFits e x handlers fits) (protect is_function es next) (others next)

  protect-Ends :
      (es : List Endpoint) (handlers : String → Option Wrapper)
      → Ends es handlers (protect is_function es handlers)
  unfolding protect
  protect-Ends [] handlers = (refl, λ name. ground arith, λ name w h. inl h)
  protect-Ends (e ∷ es) handlers =
      after_choice-Ends e es handlers (considered is_function e) (considered-refused e)
        (considered-wrapped e) (considered-Fits e) (protect-Ends es)

  -- `enforceEntityHandlers` throws exactly if an endpoint with a handler declares no 403, has two or
  -- more path parameters, or is a list that does not declare the fields of a page; otherwise it
  -- wraps exactly the handlers of the item routes and of the POST and GET routes without a
  -- parameter, each with the wrapper that fits an endpoint of its name: an item route asks for read
  -- at GET, for delete at DELETE and for edit at every other method, a POST claims what it creates,
  -- and a GET with the fields of a page is a mediated list.
  pub enforce_entity_handlers-Ends :
      (es : List Endpoint) → Ends es (λ name. none) (enforce_entity_handlers is_function es)
  unfolding enforce_entity_handlers
  enforce_entity_handlers-Ends es = protect-Ends es (λ name. none)
