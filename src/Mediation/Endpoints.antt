-- ===== src/Mediation/Endpoints.antt =====
-- core/src/entity-enforcement.ts, mediateEndpoint and enforceEntityHandlers: which wrapper the
-- declaration of an endpoint calls for. The schemas stand as what schemaFields and containsStatus
-- read from them.
use qwbe.Prelude.{
  ℕ, String, Bool, not, Option, none, some, List, [], ◌∷◌, ◌==◌, all, any, contains, nat_eq,
  if◌then◌else◌,
}
use qwbe.Permissions.Model.{GrantAction, read, edit, delete}

pub record Endpoint : Type 0 where
  pub name : String
  pub method : String
  pub parameters : List String
  pub error_statuses : List ℕ
  pub success_fields : List String

-- `guardItem` of a path parameter, `claimCreated` and `mediateList`.
pub data Wrapper : Type 0 where
  guards_item : String → GrantAction → Wrapper
  claims_created mediates_list : Wrapper

-- A refusal is the thrown EntityPermissionContractError.
pub data Choice : Type 0 where
  refused untouched : Choice
  wrapped : Wrapper → Choice

-- `actionOf`
abbrev pub action_of : String → GrantAction
action_of method = if method == "GET" then read else if method == "DELETE" then delete else edit

-- `hasPageShape`
unfoldable pub has_page_shape : Endpoint → Bool
has_page_shape e =
    all (contains e.success_fields) ("rows" ∷ "total" ∷ "offset" ∷ "limit" ∷ "sortedBy" ∷ [])

abbrev pub by_parameters : Endpoint → List String → Choice
by_parameters e (p ∷ q ∷ rest) = refused
by_parameters e (p ∷ []) = wrapped (guards_item p (action_of e.method))
by_parameters e [] =
    if e.method == "POST"
    then wrapped claims_created
    else if not (e.method == "GET")
    then untouched
    else if has_page_shape e
    then wrapped mediates_list
    else refused

-- `mediateEndpoint`
unfoldable pub mediate_endpoint : Endpoint → Choice
mediate_endpoint e =
    if not (any (nat_eq 403) e.error_statuses) then refused else by_parameters e e.parameters

-- The handlers of a cube: which names have one, and the wrapper of each name, if it has one.
abbrev pub put : String → Wrapper → (String → Option Wrapper) → String → Option Wrapper
put name w handlers other = if other == name then some w else handlers other

abbrev pub considered : (String → Bool) → Endpoint → Choice
considered is_function e = if is_function e.name then mediate_endpoint e else untouched

-- one endpoint of the loop, with the loop over the others
abbrev pub after_choice :
    Choice
    → String
    → (String → Option Wrapper)
    → ((String → Option Wrapper) → Option (String → Option Wrapper))
    → Option (String → Option Wrapper)
after_choice refused name handlers others = none
after_choice untouched name handlers others = others handlers
after_choice (wrapped w) name handlers others = others (put name w handlers)

-- the loop of `enforceEntityHandlers`
unfoldable pub protect :
    (String → Bool) → List Endpoint → (String → Option Wrapper) → Option (String → Option Wrapper)
unfolding mediate_endpoint
protect is_function [] handlers = some handlers
protect is_function (e ∷ es) handlers =
    after_choice (considered is_function e) e.name handlers (protect is_function es)

-- `enforceEntityHandlers`
unfoldable pub enforce_entity_handlers :
    (String → Bool) → List Endpoint → Option (String → Option Wrapper)
unfolding protect
enforce_entity_handlers is_function es = protect is_function es (λ name. none)
