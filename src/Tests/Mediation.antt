-- ===== src/Tests/Mediation.antt =====
-- The theorems about mediated routes, each at one input.
use qwbe.Mediation.Endpoints.{Endpoint, enforce_entity_handlers}
use qwbe.Mediation.Contracts.{Ends, enforce_entity_handlers-Ends}
use qwbe.Prelude.{String, true, none, some, [], ◌∷◌}
use qwbe.Kernel.ListQuery.{ListParams}
use qwbe.Permissions.Model.{edit}
use qwbe.Mediation.{Returned, page, guard_item, mediate_list}
use qwbe.Mediation.Guards.{IsReadable, GuardEnds, mediate_list-IsReadable, guard_item-GuardEnds}
use qwbe.Tests.Permissions.{platform, bob, documents, shared_doc}

-- a list handler that returns its two rows whatever it is asked for
abbrev careless : ListParams → Returned
careless p = page (some "n1" ∷ some "n2" ∷ [])

abbrev plain_list : ListParams
plain_list = record {
  offset = none;
  limit = none;
  sort_by = none;
  descending = none;
  page = none;
  page_size = none;
  sort = none;
  q = none;
  ids = none;
}

mediate_list-IsReadable_example :
    IsReadable platform documents bob shared_doc
      (mediate_list platform documents bob careless plain_list shared_doc)
mediate_list-IsReadable_example =
    mediate_list-IsReadable platform documents bob careless shared_doc plain_list

abbrev echo : String → String
echo request = request

guard_item-GuardEnds_example :
    GuardEnds platform documents bob echo "rename" edit
      (some "n1")
      shared_doc
      (guard_item platform documents bob echo "rename" edit (some "n1") shared_doc)
guard_item-GuardEnds_example =
    guard_item-GuardEnds platform documents bob echo "rename" edit (some "n1") shared_doc

abbrev list_notes : Endpoint
list_notes = record {
  name = "list";
  method = "GET";
  parameters = [];
  error_statuses = 401 ∷ 403 ∷ [];
  success_fields = "rows" ∷ "total" ∷ "offset" ∷ "limit" ∷ "sortedBy" ∷ [];
}

abbrev get_note : Endpoint
get_note = record list_notes { name = "get"; parameters = "id" ∷ []; success_fields = "id" ∷ [] }

enforce_entity_handlers-Ends_example :
    Ends
      (λ name. true)
      (list_notes ∷ get_note ∷ [])
      (λ name. none)
      (enforce_entity_handlers (λ name. true) (list_notes ∷ get_note ∷ []))
enforce_entity_handlers-Ends_example =
    enforce_entity_handlers-Ends (λ name. true) (list_notes ∷ get_note ∷ [])
