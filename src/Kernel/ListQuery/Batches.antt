-- ===== src/Kernel/ListQuery/Batches.antt =====
-- core/src/kernel/list.ts, listPageRequest: a query that names its ids.
use qwbe.Prelude.{ℕ, ◌≤◌, ◌≡◌, ap, ◌∙◌, none, some, arith, length, false, String, List, [], ◌∷◌}
use qwbe.Kernel.Numbers.{finite}
use qwbe.Kernel.Paging.{max_limit, capped_limit, finite_int, page_request}
use qwbe.Kernel.ListQuery.{ListParams, ids_of, limit_of, list_page_request}

capped_whole : (n : ℕ) → 1 ≤ n → n ≤ max_limit → capped_limit (some (finite false n 0)) ≡ n
unfolding finite_int
capped_whole n h k = grind arith

capped_batch :
    (ids : List String)
    → 1 ≤ length ids
    → length ids ≤ max_limit
    → capped_limit (some (limit_of none ids)) ≡ length ids
capped_batch [] h k = absurd (omega arith)
capped_batch (id ∷ ids) h k =
    ap (λ n. capped_limit (some (finite false n 0))) (omega arith)
    ∙ capped_whole (length (id ∷ ids)) h k

-- Without an asked size, a query that names at least one and at most 200 ids asks for a page of
-- exactly as many rows.
pub list_page_request-batch :
    (p : ListParams)
    → p.page_size ≡ none
    → p.limit ≡ none
    → 1 ≤ length (ids_of p.ids)
    → length (ids_of p.ids) ≤ max_limit
    → (list_page_request p).limit ≡ length (ids_of p.ids)
unfolding list_page_request page_request
list_page_request-batch p size limit h k = rw (size, limit) (capped_batch (ids_of p.ids) h k)
