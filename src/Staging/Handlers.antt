-- ===== src/Staging/Handlers.antt =====
-- core/src/cubes/staging/handlers.ts: the two handlers that move an import on. The permission of the
-- caller is checked before either of them.
use qwbe.Prelude.{
  ℕ, String, Bool, true, false, not, Option, none, some, List, ◌==◌, map, find, length, leb,
  if◌then◌else◌,
}
use qwbe.Staging.Units.{Units}
use qwbe.Staging.Csv.{Malformed}
use qwbe.Staging.Jsonl.{JsonParse}
use qwbe.Staging.Chunks.{
  SetState, importing, done, failed, SetRow, Store, Applied, apply_chunk, batch,
}

pub data Reply : Type 0 where
  not_found bad_request : Reply
  accepted : (parsed : ℕ) → List Malformed → Reply
  finished : String → Reply

-- `MAX_CHUNK_CHARS`
abbrev pub max_chunk_chars : ℕ
max_chunk_chars = 2000000

abbrev pub is_importing : SetState → Bool
is_importing importing = true
is_importing done = false
is_importing failed = false

-- `loadSet`
unfoldable pub load_set : String → Store → Option SetRow
load_set id store = find (λ (set : SetRow). set.id == id) store.sets

abbrev pub apply : Applied → Store → Reply × Store
apply applied store = (accepted applied.parsed applied.malformed, batch applied.statements store)

abbrev pub chunk_of : JsonParse → Units → ℕ → Option SetRow → Store → Reply × Store
chunk_of json text start_line none store = (not_found, store)
chunk_of json text start_line (some set) store =
    if not (is_importing set.state)
    then (bad_request, store)
    else if not (leb (length text) max_chunk_chars)
    then (bad_request, store)
    else apply (apply_chunk json set text start_line) store

-- the handler `chunk`, where the transaction goes through
unfoldable pub chunk : JsonParse → String → Units → ℕ → Store → Reply × Store
unfolding load_set
chunk json id text start_line store = chunk_of json text start_line (load_set id store) store

abbrev pub set_done : String → SetRow → SetRow
set_done id set = if set.id == id then record set { state = done } else set

abbrev pub finish_of : Option SetRow → Store → Reply × Store
finish_of none store = (not_found, store)
finish_of (some set) store =
    if not (is_importing set.state)
    then (bad_request, store)
    else (finished set.id, record store { sets = map (set_done set.id) store.sets })

-- the handler `finish`
unfoldable pub finish_set : String → Store → Reply × Store
unfolding load_set
finish_set id store = finish_of (load_set id store) store
