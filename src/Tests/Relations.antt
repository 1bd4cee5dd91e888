-- ===== src/Tests/Relations.antt =====
-- The theorems about links and the registry, each at one input: a note that bob may read, and a link
-- from tags to notes.
use qwbe.Prelude.{
  String, Bool, true, false, ◌==◌, ◌≡◌, refl, Option, none, some, List, [], ◌∷◌, IsIn, inl, inr,
}
use qwbe.Kernel.Paging.{PageRequest}
use qwbe.Kernel.Where.{matches, set_sql}
use qwbe.Kernel.Table.{first}
use qwbe.Permissions.State.{is_cube_admin, write_audit, ownership_of, grants_for}
use qwbe.Permissions.Foundation.{
  Visible, visible_ids, oldest_owned_by, ownership_rows_of, authorize, decide,
}
use qwbe.Relations.Spaces.{Link, SpaceDefinition, Holder, dangling_links}
use qwbe.Relations.Links.{AllOn}
use qwbe.Relations.Registry.{
  Summary, SearchResult, RelationalPart, RegistryEntry, search, summary, is_of_entity,
}
use qwbe.Relations.Reading.{IsFound, IsOpen, IsTold, search-IsOpen, summary-IsTold}
use qwbe.Tests.Permissions.{platform, bob, shared_doc}

abbrev tags_to_notes : Link
tags_to_notes = record { from = "tags"; field = "noteId"; to = "note"; label = "Note" }

abbrev space : SpaceDefinition
space = record { name = "writing"; title = "Writing"; links = tags_to_notes ∷ [] }

abbrev note_holders : List Holder
note_holders =
    record { name = "notes"; entity = some "note" } ∷ record { name = "tags"; entity = none } ∷ []

abbrev pub always : String → Bool
always name = true

holders_on : AllOn note_holders always
holders_on c (inl e) = rw e (refl, refl)
holders_on c (inr (inl e)) = rw e (refl, refl)
holders_on c (inr (inr n)) = absurd n

none_dangles : dangling_links (space ∷ []) note_holders ≡ []
unfolding dangling_links
none_dangles = refl

abbrev first_note : Summary
first_note = record { id = "n1"; title = "First"; details = [] }

abbrev second_note : Summary
second_note = record { id = "n2"; title = "Second"; details = [] }

-- a search that returns all rows whatever it is asked for
abbrev finds_all : String → String → PageRequest → Option Visible → SearchResult
finds_all field value page visible = record { rows = first_note ∷ second_note ∷ []; total = 2 }

abbrev summary_of_note : String → Option Summary
summary_of_note id = some first_note

abbrev pub notes_part : RelationalPart
notes_part = record {
  search = some finds_all;
  summary_by_id = some summary_of_note;
  field_value = none;
}

abbrev notes_entry : RegistryEntry
notes_entry = record {
  name = "notes";
  entity = some "note";
  relational = some notes_part;
  permission_exempt = false;
  capture_entity = none;
  state = none;
}

abbrev one_page : PageRequest
one_page = record { offset = 0; limit = 25; sort_by = none; descending = false }

shows_first :
    IsIn first_note
      (search platform bob always (notes_entry ∷ []) "notes" "title" "x" one_page shared_doc).0.rows
unfolding search visible_ids is_cube_admin first oldest_owned_by ownership_rows_of matches set_sql
shows_first = inl refl

search-IsOpen_example :
    (entry : RegistryEntry) × IsFound platform bob shared_doc
      (λ (x : RegistryEntry). x.name == "notes")
      always
      (notes_entry ∷ [])
      entry
    × IsOpen platform bob shared_doc entry "n1"
search-IsOpen_example =
    search-IsOpen platform bob shared_doc always (notes_entry ∷ []) "notes" "title" "x" one_page
      first_note shows_first

tells_first :
    (summary platform bob always (notes_entry ∷ []) "note" "n1" true shared_doc).0 ≡ some first_note
unfolding summary authorize write_audit decide is_cube_admin first ownership_of matches grants_for
tells_first = refl

summary-IsTold_example :
    (entry : RegistryEntry) × IsFound platform bob shared_doc
      (is_of_entity platform bob "note")
      always
      (notes_entry ∷ [])
      entry
    × IsTold platform bob shared_doc entry true "n1"
summary-IsTold_example =
    summary-IsTold platform bob shared_doc always (notes_entry ∷ []) "note" "n1" true first_note
      tells_first
