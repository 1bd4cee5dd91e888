-- ===== src/Tests/Echo.antt =====
-- The theorems about the echo feed, each at one input: a log of three rows of which one is hidden,
-- and the edit of an administrator's own comment on a note.
use qwbe.Prelude.{ℕ, String, Bool, false, ◌==◌, ◌≡◌, Option, none, some, List, [], ◌∷◌, arith}
use qwbe.Permissions.Model.{Actor}
use qwbe.Relations.Registry.{RegistryEntry}
use qwbe.Echo.{ActivityRow, FeedRouteMeta, ReadRoutes}
use qwbe.Echo.Paging.{IsFalling, read_pages, read_pages-whole}
use qwbe.Echo.Comments.{CommentRow, World, Request, edit_comment}
use qwbe.Echo.Authorship.{EditEnds, edit_comment-EditEnds}
use qwbe.Tests.Permissions.{platform, shared_doc}
use qwbe.Tests.Relations.{notes_part, always}

abbrev note_row : ℕ → String → ActivityRow
note_row id row_id = record { id = id; cube = "notes"; entity_type = "note"; row_id = row_id }

abbrev three_rows : List ActivityRow
three_rows = note_row 9 "n1" ∷ note_row 5 "n2" ∷ note_row 2 "n1" ∷ []

three_rows-IsFalling : IsFalling three_rows
three_rows-IsFalling = ((omega arith, (omega arith, tt)), ((omega arith, tt), (tt, tt)))

abbrev of_first_note : ActivityRow → Bool
of_first_note row = row.row_id == "n1"

read_pages-whole_example :
    read_pages of_first_note three_rows 1 4 none ≡ note_row 9 "n1" ∷ note_row 2 "n1" ∷ []
read_pages-whole_example = read_pages-whole of_first_note three_rows 1 three_rows-IsFalling

abbrev root : Actor
root = record { user_id = "root"; roles = "admin" ∷ [] }

abbrev notes : RegistryEntry
notes = record {
  name = "notes";
  entity = some "note";
  relational = some notes_part;
  permission_exempt = false;
  capture_entity = some "note";
  state = none;
}

abbrev read_route : FeedRouteMeta
read_route = record { method = "GET"; permission = some "notes:read" }

abbrev note_routes : String → Option ReadRoutes
note_routes cube = some (record { get = none; list = some read_route })

abbrev request : Request
request = record {
  user = root;
  held = "echo:write" ∷ "notes:read" ∷ [];
  actor = some "root";
  at = "noon";
  is_enabled = always;
  entries = notes ∷ [];
  routes_of = note_routes;
}

abbrev own_comment : CommentRow
own_comment = record {
  id = "c1";
  cube = "notes";
  entity_type = "note";
  row_id = "n1";
  actor_id = some "root";
  body = "old";
  edited_at = none;
  deleted_at = none;
  deleted_by = none;
}

abbrev one_comment : World
one_comment = record { permissions = shared_doc; comments = own_comment ∷ [] }

edit_comment-EditEnds_example :
    EditEnds platform request "c1" "new" one_comment
      (edit_comment platform request "c1" "new" one_comment)
edit_comment-EditEnds_example = edit_comment-EditEnds platform request "c1" "new" one_comment
