-- ===== src/Echo/Comments.antt =====
-- core/src/cubes/echo/index.ts: who edits and deletes comments on other cubes' rows; the statements
-- are those of core/src/pg/activity.ts. Times are an argument, and messages of errors are left out.
use qwbe.Prelude.{
  String, Bool, true, false, not, Option, none, some, List, ◌==◌, ◌&&◌, contains, filter, find,
  head, map, is_some, if◌then◌else◌,
}
use qwbe.Kernel.Platform.{Platform}
use qwbe.Permissions.Model.{
  Actor, AccessDecision, Source, superadmin, cube_admin, grant, no_source, EntityRef, GrantAction,
  read, edit, delete,
}
use qwbe.Permissions.Effect.{
  success, failure, Effect, forbidden, succeed, gets, ensure, ◌>>=◌, ◌>>◌,
}
use qwbe.Permissions.State.{State}
use qwbe.Permissions.Foundation.{authorize}
use qwbe.Relations.Registry.{Summary, RegistryEntry, RowState, summary}
use qwbe.Relations.Captures.{capture_of, target_state}
use qwbe.Echo.{ReadRoutes, read_route_cap}

pub record CommentRow : Type 0 where
  pub id : String
  pub cube : String
  pub entity_type : String
  pub row_id : String
  pub actor_id : Option String
  pub body : String
  pub edited_at : Option String
  pub deleted_at : Option String
  pub deleted_by : Option String

-- the tables that a comment handler reads and writes
pub record World : Type 0 where
  pub permissions : State
  pub comments : List CommentRow

abbrev pub same_actor : Option String → Option String → Bool
same_actor (some a) (some b) = a == b
same_actor a b = false

abbrev pub is_live : CommentRow → Bool
is_live c = not (is_some c.deleted_at)

-- the WHERE of `commentEdit`
abbrev pub edit_where : String → Option String → CommentRow → Bool
edit_where id actor c = (c.id == id) && (same_actor c.actor_id actor && is_live c)

-- the WHERE of `commentRemove`
abbrev pub remove_where : String → Bool → Option String → CommentRow → Bool
remove_where id moderator actor c =
    if moderator then (c.id == id) && is_live c else edit_where id actor c

-- an UPDATE ... RETURNING *, of which the first row is the answer
abbrev pub update_where :
    (CommentRow → Bool) → (CommentRow → CommentRow) → Effect World (Option CommentRow)
update_where test change w = (
  success (head (map change (filter test w.comments))),
  record w { comments = map (λ (c : CommentRow). if test c then change c else c) w.comments },
)

-- `comments.edit`
unfoldable pub comment_edit :
    String → Option String → String → String → Effect World (Option CommentRow)
comment_edit at actor id body =
    update_where (edit_where id actor)
      (λ (c : CommentRow). record c { body = body; edited_at = some at })

-- `comments.remove`
unfoldable pub comment_remove :
    String → Option String → String → Bool → Effect World (Option CommentRow)
comment_remove at actor id moderator =
    update_where (remove_where id moderator actor)
      (λ (c : CommentRow). record c { body = ""; deleted_at = some at; deleted_by = actor })

-- `commentAuthority`
pub data Authority : Type 0 where
  owner moderator denied : Authority

unfoldable pub comment_authority : CommentRow → String → Bool → Bool → Authority
comment_authority c user_id is_moderator target_editable =
    if is_moderator
    then moderator
    else if same_actor c.actor_id (some user_id) && target_editable
    then owner
    else denied

abbrev pub is_author : Authority → Bool
is_author owner = true
is_author moderator = false
is_author denied = false

abbrev by_moderator : Source → Bool
by_moderator superadmin = true
by_moderator cube_admin = true
by_moderator Source.owner = false
by_moderator grant = false
by_moderator no_source = false

-- `moderatorDecision`
unfoldable pub moderator_decision : AccessDecision → Bool
moderator_decision d = d.allowed && by_moderator d.source

-- `if (x === undefined) return yield* Effect.fail(...)`
abbrev pub required {ℓ} : {S A : Type ℓ} → Option A → Effect S A
required none s = (failure forbidden, s)
required (some a) s = (success a, s)

-- an operation on the tables of the permission service
abbrev pub on_permissions : {A : Type 0} → Effect State A → Effect World A
on_permissions m w = ((m w.permissions).0, record w { permissions = (m w.permissions).1 })

-- The caller with the permissions of the session, the actor of the fiber and the time; the entries
-- of the registry, the cubes that are on, and the routes that the catalogue publishes.
pub record Request : Type 0 where
  pub user : Actor
  pub held : List String
  pub actor : Option String
  pub at : String
  pub is_enabled : String → Bool
  pub entries : List RegistryEntry
  pub routes_of : String → Option ReadRoutes

module _ (env : Platform) (request : Request) where
  -- `yield* registry.summary(...)`
  abbrev pub ask_summary : String → String → Effect State (Option Summary)
  ask_summary capture id s =
      let (answer, t) =
        summary env request.user request.is_enabled request.entries capture id true s in
      (success answer, t)

  abbrev deleted_row : Option RowState → Bool
  deleted_row none = false
  deleted_row (some row) = row.deleted

  abbrev by_decision : EntityRef → Effect State Bool
  by_decision ref = do d ← authorize env request.user ref read; succeed (moderator_decision d)

  -- `deletedHistoryVisible`
  unfoldable pub deleted_history_visible : EntityRef → Effect State Bool
  deleted_history_visible ref =
      if deleted_row (target_state request.is_enabled request.entries ref.cube ref.entity_id)
      then by_decision ref
      else succeed false

  abbrev pub ref_of : String → String → String → EntityRef
  ref_of cube e id = record { cube = cube; entity_type = e; entity_id = id }

  abbrev pub or_history : Bool → Option Summary → EntityRef → Effect State Bool
  or_history history (some told) ref = succeed true
  or_history true none ref = deleted_history_visible ref
  or_history false none ref = succeed false

  -- `gatedTarget`
  unfoldable pub gated_target : String → String → Bool → Effect State String
  gated_target cube id history = do
    capture ← required (capture_of request.is_enabled request.entries cube)
    ensure (is_some (read_route_cap (request.routes_of cube) request.held)) forbidden
    told ← ask_summary capture id
    visible ← or_history history told (ref_of cube capture id)
    ensure visible forbidden
    succeed capture

  abbrev pub comment_by_id : String → World → Option CommentRow
  comment_by_id id w = find (λ (c : CommentRow). c.id == id) w.comments

  -- `gatedComment`
  unfoldable pub gated_comment : String → Effect World CommentRow
  gated_comment id = do
    found ← gets (comment_by_id id)
    c ← required found
    ensure (is_live c) forbidden
    capture ← on_permissions (gated_target c.cube c.row_id false)
    ensure (capture == c.entity_type) forbidden
    succeed c

  -- `decision`
  abbrev pub decision : CommentRow → GrantAction → Effect World AccessDecision
  decision c action =
      on_permissions (authorize env request.user (ref_of c.cube c.entity_type c.row_id) action)

  -- `editComment`
  unfoldable pub edit_comment : String → String → Effect World CommentRow
  edit_comment id body = do
    ensure (contains request.held "echo:write") forbidden
    c ← gated_comment id
    d ← decision c edit
    ensure (is_author (comment_authority c request.user.user_id false d.allowed)) forbidden
    updated ← comment_edit request.at request.actor id body
    required updated

  abbrev remove_as : String → Bool → Effect World CommentRow
  remove_as id is_moderator = do
    removed ← comment_remove request.at request.actor id is_moderator
    required removed

  abbrev remove_own : String → CommentRow → Effect World CommentRow
  remove_own id c = do
    own ← decision c edit
    ensure (is_author (comment_authority c request.user.user_id false own.allowed)) forbidden
    remove_as id false

  -- `deleteComment`
  unfoldable pub delete_comment : String → Effect World CommentRow
  delete_comment id = do
    ensure (contains request.held "echo:write") forbidden
    c ← gated_comment id
    moderation ← decision c delete
    if moderator_decision moderation then remove_as id true else remove_own id c
