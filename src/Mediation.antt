-- ===== src/Mediation.antt =====
-- core/src/entity-enforcement.ts: what the kernel puts between a request and the handlers of a cube
-- that holds entities. A handler is a parameter: it answers a request, and cannot write the tables of
-- the permission service.
pub mod Guards
pub mod Endpoints
pub mod Contracts
use qwbe.Prelude.{
  String, Bool, true, false, ◌&&◌, Option, none, some, is_some, List, [], ◌∷◌, ◌==◌, map, filter,
  contains, join, split, trim, if◌then◌else◌,
}
use qwbe.Kernel.Platform.{Platform}
use qwbe.Kernel.Numbers.{finite}
use qwbe.Kernel.Paging.{PageRequest}
use qwbe.Kernel.ListQuery.{ListParams, list_page_request}
use qwbe.Permissions.Model.{Actor, EntityRef, Ownership, AccessDecision, GrantAction, read}
use qwbe.Permissions.Effect.{Outcome, success, failure, Effect}
use qwbe.Kernel.Table.{Row}
use qwbe.Permissions.State.{State, ownership_of}
use qwbe.Permissions.Foundation.{
  Scope, entity, Visible, everything, only, sees, visible_ids, authorize, audit_list, claim,
}

-- What a guarded route answers: refused, stopped by a defect, or the handler's own answer.
pub data Reply (B : Type 0) : Type 0 where
  denied dies : Reply B
  answers : B → Reply B

-- What a list handler returns: something else than a page, or the ids of the rows of a page, each
-- none where the row has no id.
pub data Returned : Type 0 where
  no_page : Returned
  page : List (Option String) → Returned

module _ (env : Platform) (scope : Scope) (actor : Actor) where
  module _ {Request B : Type 0} (handler : Request → B) (request : Request) where
    abbrev pub run_if : Outcome AccessDecision × State → Reply B × State
    run_if (success decision, s) =
        if decision.allowed then (answers (handler request), s) else (denied, s)
    run_if (failure e, s) = (dies, s)

    -- `guardItem`, with the id that the request has in its path
    unfoldable pub guard_item : GrantAction → Option String → State → Reply B × State
    guard_item action none s = (denied, s)
    guard_item action (some id) s =
        if id == "" then (denied, s) else run_if (authorize env actor (entity scope id) action s)

    abbrev pub claim_unowned : Reply B → EntityRef → Bool → State → Reply B × State
    claim_unowned reply ref true s = (reply, s)
    claim_unowned reply ref false s = claimed_reply (claim env actor ref s)
      where
        claimed_reply : Outcome (Row Ownership) × State → Reply B × State
        claimed_reply (success row, s') = (reply, s')
        claimed_reply (failure e, s') = (dies, s')

    -- `claimCreated`, where `id_of` reads the id of what the handler returned
    unfoldable pub claim_created : (B → Option String) → State → Reply B × State
    claim_created id_of s = elim (id_of (handler request)) [
      | none ↦ (dies, s)
      | some id ↦
          claim_unowned (answers (handler request)) (entity scope id)
            (is_some (ownership_of env (entity scope id) s)) s
    ]

  -- `narrowIds`
  unfoldable pub narrow_ids : Option String → List String → List String
  narrow_ids none visible = visible
  narrow_ids (some asked) visible = filter (contains visible) (map trim (split b',' asked))

  -- `scopedRequest`
  abbrev pub scoped_request : ListParams → List String → PageRequest → ListParams
  scoped_request p ids asked = record p {
    ids = some (join "," ids);
    page = none;
    page_size = none;
    offset = some (finite false asked.offset 0);
    limit = some (finite false asked.limit 0);
  }

  -- `returnedIds` of a page; none where a row has no id or one outside the visible ones
  unfoldable pub returned_ids : Visible → List (Option String) → Option (List String)
  returned_ids visible [] = some []
  returned_ids visible (none ∷ rows) = none
  returned_ids visible (some id ∷ rows) = elim (returned_ids visible rows) [
    | none ↦ none
    | some ids ↦ if sees visible id then some (id ∷ ids) else none
  ]

  -- `listSource`
  abbrev pub list_source : Visible → String
  list_source (only ids) = "scoped"
  list_source everything = if contains actor.roles "admin" then "superadmin" else "cube-admin"

  module _ (handler : ListParams → Returned) where
    abbrev pub audited_page : Visible → Option (List String) → State → Reply (List String) × State
    audited_page visible none s = (dies, s)
    audited_page visible (some ids) s =
        (answers ids, (audit_list env actor scope read (list_source visible) ids s).1)

    abbrev pub checked : Visible → Returned → State → Reply (List String) × State
    checked visible no_page s = (dies, s)
    checked visible (page rows) s = audited_page visible (returned_ids visible rows) s

    abbrev pub scoped_list :
        ListParams → List String → List String → State → Reply (List String) × State
    scoped_list p visible [] s = (answers [], (audit_list env actor scope read "scoped" [] s).1)
    scoped_list p visible (id ∷ ids) s =
        checked (only visible) (handler (scoped_request p (id ∷ ids) (list_page_request p))) s

    abbrev pub list_for : ListParams → Visible → State → Reply (List String) × State
    list_for p everything s = checked everything (handler p) s
    list_for p (only visible) s = scoped_list p visible (narrow_ids p.ids visible) s

    -- `mediateList`: the reply is the ids of the page's rows
    unfoldable pub mediate_list : ListParams → State → Reply (List String) × State
    unfolding narrow_ids returned_ids
    mediate_list p s = list_for p (visible_ids env actor scope read s) s
