-- ===== src/Echo/Authorship.antt =====
-- Who edits a comment of the feed, and when.
use qwbe.Prelude.{
  String, Bool, true, false, ◌≡◌, refl, sym, ap, ◌∙◌, inl, inr, Option, none, some, List, [], ◌∷◌,
  ◌==◌, eq_iff, filter, head, map, is_some, contains, if◌then◌else◌, Bool-cases, Option-cases,
}
use qwbe.Kernel.Platform.{Platform}
use qwbe.Permissions.Model.{Actor, AccessDecision, EntityRef, GrantAction, edit}
use qwbe.Permissions.Effect.{
  Outcome, success, failure, forbidden, after, ensure, succeed, ◌>>=◌, ◌>>◌,
}
use qwbe.Permissions.State.{
  State, write_audit, is_cube_admin, ownership_of, group_ids_for, grants_for,
}
use qwbe.Permissions.Foundation.{authorize, decide}
use qwbe.Relations.Reading.{IsFound, IsTold, summary-IsTold}
use qwbe.Relations.Registry.{
  Summary, RegistryEntry, summary, entity_name, read_allowed, is_of_entity, entry_of, summary_of,
  allowed_entity, guarded_answer, if_allowed,
}
use qwbe.Relations.Captures.{capture_of}
use qwbe.Echo.{read_route_cap}
use qwbe.Echo.Comments.{
  CommentRow, World, Request, same_actor, is_live, edit_where, comment_edit, comment_authority,
  is_author, gated_target, comment_by_id, gated_comment, ref_of, decision, required, edit_comment,
}

module _ (env : Platform) where
  -- The two states decide alike.
  abbrev Agrees : State → State → Type 0
  Agrees s t =
      (actor : Actor) (ref : EntityRef) (action : GrantAction)
      → decide env actor ref action t ≡ decide env actor ref action s

  if_allowed-state :
      {A : Type 0} (actor : Actor) (answer : Unit {0} → Option A) (r : Bool × State)
      → (if_allowed env actor answer r).1 ≡ r.1
  if_allowed-state actor answer (true, t) = refl
  if_allowed-state actor answer (false, t) = refl

  allowed_entity-Agrees :
      (caller : Actor) (entry : RegistryEntry) (e : Option String) (id : String) (s : State)
      → Agrees s (allowed_entity env caller entry e id s).1
  unfolding authorize write_audit decide is_cube_admin ownership_of group_ids_for grants_for
  allowed_entity-Agrees caller entry none id s actor ref action = refl
  allowed_entity-Agrees caller entry (some e) id s actor ref action = refl

  read_allowed-Agrees :
      (caller : Actor) (entry : RegistryEntry) (has_caller : Bool) (id : String) (s : State)
      → Agrees s (read_allowed env caller entry has_caller id s).1
  unfolding read_allowed
  read_allowed-Agrees caller entry has_caller id s actor ref action =
      elim (Bool-cases entry.permission_exempt) [
        | inl exempt ↦ rw exempt refl
        | inr guarded ↦ elim (Bool-cases has_caller) [
          | inr nobody ↦ rw (guarded, nobody) refl
          | inl somebody ↦
              rw (guarded, somebody)
                (allowed_entity-Agrees caller entry (entity_name entry.entity) id s actor ref
                  action)
        ]
      ]

  guarded_answer-Agrees :
      {A : Type 0} (caller : Actor) (entry : RegistryEntry) (has_caller : Bool)
      (f : Option (String → Option A)) (id : String) (s : State)
      → Agrees s (guarded_answer env caller entry has_caller f id s).1
  guarded_answer-Agrees caller entry has_caller none id s actor ref action = refl
  guarded_answer-Agrees caller entry has_caller (some f) id s actor ref action =
      ap (decide env actor ref action)
        (if_allowed-state caller (λ _. f id) (read_allowed env caller entry has_caller id s))
      ∙ read_allowed-Agrees caller entry has_caller id s actor ref action

  -- Asking for a summary changes no decision.
  summary-Agrees :
      (caller : Actor) (is_enabled : String → Bool) (entries : List RegistryEntry) (e id : String)
      (s : State)
      → Agrees s (summary env caller is_enabled entries e id true s).1
  unfolding summary
  summary-Agrees caller is_enabled entries e id s actor ref action =
      elim (Option-cases (entry_of env caller (is_of_entity env caller e) is_enabled entries)) [
        | inl missing ↦ rw missing refl
        | inr (entry, found) ↦ rw found (
            guarded_answer-Agrees caller entry true (summary_of entry.relational) id s actor ref
              action)
      ]

-- An update that answers with no row has changed none.
update-none :
    (test : CommentRow → Bool) (change : CommentRow → CommentRow) (rows : List CommentRow)
    → head (map change (filter test rows)) ≡ none
    → map (λ (c : CommentRow). if test c then change c else c) rows ≡ rows
update-none test change [] h = refl
update-none test change (c ∷ rows) h = elim (Bool-cases (test c)) [
  | inl hit ↦ absurd (cc (hit, h))
  | inr miss ↦ rw miss (ap (◌∷◌ c) (update-none test change rows (rw miss at h)))
]

module _ (env : Platform) (request : Request) where
  -- The registry finds the row, in a cube that is on, and the caller may read it, unless its cube needs
  -- no permissions.
  abbrev IsReadable : String → String → State → Type 0
  IsReadable kind id s =
      ((v : Summary) × ((summary env request.user request.is_enabled request.entries kind id true
            s).0
          ≡ some v))
      × ((entry : RegistryEntry) × IsFound env request.user s (is_of_entity env request.user kind)
            request.is_enabled request.entries entry
          × IsTold env request.user s entry true id)

  -- The cube records rows of the kind now, the caller holds its read route, and may read the row.
  abbrev IsReachable : String → String → String → State → Type 0
  IsReachable cube kind id s =
      (capture_of request.is_enabled request.entries cube ≡ some kind)
      × ((is_some (read_route_cap (request.routes_of cube) request.held) ≡ true)
          × IsReadable kind id s)

  abbrev TargetEnds : String → String → State → Outcome String × State → Type 0
  TargetEnds cube id s (success kind, t) = IsReachable cube kind id s × Agrees env s t
  TargetEnds cube id s (failure e, t) = Unit

  gated_target-TargetEnds :
      (cube id : String) (s : State)
      → TargetEnds cube id s (gated_target env request cube id false s)
  unfolding gated_target
  gated_target-TargetEnds cube id s =
      elim (Option-cases (capture_of request.is_enabled request.entries cube)) [
        | inl missing ↦ rw missing tt
        | inr (kind, found) ↦
            elim (Bool-cases (is_some (read_route_cap (request.routes_of cube) request.held))) [
              | inr closed ↦ rw (found, closed) tt
              | inl readable ↦
                  let told =
                    summary env request.user request.is_enabled request.entries kind id true s in
                  elim (Option-cases told.0) [
                    | inl nothing ↦ rw (found, readable, nothing) tt
                    | inr (v, answer) ↦
                        rw (found, readable, answer)
                          (
                            (
                              found,
                              (
                                readable,
                                (
                                  (v, answer),
                                  summary-IsTold env request.user s request.is_enabled
                                      request.entries kind id true v answer,
                                ),
                              ),
                            ),
                            summary-Agrees env request.user request.is_enabled request.entries kind
                                id s,
                          )
                  ]
            ]
      ]

  abbrev CommentEnds : String → World → Outcome CommentRow × World → Type 0
  CommentEnds id w (success c, v) =
      (comment_by_id env request id w ≡ some c)
      × (is_live c ≡ true)
      × IsReachable c.cube c.entity_type c.row_id w.permissions
      × Agrees env w.permissions v.permissions
      × (v.comments ≡ w.comments)
  CommentEnds id w (failure e, v) = v.comments ≡ w.comments

  -- the part of `gatedComment` behind the gate of the target
  behind_target :
      (id : String) (w : World) (c : CommentRow) (r : Outcome String × State)
      → comment_by_id env request id w ≡ some c
      → is_live c ≡ true
      → TargetEnds c.cube c.row_id w.permissions r
      → CommentEnds id w (
          after r.0
            (record w { permissions = r.1 })
            (λ kind. ensure (kind == c.entity_type) forbidden >> succeed c))
  behind_target id w c (failure e, t) found live h = refl
  behind_target id w c (success kind, t) found live h = elim (Bool-cases (kind == c.entity_type)) [
    | inr stale ↦ rw stale refl
    | inl same ↦
        let this : kind ≡ c.entity_type = (eq_iff kind c.entity_type).0 same in
        rw same (found, live, rw this at h.0, h.1, refl)
  ]

  gated_comment-CommentEnds :
      (id : String) (w : World) → CommentEnds id w (gated_comment env request id w)
  unfolding gated_comment
  gated_comment-CommentEnds id w = elim (Option-cases (comment_by_id env request id w)) [
    | inl missing ↦ rw missing refl
    | inr (c, found) ↦ elim (Bool-cases (is_live c)) [
      | inr deleted ↦ rw (found, deleted) refl
      | inl live ↦
          rw (found, live)
            (behind_target id w c (gated_target env request c.cube c.row_id false w.permissions)
              found live (gated_target-TargetEnds c.cube c.row_id w.permissions))
    ]
  ]

  -- the row after the edit
  abbrev pub edited : String → CommentRow → CommentRow
  edited body c = record c { body = body; edited_at = some request.at }

  abbrev pub EditEnds : String → String → World → Outcome CommentRow × World → Type 0
  EditEnds id body w (success r, v) =
      (c : CommentRow) × (comment_by_id env request id w ≡ some c)
      × (is_live c ≡ true)
      × (same_actor c.actor_id (some request.user.user_id) ≡ true)
      × IsReachable c.cube c.entity_type c.row_id w.permissions
      × ((decide env request.user (ref_of env request c.cube c.entity_type c.row_id) edit
            w.permissions).allowed
          ≡ true)
      × (v.comments
          ≡ map (λ (x : CommentRow). if edit_where id request.actor x then edited body x else x)
              w.comments)
  EditEnds id body w (failure e, v) = v.comments ≡ w.comments

  abbrev written : String → String → Outcome CommentRow × World → Outcome CommentRow × World
  written id body r = after r.0 r.1 (λ c. decision env request c edit >>= λ d.
      ensure (is_author (comment_authority c request.user.user_id false d.allowed)) forbidden
      >> (comment_edit request.at request.actor id body >>= required))

  behind_comment :
      (id body : String) (w : World) (r : Outcome CommentRow × World)
      → CommentEnds id w r
      → EditEnds id body w (written id body r)
  unfolding authorize write_audit comment_authority comment_edit
  behind_comment id body w (failure e, v) h = h
  behind_comment id body w (success c, v) (found, live, reachable, agrees, same) =
      let ref = ref_of env request c.cube c.entity_type c.row_id in
      elim (Bool-cases (same_actor c.actor_id (some request.user.user_id))) [
        | inr other ↦ rw other same
        | inl author ↦ elim (Bool-cases (decide env request.user ref edit v.permissions).allowed) [
          | inr refused ↦ rw (author, refused) same
          | inl may ↦
              let change = edited body in
              let rows = filter (edit_where id request.actor) v.comments in
              elim (Option-cases (head (map change rows))) [
                | inl nothing ↦
                    rw (author, may, nothing)
                      (update-none (edit_where id request.actor) change v.comments nothing ∙ same)
                | inr (r, answer) ↦
                    rw (author, may, answer)
                      (
                        c,
                        found,
                        live,
                        author,
                        reachable,
                        ap (λ (d : AccessDecision). d.allowed) (sym (agrees request.user ref edit))
                            ∙ may,
                        ap
                            (map (λ (x : CommentRow).
                              if edit_where id request.actor x then change x else x))
                            same,
                      )
              ]
        ]
      ]

  -- An edit of a comment that is refused changes no comment. One that succeeds was of a live
  -- comment by its author, whose target the kernel still records as what the comment was written
  -- on, whose read route the caller holds, of which the registry finds the row in a cube that is on,
  -- which the decision lets the caller read, unless its cube needs no permissions, and edit; it
  -- changes the comments of the statement only.
  pub edit_comment-EditEnds :
      (id body : String) (w : World) → EditEnds id body w (edit_comment env request id body w)
  unfolding edit_comment
  edit_comment-EditEnds id body w = elim (Bool-cases (contains request.held "echo:write")) [
    | inr closed ↦ rw closed refl
    | inl may ↦
        rw may (
          behind_comment id body w (gated_comment env request id w)
            (gated_comment-CommentEnds id w))
  ]
