-- ===== src/Mounting/Migration/Rollback.antt =====
-- core/src/kernel/migrate.ts: a batch of moves is done whole or not at all.
use qwbe.Prelude.{
  String, Bool, true, false, ◌≡◌, refl, sym, subst, ◌∙◌, ◌&&◌, Option, some, List, [], ◌∷◌,
  true-ne-false, inl, inr, if◌then◌else◌, arith, any, not, ◌||◌, ap, none, ◌==◌, eq_iff, eq_refl,
  Bool-cases, Option-cases,
}
use mathlib.Core.Option.{some-injective}
use qwbe.Mounting.Migration.Rename.{
  SchemaRow, OutboxRow, Database, has_schema, schema_exists, renamed_schemas, committed,
  rename_schema,
}
use qwbe.Mounting.Migration.{
  DataMigration, Move, Migrated, migrated, conflict, failed, Plan, moves, conflicting, planned,
  plan_of, roll_back, move_all, rolled_back, follow, schema_name, migrate_data_schemas,
}

-- Where no schema has the new name, a rename back gives the schemas that were there.
renamed_back :
    (a b : String) (rows : List SchemaRow)
    → has_schema b rows ≡ false
    → renamed_schemas b a (renamed_schemas a b rows) ≡ rows
renamed_back a b [] h = refl
renamed_back a b (r ∷ rows) h =
    let rest = renamed_back a b rows (ground (arith, h)) in
    elim (Bool-cases (r.name == a)) [
      | inl same ↦
          let this : a ≡ r.name = sym ((eq_iff r.name a).0 same) in
          let row : record r { name = a } ≡ r = ap (λ n. record r { name = n }) this in
          rw (same, eq_refl b, rest) (ap (λ x. x ∷ rows) row)
      | inr other ↦
          let free : (r.name == b) ≡ false = ground (arith, h) in rw (other, free, rest) refl
    ]

committed-schemas :
    (roles : Option (List String)) (schemas : List SchemaRow) (outbox : List OutboxRow)
    (t : Database)
    → committed roles schemas outbox ≡ some t
    → t.schemas ≡ schemas
committed-schemas none schemas outbox t h = absurd (cc)
committed-schemas (some roles) schemas outbox t h =
    ap (λ (db : Database). db.schemas) (sym (some-injective _ t h))

none-ne-some : (t : Database) → none ≡ some t → ⊥
none-ne-some t h = cc

module _ (breaks : String → String → Database → Bool) where
  abbrev rename : String → String → Database → Option Database
  rename from to db = rename_schema breaks from to db

  -- A rename that succeeds found the new name free, and gives it to the schema.
  rename_schema-schemas :
      (from to : String) (s t : Database)
      → rename from to s ≡ some t
      → (has_schema to s.schemas ≡ false) × (t.schemas ≡ renamed_schemas from to s.schemas)
  unfolding rename_schema
  rename_schema-schemas from to s t h =
      elim (Bool-cases
        (breaks from to s || (not (has_schema from s.schemas) || has_schema to s.schemas))) [
          | inl stuck ↦ absurd (none-ne-some t (rw stuck at h))
          | inr free ↦ (ground (arith, free), committed-schemas _ _ _ t (rw free at h))
        ]

  -- The moves bring the one database to the other.
  abbrev pub Moved : List Move → Database → Database → Type 0
  Moved [] s u = u ≡ s
  Moved (mv ∷ rest) s u =
      (t : Database) × (rename mv.from_schema mv.to_schema s ≡ some t) × Moved rest t u

  -- The moves that are done, the last one first, brought the schemas here from the first ones.
  abbrev Done : List Move → List SchemaRow → List SchemaRow → Type 0
  Done [] first rows = rows ≡ first
  Done (mv ∷ done) first rows =
      (before : List SchemaRow) × (has_schema mv.to_schema before ≡ false)
      × (rows ≡ renamed_schemas mv.from_schema mv.to_schema before)
      × Done done first before

  roll_back-failed :
      (done : List Move) (s : Database) → (roll_back schema_exists rename done true s).0 ≡ true
  unfolding roll_back
  roll_back-failed [] s = refl
  roll_back-failed (mv ∷ done) s = elim (Option-cases (rename mv.to_schema mv.from_schema s)) [
    | inl stuck ↦ rw stuck (roll_back-failed done s)
    | inr (t, back) ↦ rw back (roll_back-failed done t)
  ]

  roll_back-restores :
      (done : List Move) (first : List SchemaRow) (s : Database)
      → Done done first s.schemas
      → (roll_back schema_exists rename done false s).0 ≡ false
      → (roll_back schema_exists rename done false s).1.schemas ≡ first
  unfolding roll_back
  roll_back-restores [] first s d h = d
  roll_back-restores (mv ∷ done) first s (before, free, moved, d) h =
      elim (Option-cases (rename mv.to_schema mv.from_schema s)) [
        | inl stuck ↦ absurd (true-ne-false (sym (roll_back-failed done s) ∙ (rw stuck at h)))
        | inr (u, back) ↦
            let back_rows = (rename_schema-schemas mv.to_schema mv.from_schema s u back).1 in
            let e : u.schemas ≡ before =
              back_rows
              ∙ ap (renamed_schemas mv.to_schema mv.from_schema) moved
              ∙ renamed_back mv.from_schema mv.to_schema before free in
            rw back (roll_back-restores done first u (rw e d) (rw back at h))
      ]

  abbrev AllEnds : List SchemaRow → List Move → Database → Migrated × Database → Type 0
  AllEnds first rest s (migrated, s') = Moved rest s s'
  AllEnds first rest s (failed mv true, s') = Unit {0}
  AllEnds first rest s (failed mv false, s') = s'.schemas ≡ first
  AllEnds first rest s (conflict from to, s') = ⊥

  rolled_back-AllEnds :
      (mv : Move) (rest : List Move) (first : List SchemaRow) (s : Database) (r : Bool × Database)
      → (r.0 ≡ false → r.1.schemas ≡ first)
      → AllEnds first (mv ∷ rest) s (rolled_back schema_exists rename mv r)
  rolled_back-AllEnds mv rest first s (true, u) h = tt
  rolled_back-AllEnds mv rest first s (false, u) h = h refl

  next_move-AllEnds :
      (mv : Move) (rest : List Move) (first : List SchemaRow) (s t : Database)
      → rename mv.from_schema mv.to_schema s ≡ some t
      → (result : Migrated × Database) → AllEnds first rest t result
      → AllEnds first (mv ∷ rest) s result
  next_move-AllEnds mv rest first s t moved (migrated, u) h = (t, moved, h)
  next_move-AllEnds mv rest first s t moved (failed x true, u) h = tt
  next_move-AllEnds mv rest first s t moved (failed x false, u) h = h
  next_move-AllEnds mv rest first s t moved (conflict from to, u) h = h

  move_all-AllEnds :
      (rest done : List Move) (first : List SchemaRow) (s : Database)
      → Done done first s.schemas
      → AllEnds first rest s (move_all schema_exists rename rest done s)
  unfolding move_all
  move_all-AllEnds [] done first s d = refl
  move_all-AllEnds (mv ∷ rest) done first s d =
      elim (Option-cases (rename mv.from_schema mv.to_schema s)) [
        | inl stuck ↦ rw stuck (
            rolled_back-AllEnds mv rest first s (roll_back schema_exists rename done false s)
              (roll_back-restores done first s d))
        | inr (t, moved) ↦ rw moved (
            next_move-AllEnds mv rest first s t moved _ (
              let found = rename_schema-schemas mv.from_schema mv.to_schema s t moved in
              move_all-AllEnds rest (mv ∷ done) first t (s.schemas, found.0, found.1, d)))
      ]

  abbrev pub clashes : DataMigration → Database → Bool
  clashes m s = schema_exists (schema_name m.from_cube) s && schema_exists (schema_name m.to_cube) s

  -- the plan has a move for each source that is there
  abbrev pub plan_moves : List DataMigration → Database → List Move
  plan_moves [] s = []
  plan_moves (m ∷ ms) s =
      if schema_exists (schema_name m.from_cube) s
      then record { from_schema = schema_name m.from_cube; to_schema = schema_name m.to_cube }
        ∷ plan_moves ms s
      else plan_moves ms s

  abbrev PlanEnds : List DataMigration → Database → Plan → Type 0
  PlanEnds ms s (moves plan) = (any (λ m. clashes m s) ms ≡ false) × (plan ≡ plan_moves ms s)
  PlanEnds ms s (conflicting from to) = any (λ m. clashes m s) ms ≡ true

  planned-PlanEnds :
      (there free : Bool) (m : DataMigration) (ms : List DataMigration) (s : Database) (rest : Plan)
      → schema_exists (schema_name m.from_cube) s ≡ there
      → schema_exists (schema_name m.to_cube) s ≡ free
      → PlanEnds ms s rest
      → PlanEnds (m ∷ ms) s (planned there free m rest)
  planned-PlanEnds true true m ms s rest e f h = ground (arith, e, f)
  planned-PlanEnds true false m ms s (moves plan) e f h = ground (arith, e, f, h)
  planned-PlanEnds true false m ms s (conflicting from to) e f h = ground (arith, e, f, h)
  planned-PlanEnds false free m ms s (moves plan) e f h = ground (arith, e, f, h)
  planned-PlanEnds false free m ms s (conflicting from to) e f h = ground (arith, e, f, h)

  plan_of-PlanEnds :
      (ms : List DataMigration) (s : Database) → PlanEnds ms s (plan_of schema_exists rename ms s)
  unfolding plan_of
  plan_of-PlanEnds [] s = (refl, refl)
  plan_of-PlanEnds (m ∷ ms) s =
      planned-PlanEnds (schema_exists (schema_name m.from_cube) s)
        (schema_exists (schema_name m.to_cube) s) m ms s (plan_of schema_exists rename ms s) refl
        refl (plan_of-PlanEnds ms s)

  abbrev pub MigrationEnds : List DataMigration → Database → Migrated × Database → Type 0
  MigrationEnds ms s (migrated, s') =
      (any (λ m. clashes m s) ms ≡ false) × Moved (plan_moves ms s) s s'
  MigrationEnds ms s (conflict from to, s') = (any (λ m. clashes m s) ms ≡ true) × (s' ≡ s)
  MigrationEnds ms s (failed mv true, s') = any (λ m. clashes m s) ms ≡ false
  MigrationEnds ms s (failed mv false, s') =
      (any (λ m. clashes m s) ms ≡ false) × (s'.schemas ≡ s.schemas)

  moved-MigrationEnds :
      (ms : List DataMigration) (s : Database) (result : Migrated × Database)
      → any (λ m. clashes m s) ms ≡ false
      → AllEnds s.schemas (plan_moves ms s) s result
      → MigrationEnds ms s result
  moved-MigrationEnds ms s (migrated, u) n h = (n, h)
  moved-MigrationEnds ms s (failed mv true, u) n h = n
  moved-MigrationEnds ms s (failed mv false, u) n h = (n, h)
  moved-MigrationEnds ms s (conflict from to, u) n h = absurd h

  follow-MigrationEnds :
      (ms : List DataMigration) (s : Database) (plan : Plan)
      → PlanEnds ms s plan
      → MigrationEnds ms s (follow schema_exists rename plan s)
  follow-MigrationEnds ms s (conflicting from to) h = (h, refl)
  follow-MigrationEnds ms s (moves plan) (n, e) =
      moved-MigrationEnds ms s (move_all schema_exists rename plan [] s) n (
        subst (λ p. AllEnds s.schemas p s (move_all schema_exists rename plan [] s)) e
          (move_all-AllEnds plan [] s.schemas s refl))

  -- With `schemaExists` and `renameSchema`, each rename of which the database may break off: a batch is
  -- refused, with nothing done, exactly if some migration has both its schemas; otherwise all sources
  -- that are there are renamed in order, or one rename fails and every schema with its tables is as
  -- it was before the batch, unless the error says that a rename back failed too. Nothing is said of
  -- the roles and of the outbox after a failure, to which the renames back add rows.
  pub migrate_data_schemas-MigrationEnds :
      (ms : List DataMigration) (s : Database)
      → MigrationEnds ms s (migrate_data_schemas schema_exists rename ms s)
  unfolding migrate_data_schemas
  migrate_data_schemas-MigrationEnds ms s =
      follow-MigrationEnds ms s (plan_of schema_exists rename ms s) (plan_of-PlanEnds ms s)
