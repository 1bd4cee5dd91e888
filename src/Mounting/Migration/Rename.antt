-- ===== src/Mounting/Migration/Rename.antt =====
-- core/src/kernel/migrate.ts, renameSchema, and core/src/pg/setup.ts, schemaExists: the rename that
-- production passes to the moves, over the schemas, roles and outbox of the database.
use Prim.Native.String
use Prim.Native.Char.{Char, code}
use qwbe.Prelude.{
  String, Bool, ◌&&◌, nat_eq, ◌||◌, not, Option, none, some, List, [], ◌++◌, ◌==◌, any, contains,
  find, map, if◌then◌else◌,
}

-- a schema and its tables
pub record SchemaRow : Type 0 where
  pub name : String
  pub tables : List String

-- a row of `qwbe.outbox`, an update of all rows of a table
pub record OutboxRow : Type 0 where
  pub cube : String
  pub table : String

pub record Database : Type 0 where
  pub schemas : List SchemaRow
  pub roles : List String
  pub outbox : List OutboxRow

abbrev pub has_schema : String → List SchemaRow → Bool
has_schema name rows = any (λ (r : SchemaRow). r.name == name) rows

-- `schemaExists`
unfoldable pub schema_exists : String → Database → Bool
schema_exists name db = has_schema name db.schemas

-- `roleName`
abbrev role_name : String → String
role_name schema = String.◌++◌ "qwbe_cube_" schema

abbrev tables_of : Option SchemaRow → List String
tables_of none = []
tables_of (some r) = r.tables

abbrev pub renamed_schemas : String → String → List SchemaRow → List SchemaRow
renamed_schemas from to rows =
    map (λ (r : SchemaRow). if r.name == from then record r { name = to } else r) rows

abbrev is_dash : Char → Bool
is_dash c = nat_eq (code c) b'-'

-- `toSchema.replace(/--/g, "/")`
unfoldable pub cube_of_schema : String → String
cube_of_schema String.[] = ""
cube_of_schema (String.◌∷◌ c String.[]) = String.◌∷◌ c ""
cube_of_schema (String.◌∷◌ c (String.◌∷◌ d s)) =
    let behind = cube_of_schema s in
    let rest = cube_of_schema (String.◌∷◌ d s) in
    if is_dash c && is_dash d then String.◌∷◌ "/" behind else String.◌∷◌ c rest

-- Every table of the schema is told to have moved.
abbrev moved_events : String → List SchemaRow → List OutboxRow
moved_events to rows =
    map
      (λ (t : String).
        let event : OutboxRow = record { cube = cube_of_schema to; table = t } in event)
      (tables_of (find (λ (r : SchemaRow). r.name == to) rows))

abbrev renamed_role : String → String → List String → Option (List String)
renamed_role from to roles =
    if not (contains roles from)
    then some roles
    else if contains roles to
    then none
    else some (map (λ (role : String). if role == from then to else role) roles)

-- the end of the transaction, which leaves nothing where the role cannot be renamed
abbrev pub committed : Option (List String) → List SchemaRow → List OutboxRow → Option Database
committed none schemas outbox = none
committed (some roles) schemas outbox =
    some (record { schemas = schemas; roles = roles; outbox = outbox })

-- Which renames the database breaks off for reasons of its own, a lost connection for one.
module _ (breaks : String → String → Database → Bool) where
  -- `renameSchema`: Postgres renames a schema that is there to a name that no schema has.
  unfoldable pub rename_schema : String → String → Database → Option Database
  rename_schema from to db =
      if breaks from to db || (not (has_schema from db.schemas) || has_schema to db.schemas)
      then none
      else let schemas = renamed_schemas from to db.schemas in
        committed (renamed_role (role_name from) (role_name to) db.roles) schemas
          (moved_events to schemas ++ db.outbox)
