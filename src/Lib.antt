-- ===== src/Lib.antt =====
-- The server of qwbe: how cubes are checked, mounted and switched, who may do what with an entity, how
-- lists are asked for, what cubes tell of one another, and how files are imported. Paths are from
-- the root of the repository.
--
-- The kernel (core/src/kernel, core/src/metadata, core/src/pg). A list route turns its query string
-- into a page request and a filter, and the store answers from one table.
-- - Kernel/Platform: what comes from outside, as a record: ids and times by the number of draws so
--   far, the text of a JSON number, and whether a text is ILIKE a pattern.
-- - Kernel/Numbers, Kernel/Paging: kernel/pagination.ts. A JavaScript number is NaN, an infinity or
--   an exact decimal fraction, so rounding above 2^53 is not modelled. `pageRequest` is
--   page_request.
-- - Kernel/ListQuery: kernel/list.ts and metadata/declarations.ts. `listPageRequest` is
--   list_page_request, `listWhere` is list_where_of.
-- - Kernel/Where: the filters that pg/rows.ts turns into SQL, evaluated with SQL's three truth
--   values; a missing field of a row is NULL. `whereClause` is matches.
-- - Kernel/Table: pg/store.ts. A table is the list of its rows in the order of created_at, each with
--   its mark of deletion. Versions, custom fields, the outbox and the activity log are not modelled,
--   and neither is the order of a page that is sorted by a field.
-- - Kernel/SortKey: kernel/sort-key.ts. A number is the two words of its double; the folding of a
--   text and its UTF-8 bytes are a parameter, as is the JSON text of an array or an object. Hex has
--   the order of hexadecimal texts, Order that of the keys.
--
-- The mounting of cubes (core/src/kernel). A cube declares a manifest; the gates refuse it or the kernel
-- mounts it, wires it to the bus and the dispatcher of commands, and asks its switch on every use.
-- - Mounting/Names: the names of cubes and what is derived from them, of manifest-validation.ts.
-- - Mounting/Manifest: the gates of manifest-validation.ts. A gate that throws if it has a reason is
--   a function to its reasons. Owners, Routes and Surface say what passing means for commands, for
--   routes, and for the surface of an agent (core/src/agent-contracts.ts).
-- - Mounting/Routes: routes.ts and mount.ts, the checks of all cubes together, and which switch rules
--   a request. `checkUniqueTables` is of kernel/store.ts.
-- - Mounting/Switches: state.ts. The file is absent, corrupt or a list of names, and a write that fails
--   leaves it as it was; whether it fails is an argument. Sets are lists of which only membership
--   and size are used.
-- - Mounting/Bus: bus.ts. What a listener does to the world and whether it fails is its own.
-- - Mounting/Commands: the dispatcher in discovery.ts, with the run of a command as a parameter.
-- - Mounting/Migration: migrate-ownership.ts and migrate.ts. A package of none is the core; whether a
--   schema exists and what a rename does are arguments, as in the source. Rename has those that
--   production passes, over the schemas, roles and outbox of a database; which renames the database
--   breaks off for reasons of its own is a parameter. Rollback says how a batch ends.
-- - Mounting/Mount: the loop of `mount` in discovery.ts with the checks before it, of
--   cube-contract.ts and core/src/capability-runtime.ts. What a cube creates is part of its definition,
--   so that late bindings and the tools of cubes are not modelled. Cubes and Sound say what a mounted
--   system is.
-- - Mounting/Ledger: ledger.ts, and what main.ts writes into it. A write of the file succeeds; the
--   file is parsed already. Provenance follows the record of a cube over any number of boots.
--
-- The custom values of rows (core/src/custom-values.ts).
-- - CustomValues: what a request may write into custom fields. JSON values are data, in which a number
--   or an array is its JSON text; conversions, lengths and dates are a parameter. The cap that
--   the source calls bytes counts code units of JSON, as its code does. Folding, Moving, Keeping,
--   Storing and Required are the parts of the theorem in Results.
--
-- The relations of cubes (core/src/kernel/space.ts, core/src/registry-runtime.ts,
-- core/src/relational-enforcement.ts). Spaces declare links; the registry answers about other cubes' rows.
-- - Relations/Spaces, Links: the links that dangle and those that are active.
-- - Relations/Registry, Reading, Captures: the registry with the permission service between. What a
--   cube answers of its own rows is a parameter that cannot write the tables of the service.
--
-- The echo feed (core/src/cubes/echo, and the statements of core/src/pg/activity.ts).
-- - Echo: which rows of the activity log are shown, and the page query with its cursor.
-- - Echo/Comments: the gates of a target and of a comment, and editing and deleting comments. The
--   registry and the permission service are those of Relations and Permissions.
-- - Echo/Paging reads the log page after page, with fuel for one page more than the log has rows, each
--   page with a cursor taking at least one row; Echo/Authorship is about editing.
--   The feed handler with its caches and adding a comment are not modelled.
--
-- The permission service (core/src/cubes/permissions, core/src/permissions-model.ts,
-- core/src/permissions-schemas.ts). Every operation reads and writes the tables of one state.
-- - Permissions/Model: the data, `grantAccess` and `matchesVisibilityView`.
-- - Permissions/Effect: an operation takes a state to an outcome and a state; messages of errors are
--   left out.
-- - Permissions/State: state.ts, the tables and their shared reads and writes. Audit traces are
--   typed, so that they are JSON data needs no test.
-- - Permissions/Foundation: foundation.ts, the decision, its batch form, claims and transfers.
-- - Permissions/Sharing, Groups, CubeAdmins, Capabilities: the files of these names.
-- - Permissions/Visibility: visibility.ts, the rule and the store predicate, and under it the pages.
--   The sets of ids that the source builds are lists here, of which only membership is used.
-- - Permissions/Counts: counts.ts, and under it what keeps the stored keys and counts right:
--   Recount and Operations for the single writes, Others for the operations that write neither
--   ownership nor grants, Runs for sequences of operations.
--
-- The mediation of routes (core/src/entity-enforcement.ts). The kernel wraps the handlers of a cube
-- with entities: Mediation has the item, create and list wrappers, with the handler as a parameter
-- that cannot write the tables of the permission service. Mediation/Endpoints chooses the wrapper of
-- an endpoint from what its schemas declare; of a handler it takes only whether there is one.
--
-- The import of files (core/src/cubes/staging). A handler loads a set, parses a chunk of text, and
-- runs the statements of one transaction.
-- - Staging/Units: texts as lists of code units, as `text[i]` reads them.
-- - Staging/Csv: the CSV half of parse.ts. An offset is the text behind it. The loop over records
--   has fuel, one unit for each code unit of the text, which Staging/Csv/Rows shows to be enough.
-- - Staging/Jsonl: the other half, with `JSON.parse` as a parameter.
-- - Staging/Chunks: import-chunks.ts, and what its statements do to the tables. The loop over
--   batches has fuel, one unit for each record, and each batch takes at least one. Ids of rows and
--   times are left out. A transaction that fails is not modelled.
-- - Staging/Handlers: the handlers of handlers.ts that import and finish.
--
-- Prelude holds the names that all modules share: Boolean tests on the native numbers, lists as the
-- array methods use them, texts, and membership. Tests applies each theorem at a concrete input.
--
-- Not modelled: finding and importing modules, the late binding of capabilities, the catalogue, the installation of
-- packages, the Postgres connection and its roles, HTTP handlers and their schemas, the other cubes,
-- the command line and the web interface.
pub mod Prelude
pub mod Kernel
pub mod Permissions
pub mod Mediation
pub mod Mounting
pub mod Relations
pub mod Echo
pub mod CustomValues
pub mod Staging
pub mod Tests
