-- ===== src/Echo.antt =====
-- core/src/cubes/echo/feed.ts: which rows of the activity log its reader sees, and by which cursor
-- the log is read. `page` is the query of core/src/pg/activity.ts; the log is the table of rows with
-- the newest first, as the query orders it.
pub mod Paging
pub mod Comments
pub mod Authorship
use qwbe.Prelude.{
  ℕ, min, max, String, Bool, true, false, Option, none, some, List, [], ◌∷◌, ◌==◌, ◌&&◌, contains,
  filter, take, ltb, or_this, is_some, if◌then◌else◌,
}
use qwbe.Kernel.Paging.{max_limit}

-- `ActivityRow`, as far as the feed decides by it
pub record ActivityRow : Type 0 where
  pub id : ℕ
  pub cube : String
  pub entity_type : String
  pub row_id : String

pub record FeedTargetMeta : Type 0 where
  pub capture : Option String
  pub read_cap : Option String

pub record FeedRouteMeta : Type 0 where
  pub method : String
  pub permission : Option String

-- the routes of a cube that the feed looks at
pub record ReadRoutes : Type 0 where
  pub get : Option FeedRouteMeta
  pub list : Option FeedRouteMeta

abbrev held : List String → Option String → Option String
held permissions none = none
held permissions (some p) = if contains permissions p then some p else none

abbrev cap_of : Option FeedRouteMeta → List String → Option String
cap_of none permissions = none
cap_of (some route) permissions =
    if route.method == "GET" then held permissions route.permission else none

-- `readRouteCap`
unfoldable pub read_route_cap : Option ReadRoutes → List String → Option String
read_route_cap none permissions = none
read_route_cap (some routes) permissions = cap_of (or_this routes.get routes.list) permissions

abbrev captures : Option String → String → Bool
captures none e = false
captures (some capture) e = capture == e

-- `feedRowVisible`
unfoldable pub feed_row_visible : FeedTargetMeta → ActivityRow → Bool → Bool
feed_row_visible meta row target_visible =
    captures meta.capture row.entity_type && (is_some meta.read_cap && target_visible)

abbrev pub last_id : List ActivityRow → Option ℕ
last_id [] = none
last_id (row ∷ []) = some row.id
last_id (row ∷ next ∷ rows) = last_id (next ∷ rows)

pub record FeedPage : Type 0 where
  pub rows : List ActivityRow
  pub next_before : Option ℕ

-- `visiblePage`
unfoldable pub visible_page : List ActivityRow → (ActivityRow → Bool) → FeedPage
visible_page scanned is_visible = record {
  rows = filter is_visible scanned;
  next_before = last_id scanned;
}

abbrev pub before : Option ℕ → ActivityRow → Bool
before none row = true
before (some id) row = ltb row.id id

abbrev pub page_size : ℕ → ℕ
page_size limit = min (max 1 limit) max_limit

-- `page`, of the whole log or one cube's
unfoldable pub page : List ActivityRow → ℕ → Option ℕ → List ActivityRow
page log limit before_id = take (page_size limit) (filter (before before_id) log)
