-- ===== src/Launcher/Load.antt =====
-- The sources of the launchers, nizam-dock/src/config.c: the query to the database of
-- nizam-settings, its rows, the local desktop entries as the second source, and the sort.
-- SQLite, the file system and `qsort` are parameters; allocation does not fail.
pub mod Sound
pub mod Query
use Prim.Native.String.{String}
use nizam.Prelude.{
  ℕ, ◌-◌, Bool, true, false, ◌||◌, ◌&&◌, List, [], ◌∷◌, ◌++◌, ltb, ◌==◌, if◌then◌else◌, Option,
  none, some, length, take,
}
use nizam.Text.{Bytes, codes}
use nizam.Launcher.Exec.{sanitize_exec}
use nizam.Launcher.Category.{pick_category_mapped, is_allowed_category_bucket}
use nizam.Launcher.Desktop.{
  Launcher, make_launcher, or_empty, non_empty, desktop_launchers, cons_option,
}

-- `strncat(buf, s, size - strlen(buf) - 1)`
unfoldable pub strncat : ℕ → Bytes → Bytes → Bytes
strncat size buf s = buf ++ take (size - length buf - 1) s

-- The columns that `sqlite_column_exists` looks for.
pub record Columns : Type 0 where
  pub add_to_dock : Bool
  pub deleted : Bool
  pub user_name : Bool
  pub user_exec : Bool
  pub user_categories : Bool

abbrev pub sql_size : ℕ
sql_size = 768

unfoldable pub base_sql : Columns → Bytes
base_sql c =
    if c.user_name || c.user_exec || c.user_categories
    then codes
        "SELECT coalesce(user_exec, exec) as exec, icon, category, coalesce(user_categories, categories) as categories FROM desktop_entries WHERE enabled=1"
    else codes "SELECT exec, icon, category, categories FROM desktop_entries WHERE enabled=1"

unfoldable pub add_where : Bytes → Bytes → Bytes
unfolding strncat
add_where [] sql = sql
add_where (c ∷ tail) sql = strncat sql_size (strncat sql_size sql (codes " AND ")) (c ∷ tail)

unfoldable pub deleted_sql : Columns → Bytes
deleted_sql c = if c.deleted then codes " AND coalesce(deleted,0)=0" else []

unfoldable pub order_sql : Columns → Bytes
order_sql c =
    if c.user_name
    then codes " ORDER BY category, lower(coalesce(user_name, name))"
    else codes " ORDER BY category, lower(name)"

-- The text of the query, in its buffer of 768 bytes.
unfoldable pub query_sql : Columns → Bytes → Bytes
query_sql c where_tail =
    let start = add_where where_tail (take (sql_size - 1) (base_sql c)) in
    strncat sql_size (strncat sql_size start (deleted_sql c)) (order_sql c)

-- A row of the result; `none` is an SQL NULL.
pub record Row : Type 0 where
  pub exec : Option Bytes
  pub icon : Option Bytes
  pub cat : Option Bytes
  pub cats : Option Bytes

unfoldable pub row_category : Row → Bytes
row_category r =
    if non_empty r.cat && is_allowed_category_bucket (or_empty r.cat)
    then take 63 (or_empty r.cat)
    else pick_category_mapped 64 (or_empty r.cats)

unfoldable pub row_launcher : Row → Option Launcher
row_launcher r =
    if non_empty r.exec
    then make_launcher (sanitize_exec (or_empty r.exec) 1024) r.icon (row_category r)
    else none

-- The loop over the rows.
unfoldable pub row_launchers : List Row → List Launcher
row_launchers [] = []
row_launchers (r ∷ rows) = cons_option (row_launcher r) (row_launchers rows)

-- An opened database: its columns, and the rows of a query, `none` if it cannot be prepared.
pub record Database : Type 0 where
  pub columns : Columns
  pub run : Bytes → Option (List Row)

unfoldable pub rows_of : Option (List Row) → List Launcher
rows_of none = []
rows_of (some rows) = row_launchers rows

-- `load_launchers_from_nizam_db`; `none` is a database that has no path or cannot be opened.
unfoldable pub db_launchers : Option Database → List Launcher
db_launchers none = []
db_launchers (some db) =
    if db.columns.add_to_dock
    then rows_of (db.run (query_sql db.columns (codes "add_to_dock=1")))
    else []

-- `load_launchers_from_desktop`; `none` is a directory that has no path or cannot be opened.
unfoldable pub local_launchers : Option (List (Bytes × Option Bytes)) → List Launcher
local_launchers none = []
local_launchers (some dir) = desktop_launchers dir

module _ (sort : List Launcher → List Launcher) where
  unfoldable pub sort_launchers : List Launcher → List Launcher
  sort_launchers l = if ltb 1 (length l) then sort l else l

  -- `nizam_dock_config_load_launchers`: the array that replaces the old one.
  unfoldable pub load_launchers :
      Option Database → Option (List (Bytes × Option Bytes)) → List Launcher
  load_launchers db dir =
      let l = db_launchers db in sort_launchers (if length l == 0 then local_launchers dir else l)
