-- ===== src/Launcher/Load/Sound.antt =====
-- Every launcher of the dock can be shown and run, whichever source it comes from.
use mathlib.Core.List.{Permᴰ}
use mathlib.Core.Path.{subst}
use nizam.Prelude.{
  ◌≤◌, ◌≡◌, refl, true, List, [], ◌∷◌, arith, Option, none, some, length, All, ltb, ◌==◌, ◌&&◌,
  Bool-cases, inl, inr, take_of_length-le,
}
use nizam.Text.{Bytes, codes, case_eq, str_eq, fgets_all}
use nizam.Launcher.Exec.{sanitize_exec}
use nizam.Launcher.Exec.Clean.{sanitize_exec_clean}
use nizam.Launcher.Category.{is_allowed_category_bucket, is_one_of}
use nizam.Launcher.Category.Bucket.{pick_category_mapped-is_allowed}
use nizam.Launcher.Desktop.{
  Launcher, or_empty, non_empty, file_launcher, desktop_launchers, cons_option, fresh_scan,
  scan_lines,
}
use nizam.Launcher.Desktop.Entry.{IsLaunchable, make_launcher-IsLaunchable, scan_launcher_accepts}
use nizam.Launcher.Load.{
  Row, row_category, row_launcher, row_launchers, Database, rows_of, db_launchers, query_sql,
  local_launchers, sort_launchers, load_launchers,
}

All-cons_option :
    (o : Option Launcher) (ls : List Launcher)
    → ((l : Launcher) → o ≡ some l → IsLaunchable l)
    → All IsLaunchable ls
    → All IsLaunchable (cons_option o ls)
All-cons_option none ls h k = k
All-cons_option (some l) ls h k = (h l refl, k)

file_launcher-IsLaunchable :
    (name : Bytes) (file : Option Bytes) (l : Launcher)
    → file_launcher name file ≡ some l
    → IsLaunchable l
unfolding file_launcher
file_launcher-IsLaunchable name none l h = absurd (ground arith)
file_launcher-IsLaunchable name (some text) l h =
    (scan_launcher_accepts (scan_lines fresh_scan (fgets_all 1024 text)) {l = l} (ground arith)).5

desktop_launchers-All :
    (dir : List (Bytes × Option Bytes)) → All IsLaunchable (desktop_launchers dir)
unfolding desktop_launchers
desktop_launchers-All [] = tt
desktop_launchers-All ((name, file) ∷ dir) =
    All-cons_option (file_launcher name file) (desktop_launchers dir)
      (file_launcher-IsLaunchable name file) (desktop_launchers-All dir)

-- A bucket of the database keeps its spelling; it is compared without regard to case, so its
-- length is that of a bucket.
case_eq-length : (a b : Bytes) → case_eq a b ≡ true → length a ≡ length b
unfolding case_eq str_eq
case_eq-length [] [] h = refl
case_eq-length [] (y ∷ b) h = absurd (ground arith)
case_eq-length (x ∷ a) [] h = absurd (ground arith)
case_eq-length (x ∷ a) (y ∷ b) h = omega (arith, case_eq-length a b (ground arith))

is_allowed-length : (cat : Bytes) → is_allowed_category_bucket cat ≡ true → length cat ≤ 63
unfolding is_allowed_category_bucket is_one_of
is_allowed-length [] h = omega arith
is_allowed-length (c ∷ s) h = ground (
  arith,
  case_eq-length (c ∷ s) (codes "Development"),
  case_eq-length (c ∷ s) (codes "Games"),
  case_eq-length (c ∷ s) (codes "Graphics"),
  case_eq-length (c ∷ s) (codes "Multimedia"),
  case_eq-length (c ∷ s) (codes "Office"),
  case_eq-length (c ∷ s) (codes "System"),
  case_eq-length (c ∷ s) (codes "Network"),
  case_eq-length (c ∷ s) (codes "Utilities"),
)

row_category-is_allowed : (r : Row) → is_allowed_category_bucket (row_category r) ≡ true
unfolding row_category
row_category-is_allowed r =
    elim (Bool-cases (non_empty r.cat && is_allowed_category_bucket (or_empty r.cat))) [
      | inl e ↦
          let ok : is_allowed_category_bucket (or_empty r.cat) ≡ true = ground arith in
          rw (e, take_of_length-le 63 (or_empty r.cat) (is_allowed-length (or_empty r.cat) ok)) ok
      | inr e ↦ rw e (pick_category_mapped-is_allowed (or_empty r.cats))
    ]

row_launcher-IsLaunchable : (r : Row) (l : Launcher) → row_launcher r ≡ some l → IsLaunchable l
unfolding row_launcher
row_launcher-IsLaunchable r l h =
    let (lacks, fits, _, _) = sanitize_exec_clean (or_empty r.exec) 1024 (omega arith) in
    make_launcher-IsLaunchable (sanitize_exec (or_empty r.exec) 1024) r.icon (row_category r) lacks
      fits (row_category-is_allowed r) (ground arith)

row_launchers-All : (rows : List Row) → All IsLaunchable (row_launchers rows)
unfolding row_launchers
row_launchers-All [] = tt
row_launchers-All (r ∷ rows) =
    All-cons_option (row_launcher r) (row_launchers rows) (row_launcher-IsLaunchable r)
      (row_launchers-All rows)

rows_of-All : (rows : Option (List Row)) → All IsLaunchable (rows_of rows)
unfolding rows_of
rows_of-All none = tt
rows_of-All (some rows) = row_launchers-All rows

db_launchers-All : (db : Option Database) → All IsLaunchable (db_launchers db)
unfolding db_launchers
db_launchers-All none = tt
db_launchers-All (some db) = elim (Bool-cases db.columns.add_to_dock) [
  | inl e ↦ simp e (rows_of-All (db.run (query_sql db.columns (codes "add_to_dock=1"))))
  | inr e ↦ rw e tt
]

local_launchers-All :
    (dir : Option (List (Bytes × Option Bytes))) → All IsLaunchable (local_launchers dir)
unfolding local_launchers
local_launchers-All none = tt
local_launchers-All (some dir) = desktop_launchers-All dir

All-Permᴰ : {a b : List Launcher} → Permᴰ a b → All IsLaunchable a → All IsLaunchable b
All-Permᴰ Permᴰ.nil h = tt
All-Permᴰ (Permᴰ.cons e p) h = (subst IsLaunchable e h.0, All-Permᴰ p h.1)
All-Permᴰ (Permᴰ.swap e f) h = (subst IsLaunchable f h.1.0, (subst IsLaunchable e h.0, h.1.1))
All-Permᴰ (Permᴰ.trans p q) h = All-Permᴰ q (All-Permᴰ p h)

module _ (sort : List Launcher → List Launcher)
    (perm : (l : List Launcher) → Permᴰ l (sort l)) where
  sort_launchers-All :
      (l : List Launcher) → All IsLaunchable l → All IsLaunchable (sort_launchers sort l)
  unfolding sort_launchers
  sort_launchers-All l h = elim (Bool-cases (ltb 1 (length l))) [
    | inl e ↦ rw e (All-Permᴰ (perm l) h)
    | inr e ↦ rw e h
  ]

  -- With a `qsort` that permutes its array, each launcher that the dock loads, from the database
  -- or from the local desktop entries, has a command that is not empty, holds no '%' and fits 1024
  -- bytes, an icon name that is not empty, and one of the eight categories.
  pub load_launchers-IsLaunchable :
      (db : Option Database) (dir : Option (List (Bytes × Option Bytes)))
      → All IsLaunchable (load_launchers sort db dir)
  unfolding load_launchers
  load_launchers-IsLaunchable db dir = elim (Bool-cases (length (db_launchers db) == 0)) [
    | inl e ↦ rw e (sort_launchers-All (local_launchers dir) (local_launchers-All dir))
    | inr e ↦ rw e (sort_launchers-All (db_launchers db) (db_launchers-All db))
  ]
