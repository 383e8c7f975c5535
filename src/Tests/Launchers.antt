-- ===== src/Tests/Launchers.antt =====
-- The launchers of the dock at concrete inputs.
use mathlib.Core.List.Permᴰ
use nizam.Prelude.{
  ◌-◌, ◌<◌, ◌≡◌, refl, true, false, List, [], ◌∷◌, arith, none, some, length, take, All,
}
use nizam.Text.{Bytes, codes, lower, str_eq, case_eq, skip_while, cut_right, trim_len}
use nizam.Text.Trim.{StartsClear, EndsClear}
use nizam.Launcher.Exec.{sanitize_exec, is_blank, is_trailing}
use nizam.Launcher.Exec.Clean.{Lacks, sanitize_exec_clean}
use nizam.Launcher.Category.{pick_category_mapped, map_category_token, is_one_of}
use nizam.Launcher.Category.Pick.{fields, first_mapped}
use nizam.Launcher.Category.Bucket.{or_default, pick_category_mapped-first_mapped}
use nizam.Launcher.Desktop.{Scan, Launcher, scan_launcher, non_empty, make_launcher, launcher_icon}
use nizam.Launcher.Desktop.Entry.{IsLaunchable, scan_launcher_accepts}
use nizam.Launcher.Order.{compare_launchers, case_cmp, launcher_category, launcher_sort_key}
use nizam.Launcher.Order.Total.{NotAfter}
use nizam.Launcher.Load.{Columns, Database, load_launchers}
use nizam.Launcher.Load.Sound.{load_launchers-IsLaunchable}

abbrev vlc : Bytes
vlc = codes " vlc --x %U "

sanitize_exec_clean_example :
    Lacks b'%' (sanitize_exec vlc 1024)
    × (length (sanitize_exec vlc 1024) < 1024)
    × StartsClear is_blank (sanitize_exec vlc 1024)
    × EndsClear is_trailing (sanitize_exec vlc 1024)
sanitize_exec_clean_example = sanitize_exec_clean vlc 1024 (omega arith)

abbrev video : Bytes
video = codes "Qt;Video;Game;"

first_mapped_example :
    pick_category_mapped 64 video
    ≡ take (64 - 1) (or_default (first_mapped (fields video)) (codes "System"))
first_mapped_example = pick_category_mapped-first_mapped 64 video

abbrev scanned : Scan
scanned = record {
  in_entry = true;
  managed = true;
  enabled = true;
  hidden = false;
  nodisplay = false;
  exec = some (codes "ed %f");
  icon = none;
  cats = some (codes "Game");
}

abbrev editor : Launcher
editor = record {
  icon = some (codes "nizam-app-generic");
  cmd = some (codes "ed");
  category = some (codes "Games");
}

scanned-editor : scan_launcher scanned ≡ some editor
unfolding scan_launcher non_empty make_launcher sanitize_exec is_blank is_trailing skip_while
    cut_right trim_len launcher_icon pick_category_mapped map_category_token is_one_of case_eq
    str_eq lower
scanned-editor = refl

scan_launcher_accepts_example :
    (scanned.managed ≡ true)
    × (scanned.enabled ≡ true)
    × (scanned.hidden ≡ false)
    × (scanned.nodisplay ≡ false)
    × (non_empty scanned.exec ≡ true)
    × IsLaunchable editor
scan_launcher_accepts_example = scan_launcher_accepts scanned scanned-editor

abbrev player : Launcher
player = record { icon = none; cmd = some (codes "vlc"); category = some (codes "Multimedia") }

abbrev terminal : Launcher
terminal = record { icon = none; cmd = some (codes "xterm"); category = some (codes "System") }

editor-NotAfter-player : NotAfter editor player
unfolding compare_launchers case_cmp launcher_category launcher_sort_key lower
editor-NotAfter-player = ground arith

player-NotAfter-terminal : NotAfter player terminal
unfolding compare_launchers case_cmp launcher_category launcher_sort_key lower
player-NotAfter-terminal = ground arith

abbrev columns : Columns
columns = record {
  add_to_dock = true;
  deleted = true;
  user_name = true;
  user_exec = false;
  user_categories = false;
}

abbrev condition : Bytes
condition = codes "add_to_dock=1"

abbrev database : Database
database = record {
  columns = columns;
  run = λ sql. some (
      record { exec = some vlc; icon = none; cat = some (codes "Multimedia"); cats = none }
      ∷ record { exec = some (codes "ed"); icon = none; cat = none; cats = some video }
      ∷ []);
}

abbrev as_is : List Launcher → List Launcher
as_is l = l

load_launchers_example : All IsLaunchable (load_launchers as_is (some database) none)
load_launchers_example = load_launchers-IsLaunchable as_is (λ l. Permᴰ.refl l) (some database) none
