-- ===== src/Launcher/Desktop.antt =====
-- One `.desktop` file, nizam-dock/src/config.c: the line loop of `load_launchers_from_desktop`,
-- the helpers that it calls, and the launcher that the file gives. `strdup` does not fail here.
pub mod Entry
use nizam.Prelude.{
  ℕ, suc, ◌-◌, Bool, true, false, ◌||◌, ◌&&◌, not, List, [], ◌∷◌, ◌==◌, leb, ltb, if◌then◌else◌,
  Option, none, some, length, take, drop, get_or,
}
use nizam.Text.{Bytes, codes, is_space, str_eq, case_eq, skip_while, cut_right, fgets_all}
use nizam.Launcher.Exec.{sanitize_exec}
use nizam.Launcher.Category.{pick_category_mapped}

-- ' ', '\t', '\n' and '\r'
pub is_white : ℕ → Bool
is_white c = c == b' ' || c == 9 || c == 10 || c == 13

-- `parse_bool`; the program keeps only 0 and 1 in the integers that it sets.
unfoldable pub parse_bool : Option Bytes → Bool → Bool
parse_bool none default = default
parse_bool (some s) default =
    let v = skip_while is_white s in
    if str_eq v []
    then default
    else if str_eq v (codes "1")
    then true
    else if str_eq v (codes "0")
    then false
    else if case_eq v (codes "true")
    then true
    else if case_eq v (codes "false")
    then false
    else if case_eq v (codes "yes")
    then true
    else if case_eq v (codes "no")
    then false
    else if case_eq v (codes "on")
    then true
    else if case_eq v (codes "off")
    then false
    else default

unfoldable pub key_to_bool : Bytes → Bool
key_to_bool value = parse_bool (some value) false

unfoldable pub trim_left : Bytes → Bytes
trim_left s = skip_while is_space s

unfoldable pub trim_right : Bytes → Bytes
trim_right s = cut_right is_space s

unfoldable pub strip_quotes : Bytes → Bytes
strip_quotes s =
    let first = get_or s 0 0 in
    let last = get_or s (length s - 1) 0 in
    if leb 2 (length s) && ((first == b'"' && last == b'"') || (first == b'\'' && last == b'\''))
    then drop 1 (take (length s - 1) s)
    else s

-- `strchr(s, '=')`: the text before the first '=' and the text behind it.
unfoldable pub split_eq : Bytes → Option (Bytes × Bytes)
split_eq [] = none
split_eq (c ∷ s) = elim (c == b'=') [
  | true ↦ some ([], s)
  | false ↦ elim (split_eq s) [ none ↦ none | some (k, v) ↦ some (c ∷ k, v) ]
]

-- The locals of the loop over the lines.
pub record Scan : Type 0 where
  pub in_entry : Bool
  pub managed : Bool
  pub enabled : Bool
  pub hidden : Bool
  pub nodisplay : Bool
  pub exec : Option Bytes
  pub icon : Option Bytes
  pub cats : Option Bytes

abbrev pub fresh_scan : Scan
fresh_scan = record {
  in_entry = false;
  managed = false;
  enabled = false;
  hidden = false;
  nodisplay = false;
  exec = none;
  icon = none;
  cats = none;
}

-- The ladder of `strcmp (key, …)`.
unfoldable pub set_key : Scan → Bytes → Bytes → Scan
set_key s key value =
    if str_eq key (codes "Type")
    then (if case_eq value (codes "Application") then s else record s { in_entry = false })
    else if str_eq key (codes "Hidden")
    then record s { hidden = key_to_bool value }
    else if str_eq key (codes "NoDisplay")
    then record s { nodisplay = key_to_bool value }
    else if str_eq key (codes "Exec")
    then record s { exec = some value }
    else if str_eq key (codes "Icon")
    then record s { icon = some value }
    else if str_eq key (codes "Categories")
    then record s { cats = some value }
    else if str_eq key (codes "X-Nizam-Managed")
    then record s { managed = key_to_bool value }
    else if str_eq key (codes "X-Nizam-Enabled")
    then record s { enabled = key_to_bool value }
    else s

-- A line of the form `key = value`, both trimmed, the value without its quotes.
unfoldable pub set_pair : Scan → Option (Bytes × Bytes) → Scan
set_pair s none = s
set_pair s (some (k, v)) =
    set_key s (trim_right (trim_left k)) (strip_quotes (trim_right (trim_left v)))

-- One turn of the loop, behind `trim_left(line)`.
unfoldable pub scan_cursor : Scan → Bytes → Scan
scan_cursor s [] = s
scan_cursor s (c ∷ rest) =
    if c == 10 || c == b'#' || c == b';'
    then s
    else if c == b'['
    then record s { in_entry = str_eq (take 15 (c ∷ rest)) (codes "[Desktop Entry]") }
    else if not s.in_entry
    then s
    else set_pair s (split_eq (c ∷ rest))

unfoldable pub scan_lines : Scan → List Bytes → Scan
scan_lines s [] = s
scan_lines s (line ∷ lines) = scan_lines (scan_cursor s (trim_left line)) lines

pub record Launcher : Type 0 where
  pub icon : Option Bytes
  pub cmd : Option Bytes
  pub category : Option Bytes

-- `s && *s`
unfoldable pub non_empty : Option Bytes → Bool
non_empty none = false
non_empty (some []) = false
non_empty (some (c ∷ s)) = true

abbrev pub or_empty : Option Bytes → Bytes
or_empty none = []
or_empty (some s) = s

-- The icon, or the generic one where it is missing or empty.
unfoldable pub launcher_icon : Option Bytes → Bytes
launcher_icon none = codes "nizam-app-generic"
launcher_icon (some []) = codes "nizam-app-generic"
launcher_icon (some (c ∷ s)) = c ∷ s

abbrev pub non_empty_buffer : Bytes → Option Bytes
non_empty_buffer [] = none
non_empty_buffer (c ∷ s) = some (c ∷ s)

-- `config_add_launcher` and the assignments behind it, for a command that is not empty.
unfoldable pub make_launcher : Bytes → Option Bytes → Bytes → Option Launcher
make_launcher [] icon cat_buf = none
make_launcher (c ∷ exec_clean) icon cat_buf = some (record {
  icon = some (launcher_icon icon);
  cmd = some (c ∷ exec_clean);
  category = non_empty_buffer cat_buf;
})

-- What the loop over the directory does behind the loop over the lines.
unfoldable pub scan_launcher : Scan → Option Launcher
scan_launcher s =
    if s.hidden || s.nodisplay || not s.managed || not s.enabled || not (non_empty s.exec)
    then none
    else make_launcher (sanitize_exec (or_empty s.exec) 1024) s.icon
        (pick_category_mapped 64 (or_empty s.cats))

-- The name of an entry of the directory: at least 9 bytes, ".desktop" at the end.
unfoldable pub is_desktop_name : Bytes → Bool
is_desktop_name name =
    if ltb (length name) 9 then false else str_eq (drop (length name - 8) name) (codes ".desktop")

abbrev pub cons_option : Option Launcher → List Launcher → List Launcher
cons_option none ls = ls
cons_option (some l) ls = l ∷ ls

-- One turn of the loop over the directory; a file is its name and its text, `none` where `fopen`
-- fails.
unfoldable pub file_launcher : Bytes → Option Bytes → Option Launcher
file_launcher name none = none
file_launcher name (some text) =
    if is_desktop_name name
    then scan_launcher (scan_lines fresh_scan (fgets_all 1024 text))
    else none

unfoldable pub desktop_launchers : List (Bytes × Option Bytes) → List Launcher
desktop_launchers [] = []
desktop_launchers ((name, file) ∷ dir) =
    cons_option (file_launcher name file) (desktop_launchers dir)
