-- ===== src/Dock/Notifier/Search.antt =====
-- The search for the file of a named icon, nizam-dock/src/sni.c: the names, and the directories of
-- the XDG base directory specification. `none` means that the fuel of a directory ran out.
use nizam.Prelude.{
  ℕ, Bool, true, false, ◌||◌, not, List, [], ◌∷◌, ◌++◌, map, ◌==◌, if◌then◌else◌, Option, none,
  some, take,
}
use nizam.Text.{Bytes, fit, codes, str_eq, has_char, lower, skip_while}
use nizam.Dock.Notifier.Files.{
  FileSystem, Found, first_readable, or_search, with_ends, join, is_empty, icon_path_in_dir,
}

is_white : ℕ → Bool
is_white c = c == b' ' || c == 9 || c == 10 || c == 13

-- The bytes up to the first one that passes the test.
unfoldable pub take_until : (ℕ → Bool) → Bytes → Bytes
take_until test [] = []
take_until test (c ∷ s) = if test c then [] else c ∷ take_until test s

-- `sni_normalize_icon_name` into a buffer of `out_size` bytes: the first word, if there is one.
unfoldable pub normalize_icon_name : Bytes → ℕ → Option Bytes
unfolding take_until is_white skip_while is_empty
normalize_icon_name name out_size =
    let word = take_until is_white (skip_while is_white name) in
    if is_empty word || out_size == 0 then none else some (fit out_size word)

-- `sni_lowercase` into a buffer of `out_size` bytes, which is not 0, where it changes anything.
unfoldable pub lowercase : Bytes → ℕ → Option Bytes
unfolding lower str_eq
lowercase s out_size =
    let cut = fit out_size s in if str_eq (map lower cut) cut then none else some (map lower cut)

-- `strtok_r` on colons: the parts that are not empty.
unfoldable pub push_token : Bytes → List Bytes → List Bytes
push_token [] l = l
push_token (c ∷ s) l = (c ∷ s) ∷ l

unfoldable pub tokens_from : Bytes → Bytes → List Bytes
unfolding push_token
tokens_from cur [] = push_token cur []
tokens_from cur (c ∷ s) = elim (c == b':') [
  | true ↦ push_token cur (tokens_from [] s)
  | false ↦ tokens_from (cur ++ c ∷ []) s
]

-- XDG_DATA_HOME, HOME and XDG_DATA_DIRS
pub record Environment : Type 0 where
  pub xdg_data_home : Option Bytes
  pub home : Option Bytes
  pub xdg_data_dirs : Option Bytes

abbrev pub filled : Option Bytes → Bytes
filled none = []
filled (some s) = s

abbrev pub or_text : Bytes → Bytes → Bytes
or_text [] d = d
or_text (c ∷ s) d = c ∷ s

abbrev pub local_share : Bytes → Bytes
local_share [] = []
local_share (c ∷ home) = fit 256 (join (c ∷ home) (codes ".local/share"))

-- At most eight directories, that of the user first.
unfoldable pub data_dirs : Environment → List Bytes
unfolding push_token tokens_from
data_dirs env =
    let user = or_text (filled env.xdg_data_home) (local_share (filled env.home)) in
    let system = or_text (filled env.xdg_data_dirs) (codes "/usr/local/share:/usr/share") in
    take 8 (push_token user (tokens_from [] system))

abbrev pub is_hidden : Bytes → Bool
is_hidden [] = false
is_hidden (c ∷ s) = c == b'.'

-- The themes in a directory of icons.
unfoldable pub icon_path_in_themes : FileSystem → ℕ → Bytes → Bytes → List Bytes → Found
unfolding icon_path_in_dir
icon_path_in_themes fs fuel root name [] = some none
icon_path_in_themes fs fuel root name (entry ∷ entries) =
    let theme = fit 512 (join root entry) in
    let rest = icon_path_in_themes fs fuel root name entries in
    if is_hidden entry || not (fs.is_dir theme)
    then rest
    else or_search (icon_path_in_dir fs fuel theme name) rest

abbrev pub pix_exts : List Bytes
pix_exts = codes ".png" ∷ codes ".svg" ∷ codes ".xpm" ∷ []

unfoldable pub in_icons : FileSystem → ℕ → Bytes → Bytes → Found
unfolding icon_path_in_themes
in_icons fs fuel root name =
    if fs.is_dir root then icon_path_in_themes fs fuel root name (fs.list_dir root) else some none

unfoldable pub in_pixmaps : FileSystem → Bytes → Bytes → Found
unfolding first_readable
in_pixmaps fs root name =
    if fs.is_dir root
    then some (first_readable fs 512 (with_ends (join root name) pix_exts))
    else some none

unfoldable pub icon_path_in_dirs : FileSystem → ℕ → Bytes → List Bytes → Found
unfolding in_icons in_pixmaps
icon_path_in_dirs fs fuel name [] = some none
icon_path_in_dirs fs fuel name (d ∷ dirs) =
    or_search (in_icons fs fuel (fit 256 (join d (codes "icons"))) name) (
      or_search (in_pixmaps fs (fit 256 (join d (codes "pixmaps"))) name)
        (icon_path_in_dirs fs fuel name dirs))

abbrev pub near_files : Bytes → List Bytes
near_files name =
    with_ends name (codes ".png" ∷ codes ".svg" ∷ codes ".svgz" ∷ codes ".xpm" ∷ [])
    ++ ((codes "/usr/share/pixmaps/" ++ name) ∷ [])

abbrev pub last_files : Bytes → List Bytes
last_files name =
    with_ends (codes "/usr/share/pixmaps/" ++ name) pix_exts
    ++ ((codes "/usr/share/pixmaps/" ++ name) ∷ [])

-- `sni_best_icon_path` into a buffer of 512 bytes. A file that is there can be opened, and `strdup`
-- does not fail.
unfoldable pub best_icon_path : FileSystem → Environment → ℕ → Bytes → Found
unfolding first_readable icon_path_in_dirs data_dirs
best_icon_path fs env fuel [] = some none
best_icon_path fs env fuel (c ∷ s) =
    let name = c ∷ s in
    if has_char b'/' name
    then (if fs.readable name then some (some (fit 512 name)) else some none)
    else or_search (some (first_readable fs 512 (near_files name))) (
        or_search (icon_path_in_dirs fs fuel name (data_dirs env))
          (some (first_readable fs 512 (last_files name))))

-- The name is tried as it is, and then in lower case.
unfoldable pub named_icon_path : FileSystem → Environment → ℕ → Bytes → Found
unfolding best_icon_path lowercase
named_icon_path fs env fuel normalized =
    or_search (best_icon_path fs env fuel normalized) (elim (lowercase normalized 256) [
      | none ↦ some none
      | some low ↦ best_icon_path fs env fuel low
    ])
