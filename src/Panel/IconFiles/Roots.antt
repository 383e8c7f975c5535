-- ===== src/Panel/IconFiles/Roots.antt =====
-- The directories with icons, `load_icon_from_name_uncached` of nizam-panel/src/main.c. An empty
-- path stands for no directory.
pub mod Nearest
use nizam.Prelude.{
  ℕ, zero, suc, Bool, true, false, List, [], ◌∷◌, ◌++◌, map, if◌then◌else◌, Option, none, some,
}
use nizam.Text.{Bytes, codes, str_eq, fit}
use nizam.Panel.IconFiles.{Disk, dir_exists, path_parent, build_common_icons_path, slash}

abbrev pub is_empty : Bytes → Bool
is_empty [] = true
is_empty (c ∷ s) = false

abbrev pub existing : Disk → Bytes → Bytes
existing d root = if dir_exists d root then root else []

-- `NIZAM_COMMON_DIR`
unfoldable pub common_icons_root : Disk → Option Bytes → Bytes
unfolding dir_exists
common_icons_root d none = []
common_icons_root d (some []) = []
common_icons_root d (some (c ∷ dir)) = existing d (fit 1024 (slash (c ∷ dir) (codes "icons")))

-- One turn of the loop above the executable's directory: `parent` is what the path is cut to,
-- `rest` what the turns that are left find.
abbrev pub at_level : Disk → Option Bytes → Bytes → Bytes → Bytes
at_level d none parent rest = []
at_level d (some root) parent rest =
    if dir_exists d root then root else if is_empty parent then [] else rest

unfoldable pub walk_up : Disk → ℕ → Bytes → Bytes
unfolding dir_exists path_parent build_common_icons_path
walk_up d zero path = []
walk_up d (suc n) path =
    let rest = walk_up d n (path_parent path) in
    at_level d (build_common_icons_path 1024 path) (path_parent path) rest

-- The link of the executable is read into a buffer of 1024 bytes; an empty one is not followed.
unfoldable pub exe_icons_root : Disk → Option Bytes → Bytes
unfolding walk_up path_parent
exe_icons_root d none = []
exe_icons_root d (some []) = []
exe_icons_root d (some (c ∷ exe)) = walk_up d 8 (path_parent (fit 1024 (c ∷ exe)))

abbrev pub built : Disk → Option Bytes → Bytes
built d none = []
built d (some root) = existing d root

-- `getcwd` fails where the path does not fit its buffer.
unfoldable pub cwd_icons_root : Disk → Option Bytes → Bytes
unfolding build_common_icons_path dir_exists
cwd_icons_root d none = []
cwd_icons_root d (some cwd) = built d (build_common_icons_path 1024 cwd)

abbrev pub given : Bytes → List Bytes
given [] = []
given (c ∷ root) = (c ∷ root) ∷ []

abbrev pub in_home : Option Bytes → Bytes → Bytes
in_home none dir = []
in_home (some home) dir = fit 1024 (home ++ dir)

abbrev pub home_mark : Bytes
home_mark = codes "~/.local/share/icons"

abbrev pub dot_mark : Bytes
dot_mark = codes "~/.icons"

-- The two marks stand for directories in the user's home.
unfoldable pub resolve : Option Bytes → Bytes → Bytes
unfolding str_eq
resolve home root =
    let root' =
      if str_eq root home_mark then in_home home (codes "/.local/share/icons") else root in
    if str_eq root' dot_mark then in_home home (codes "/.icons") else root'

abbrev pub home_roots : Option Bytes → List Bytes
home_roots none = []
home_roots (some home) =
    home_mark
    ∷ dot_mark
    ∷ given (in_home (some home) (codes "/.local/share/flatpak/exports/share/icons"))

-- `icon_roots` without the ones that are missing.
unfoldable pub icon_roots : Disk → List Bytes
unfolding common_icons_root exe_icons_root cwd_icons_root resolve
icon_roots d = map (resolve d.home) (
    given (common_icons_root d d.common_dir)
    ++ given (exe_icons_root d d.exe)
    ++ given (cwd_icons_root d d.cwd)
    ++ home_roots d.home
    ++ codes "/var/lib/flatpak/exports/share/icons"
      ∷ codes "/usr/local/share/icons"
      ∷ codes "/usr/share/icons"
      ∷ [])
