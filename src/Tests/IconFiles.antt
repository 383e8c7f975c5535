-- ===== src/Tests/IconFiles.antt =====
-- The icon files of the panel at concrete inputs.
use nizam.Prelude.{◌≡◌, refl, [], ◌∷◌, ◌++◌, arith, none, some, if◌then◌else◌}
use nizam.Text.{codes, str_eq, has_char, fit}
use nizam.Panel.IconFiles.{Disk, path_parent, first_icon}
use nizam.Panel.IconFiles.Roots.{exe_icons_root}
use nizam.Panel.IconFiles.Roots.Nearest.{Nearest, path_parent-slash, exe_icons_root-Nearest}
use nizam.Panel.IconFiles.Lookup.{load_icon_from_name_uncached, load_lookup, has_icon_ext}
use nizam.Panel.IconFiles.Lookup.Names.{load_icon_from_name_uncached-append}
use nizam.Panel.IconFiles.Lookup.Order.{attempt, attempts, load_lookup_flat}
use nizam.Panel.IconFiles.Entry.{find_desktop_icon_for_class}

-- One directory with icons, beside the directory of the executable, and one icon.
abbrev disk : Disk
disk = record {
  is_dir = str_eq (codes "/opt/nizam/nizam-common/icons");
  file_exists = str_eq (codes "/usr/share/pixmaps/foot.png");
  pixbuf = λ path. some 7;
  rsvg = λ path size. none;
  read_file = λ path.
      if str_eq path (codes "/usr/share/applications/foot.desktop")
      then some (codes "[Desktop Entry]\nName=Foot\nIcon= foot\n")
      else none;
  home = none;
  common_dir = none;
  exe = some (codes "/opt/nizam/bin/nizam-panel");
  cwd = none;
}

exe_icons_root_here :
    exe_icons_root disk (some (codes "/opt/nizam/bin/nizam-panel"))
    ≡ codes "/opt/nizam/nizam-common/icons"
unfolding exe_icons_root str_eq
exe_icons_root_here = refl

path_parent_root : path_parent (codes "/usr//") ≡ codes "/"
unfolding path_parent
path_parent_root = refl

find_desktop_icon_here : find_desktop_icon_for_class disk (codes "Foot") [] 64 ≡ some (codes "foot")
unfolding find_desktop_icon_for_class str_eq
find_desktop_icon_here = refl

path_parent-slash_example :
    path_parent (codes "/usr/bin" ++ b'/' ∷ codes "nizam-panel") ≡ codes "/usr/bin"
unfolding has_char
path_parent-slash_example =
    path_parent-slash (codes "/usr/bin") (codes "nizam-panel") (omega arith) (omega arith) refl

exe_icons_root-Nearest_example :
    Nearest disk 8
      (path_parent (fit 1024 (codes "/opt/nizam/bin/nizam-panel")))
      (exe_icons_root disk (some (codes "/opt/nizam/bin/nizam-panel")))
exe_icons_root-Nearest_example =
    exe_icons_root-Nearest disk (codes "/opt/nizam/bin/nizam-panel") (omega arith)

load_icon_from_name_uncached-append_example :
    load_icon_from_name_uncached disk (codes "foot" ++ codes ".svg") 16
    ≡ load_icon_from_name_uncached disk (codes "foot") 16
unfolding has_char has_icon_ext
load_icon_from_name_uncached-append_example =
    load_icon_from_name_uncached-append disk (codes "foot") (codes ".svg") 16 (omega arith)
      (omega arith) refl refl refl refl refl

load_lookup_flat_example :
    load_lookup disk (codes "/usr/share/icons" ∷ []) (codes "foot") 16
    ≡ first_icon (attempt disk 16) (attempts (codes "/usr/share/icons" ∷ []) (codes "foot"))
load_lookup_flat_example = load_lookup_flat disk (codes "/usr/share/icons" ∷ []) (codes "foot") 16
