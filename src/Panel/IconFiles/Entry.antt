-- ===== src/Panel/IconFiles/Entry.antt =====
-- The icon that an application's .desktop file names, nizam-panel/src/main.c: `read_desktop_icon`
-- and `find_desktop_icon_for_class`.
pub mod Icon
use nizam.Prelude.{
  ℕ, zero, suc, Bool, true, false, List, [], ◌∷◌, ◌++◌, map, ◌==◌, ◌||◌, if◌then◌else◌, Option,
  none, some, take, drop,
}
use nizam.Text.{Bytes, codes, str_eq, lower, skip_while, cut_right, fgets_all, fit}
use nizam.Panel.IconFiles.{Disk}

abbrev pub is_tab : ℕ → Bool
is_tab c = c == b' ' || c == 9

abbrev pub is_end : ℕ → Bool
is_end c = c == 10 || c == 13

-- The value behind `Icon=`, in a buffer of `out_len` bytes.
unfoldable pub icon_value : ℕ → Bytes → Bytes
unfolding skip_while cut_right
icon_value out_len line = fit out_len (cut_right is_end (skip_while is_tab (drop 5 line)))

-- A line in the section "Desktop Entry".
abbrev pub entry_line : ℕ → Bytes → Option Bytes → Option Bytes
entry_line out_len line rest =
    if str_eq (take 5 line) (codes "Icon=") then some (icon_value out_len line) else rest

unfoldable pub scan_icon : ℕ → Bool → List Bytes → Option Bytes
unfolding str_eq icon_value
scan_icon out_len in_entry [] = none
scan_icon out_len in_entry ([] ∷ lines) = scan_icon out_len in_entry lines
scan_icon out_len in_entry ((c ∷ line) ∷ lines) = elim (c == b'[') [
  | true ↦ scan_icon out_len (str_eq (take 15 (c ∷ line)) (codes "[Desktop Entry]")) lines
  | false ↦
      let rest = scan_icon out_len in_entry lines in
      if in_entry then entry_line out_len (c ∷ line) rest else rest
]

abbrev pub read_text : ℕ → Option Bytes → Option Bytes
read_text out_len none = none
read_text out_len (some text) = scan_icon out_len false (fgets_all 512 text)

unfoldable pub read_desktop_icon : Disk → Bytes → ℕ → Option Bytes
unfolding scan_icon fgets_all
read_desktop_icon d path out_len = read_text out_len (d.read_file path)

abbrev pub named : Bytes → List Bytes
named [] = []
named (c ∷ name) = (c ∷ name) ∷ []

-- The names that are tried: both as they are, then both in lower case in buffers of 128 bytes.
unfoldable pub class_names : Bytes → Bytes → List Bytes
unfolding lower
class_names instance_name class_name =
    named instance_name
    ++ named class_name
    ++ named (map lower (fit 128 instance_name))
    ++ named (map lower (fit 128 class_name))

abbrev pub entry_file : Bytes → Bytes → Bytes
entry_file dir name = fit 512 (dir ++ name ++ codes ".desktop")

abbrev pub in_user_dir : Disk → Option Bytes → Bytes → ℕ → Option Bytes
in_user_dir d none name out_len = none
in_user_dir d (some home) name out_len =
    read_desktop_icon d (entry_file (home ++ codes "/.local/share/applications/") name) out_len

-- `if (read_desktop_icon(..)) return 1;`
abbrev pub or_icon : Option Bytes → Option Bytes → Option Bytes
or_icon none rest = rest
or_icon (some icon) rest = some icon

unfoldable pub icon_of_names : Disk → ℕ → List Bytes → Option Bytes
unfolding read_desktop_icon
icon_of_names d out_len [] = none
icon_of_names d out_len (name ∷ names) = or_icon (in_user_dir d d.home name out_len) (
    or_icon (read_desktop_icon d (entry_file (codes "/usr/share/applications/") name) out_len)
      (icon_of_names d out_len names))

unfoldable pub find_desktop_icon_for_class : Disk → Bytes → Bytes → ℕ → Option Bytes
unfolding icon_of_names class_names
find_desktop_icon_for_class d instance_name class_name out_len =
    icon_of_names d out_len (class_names instance_name class_name)
