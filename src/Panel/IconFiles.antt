-- ===== src/Panel/IconFiles.antt =====
-- The files in which the panel looks for an icon, nizam-panel/src/main.c: the paths, and the loaders
-- that read one of them. A surface is a number. The libraries that decode a picture are parameters;
-- a build without librsvg is one where `rsvg` decodes nothing.
pub mod First
pub mod Roots
pub mod Lookup
pub mod Entry
use mathlib.Core.List.{flat_map}
use nizam.Prelude.{
  ℕ, zero, suc, ◌+◌, ◌-◌, Bool, true, false, List, [], ◌∷◌, ◌++◌, map, if◌then◌else◌, Option, none,
  some, length, take, drop, ltb, ◌==◌, not,
}
use nizam.Text.{Bytes, codes, str_eq, cut_right, last_index, fit}

-- The files and the environment of the process.
pub record Disk : Type 0 where
  pub is_dir : Bytes → Bool
  pub file_exists : Bytes → Bool
  pub pixbuf : Bytes → Option ℕ
  pub rsvg : Bytes → ℕ → Option ℕ
  pub read_file : Bytes → Option Bytes
  pub home : Option Bytes
  pub common_dir : Option Bytes
  pub exe : Option Bytes
  pub cwd : Option Bytes

unfoldable pub dir_exists : Disk → Bytes → Bool
dir_exists d [] = false
dir_exists d (c ∷ path) = d.is_dir (c ∷ path)

abbrev pub is_slash : ℕ → Bool
is_slash c = c == b'/'

-- The part in front of the last slash; the slash itself where it comes first.
abbrev pub before_slash : Bytes → Option ℕ → Bytes
before_slash path none = []
before_slash path (some zero) = take 1 path
before_slash path (some (suc i)) = take (suc i) path

-- The loop strips the slashes at the end, down to one byte.
unfoldable pub path_parent : Bytes → Bytes
unfolding cut_right last_index
path_parent [] = []
path_parent (c ∷ path) =
    let stripped = c ∷ cut_right is_slash path in before_slash stripped (last_index b'/' stripped)

abbrev pub common_icons : Bytes
common_icons = codes "/nizam-common/icons"

unfoldable pub build_common_icons_path : ℕ → Bytes → Option Bytes
build_common_icons_path dst_sz base =
    if ltb dst_sz (length base + length common_icons + 1) then none else some (base ++ common_icons)

unfoldable pub load_icon_from_path : Disk → Bytes → Option ℕ
load_icon_from_path d [] = none
load_icon_from_path d (c ∷ path) = if d.file_exists (c ∷ path) then d.pixbuf (c ∷ path) else none

unfoldable pub load_svg_icon_from_path : Disk → ℕ → Bytes → Option ℕ
load_svg_icon_from_path d size [] = none
load_svg_icon_from_path d size (c ∷ path) =
    if d.file_exists (c ∷ path) then d.rsvg (c ∷ path) size else none

unfoldable pub ends_with : Bytes → Bytes → Bool
unfolding str_eq
ends_with s suffix =
    if ltb (length s) (length suffix)
    then false
    else str_eq (drop (length s - length suffix) s) suffix

-- `if (surf) return surf;`
abbrev pub or_next : Option ℕ → Option ℕ → Option ℕ
or_next none next = next
or_next (some surf) next = some surf

-- A loop that returns the first surface.
unfoldable pub first_icon : {A : Type 0} → (A → Option ℕ) → List A → Option ℕ
first_icon f [] = none
first_icon f (a ∷ l) = or_next (f a) (first_icon f l)

abbrev pub slash : Bytes → Bytes → Bytes
slash a b = a ++ b'/' ∷ b

abbrev pub icon_dirs : List Bytes
icon_dirs =
    codes "apps"
    ∷ codes "categories"
    ∷ codes "places"
    ∷ codes "actions"
    ∷ codes "status"
    ∷ codes "devices"
    ∷ codes "mimetypes"
    ∷ codes "emblems"
    ∷ []

-- `%dx%d`
abbrev pub square : Bytes → Bytes
square sz = sz ++ b'x' ∷ sz

-- The room that is allocated for the path of a raster icon.
unfoldable pub raster_need : Bytes → Bytes → Bytes → Bytes → Bytes → ℕ
raster_need root theme dir name ext =
    length root + 1 + length theme + 1 + 10 + 1 + length dir + 1 + length name + length ext + 1

abbrev pub raster_path : Bytes → Bytes → Bytes → Bytes → Bytes → Bytes → Bytes
raster_path root theme sz name ext dir =
    slash root (slash theme (slash (square sz) (slash dir (name ++ ext))))

-- A size is given by its decimal digits.
unfoldable pub try_icon_path_raster : Disk → Bytes → Bytes → Bytes → Bytes → Bytes → Option ℕ
unfolding first_icon load_icon_from_path raster_need
try_icon_path_raster d root theme sz name ext =
    first_icon
      (λ dir.
        load_icon_from_path d
          (fit (raster_need root theme dir name ext) (raster_path root theme sz name ext dir)))
      icon_dirs

unfoldable pub svg_need : Bytes → Bytes → Bytes → Bytes → Bytes → ℕ
svg_need root theme size_dir dir name =
    length root + 1 + length theme + 1 + length size_dir + 1 + length dir + 1 + length name + 4 + 1

abbrev pub svg_path : Bytes → Bytes → Bytes → Bytes → Bytes → Bytes
svg_path root theme size_dir dir name =
    slash root (slash theme (slash size_dir (slash dir (name ++ codes ".svg"))))

abbrev pub svg_size_dirs : List Bytes
svg_size_dirs = codes "scalable" ∷ codes "symbolic" ∷ []

-- The names that are tried: the name, and the symbolic variant in a buffer of 512 bytes unless the
-- name is symbolic.
unfoldable pub svg_names : Bytes → List Bytes
unfolding ends_with
svg_names name =
    if ends_with name (codes "-symbolic")
    then name ∷ []
    else name ∷ fit 512 (name ++ codes "-symbolic") ∷ []

unfoldable pub try_icon_path_svg : Disk → Bytes → Bytes → Bytes → ℕ → Option ℕ
unfolding first_icon load_svg_icon_from_path svg_need svg_names
try_icon_path_svg d root theme name size =
    first_icon
      (λ size_dir.
        first_icon
          (λ dir.
            first_icon
              (λ c.
                load_svg_icon_from_path d size
                  (fit (svg_need root theme size_dir dir c) (svg_path root theme size_dir dir c)))
              (svg_names name))
          icon_dirs)
      svg_size_dirs
