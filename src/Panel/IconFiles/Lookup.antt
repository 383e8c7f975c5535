-- ===== src/Panel/IconFiles/Lookup.antt =====
-- The search for the file of an icon, `load_icon_from_name_uncached` of nizam-panel/src/main.c.
pub mod Names
pub mod Order
use nizam.Prelude.{
  ℕ, zero, suc, ◌+◌, ◌-◌, Bool, true, false, List, [], ◌∷◌, ◌++◌, ◌&&◌, ◌||◌, if◌then◌else◌, Option,
  none, some, length, take, ltb,
}
use nizam.Text.{Bytes, codes, has_char, fit}
use nizam.Panel.IconFiles.{
  Disk, load_icon_from_path, load_svg_icon_from_path, ends_with, or_next, first_icon,
  try_icon_path_raster, try_icon_path_svg,
}
use nizam.Panel.IconFiles.Roots.{icon_roots}

unfoldable pub has_icon_ext : Bytes → Bool
unfolding ends_with
has_icon_ext name =
    ends_with name (codes ".png") || ends_with name (codes ".xpm") || ends_with name (codes ".svg")

-- The files beside a path that names no extension.
unfoldable pub with_exts : Disk → Bytes → ℕ → Option ℕ
unfolding load_icon_from_path load_svg_icon_from_path
with_exts d name size = or_next (load_icon_from_path d (fit 1024 (name ++ codes ".png"))) (
    or_next (load_icon_from_path d (fit 1024 (name ++ codes ".xpm")))
      (load_svg_icon_from_path d size (fit 1024 (name ++ codes ".svg"))))

-- A name with a slash is a path.
unfoldable pub load_path : Disk → Bytes → ℕ → Option ℕ
unfolding ends_with load_icon_from_path load_svg_icon_from_path has_icon_ext with_exts
load_path d name size =
    or_next (if ends_with name (codes ".svg") then load_svg_icon_from_path d size name else none) (
      or_next (load_icon_from_path d name)
        (if has_icon_ext name then none else with_exts d name size))

-- The name that is looked up: without an extension of its own, where it fits a buffer of 512 bytes.
unfoldable pub lookup_name : Bytes → Bytes
unfolding has_icon_ext
lookup_name name =
    if has_icon_ext name && ltb 4 (length name) && ltb (length name) 512
    then take (length name - 4) name
    else name

abbrev pub themes : List Bytes
themes = codes "hicolor" ∷ codes "Adwaita" ∷ codes "AdwaitaLegacy" ∷ []

abbrev pub sizes : List Bytes
sizes =
    codes "16"
    ∷ codes "22"
    ∷ codes "24"
    ∷ codes "32"
    ∷ codes "48"
    ∷ codes "64"
    ∷ codes "96"
    ∷ codes "128"
    ∷ codes "256"
    ∷ []

unfoldable pub raster_in_themes : Disk → List Bytes → Bytes → Option ℕ
unfolding first_icon try_icon_path_raster
raster_in_themes d roots lookup =
    first_icon
      (λ theme.
        first_icon
          (λ root.
            first_icon
              (λ sz.
                or_next (try_icon_path_raster d root theme sz lookup (codes ".png"))
                  (try_icon_path_raster d root theme sz lookup (codes ".xpm")))
              sizes)
          roots)
      themes

unfoldable pub svg_in_themes : Disk → List Bytes → Bytes → ℕ → Option ℕ
unfolding first_icon try_icon_path_svg
svg_in_themes d roots lookup size =
    first_icon (λ theme. first_icon (λ root. try_icon_path_svg d root theme lookup size) roots)
      themes

abbrev pub scalable_apps : Bytes → Bytes
scalable_apps lookup = codes "/usr/share/icons/hicolor/scalable/apps/" ++ lookup ++ codes ".svg"

abbrev pub pixmaps : Bytes → Bytes
pixmaps file = codes "/usr/share/pixmaps/" ++ file

unfoldable pub in_pixmaps : Disk → Bytes → ℕ → Option ℕ
unfolding load_icon_from_path load_svg_icon_from_path
in_pixmaps d lookup size =
    or_next (load_icon_from_path d (fit 1024 (pixmaps (lookup ++ codes ".png")))) (
      or_next (load_icon_from_path d (fit 1024 (pixmaps (lookup ++ codes ".xpm"))))
        (load_svg_icon_from_path d size (fit 1024 (pixmaps (lookup ++ codes ".svg")))))

unfoldable pub outside_themes : Disk → Bytes → ℕ → Option ℕ
unfolding load_svg_icon_from_path in_pixmaps
outside_themes d lookup size =
    or_next (load_svg_icon_from_path d size (fit 1024 (scalable_apps lookup)))
      (in_pixmaps d lookup size)

unfoldable pub load_lookup : Disk → List Bytes → Bytes → ℕ → Option ℕ
unfolding raster_in_themes svg_in_themes outside_themes
load_lookup d roots lookup size =
    or_next (raster_in_themes d roots lookup)
      (or_next (svg_in_themes d roots lookup size) (outside_themes d lookup size))

unfoldable pub load_icon_from_name_uncached : Disk → Bytes → ℕ → Option ℕ
unfolding has_char load_path lookup_name load_lookup icon_roots
load_icon_from_name_uncached d [] size = none
load_icon_from_name_uncached d (c ∷ name) size =
    if has_char b'/' (c ∷ name)
    then load_path d (c ∷ name) size
    else load_lookup d (icon_roots d) (lookup_name (c ∷ name)) size
