-- ===== src/Dock/Notifier/Refresh.antt =====
-- The refresh of a status notifier item, `sni_refresh_item` of nizam-dock/src/sni.c: its path, its
-- menu, what it can do, and its icon.
use nizam.Prelude.{
  ℕ, Bool, true, false, ◌&&◌, not, List, [], ◌∷◌, ◌++◌, leb, ◌==◌, if◌then◌else◌, Option, none,
  some, length,
}
use nizam.Text.{Bytes, fit, codes, str_eq}
use nizam.Dock.Pixels.{Pixel}
use nizam.Dock.Pixels.Pixmap.{nothing, best_pixmap, fetch_icon_pixmap}
use nizam.Dock.Notifier.Item.{
  Item, item_clear_icon, Variant, string, object_path, boolean, pixmaps, other, Bus,
}
use nizam.Dock.Notifier.Files.{FileSystem, Found, is_empty, join, icon_path_in_dir}
use nizam.Dock.Notifier.Search.{Environment, take_until, normalize_icon_name, named_icon_path}

-- What the dock is given beside the bus. `load` is `sni_load_icon_surface`, `surface_of` makes a
-- cairo surface of pixels.
pub record Desk : Type 0 where
  pub fs : FileSystem
  pub env : Environment
  pub load : Bytes → Option ℕ
  pub surface_of : List (List Pixel) → Option ℕ

-- The rest of a text behind a prefix.
unfoldable pub strip_prefix : Bytes → Bytes → Option Bytes
strip_prefix [] s = some s
strip_prefix (c ∷ p) [] = none
strip_prefix (c ∷ p) (d ∷ s) = if c == d then strip_prefix p s else none

-- `strstr`, with the rest behind what is found.
unfoldable pub after_text : Bytes → Bytes → Option Bytes
unfolding strip_prefix
after_text needle [] = strip_prefix needle []
after_text needle (c ∷ s) = elim (strip_prefix needle (c ∷ s)) [
  | some rest ↦ some rest
  | none ↦ after_text needle s
]

abbrev pub is_some : {A : Type 0} → Option A → Bool
is_some none = false
is_some (some a) = true

-- The name in front of a quote, where there is a quote and a name.
unfoldable pub quoted : Bytes → Option Bytes
unfolding take_until
quoted s =
    let name = take_until (λ c. c == 34) s in
    if is_empty name then none else if leb (length s) (length name) then none else some name

abbrev pub child_name : Option Bytes → Option Bytes
child_name none = none
child_name (some rest) = quoted rest

abbrev pub fit_some : ℕ → Option Bytes → Option Bytes
fit_some n none = none
fit_some n (some s) = some (fit n s)

-- `sni_introspect_first_child` into a buffer of `out_size` bytes.
unfoldable pub first_child : Option Bytes → ℕ → Option Bytes
unfolding after_text quoted is_empty
first_child none out_size = none
first_child (some xml) out_size =
    fit_some out_size (child_name (after_text (codes "node name=" ++ 34 ∷ []) xml))

abbrev pub sni_iface : Bytes
sni_iface = codes "org.kde.StatusNotifierItem"

unfoldable pub path_has_sni : Bus → Bytes → Bytes → Bool
path_has_sni bus service path = is_some (bus.get_all service path)

abbrev pub kde_path : Bytes
kde_path = codes "/org/kde/StatusNotifierItem"

abbrev pub ayatana_base : Bytes
ayatana_base = codes "/org/ayatana/NotificationItem"

unfoldable pub at_child : Bus → Item → Option Bytes → Item
unfolding path_has_sni
at_child bus i none = i
at_child bus i (some child) =
    let path = fit 192 (join ayatana_base child) in
    if path_has_sni bus i.service path then record i { path = path } else i

unfoldable pub discover_item_path : Bus → Item → Item
unfolding at_child path_has_sni first_child
discover_item_path bus i =
    if path_has_sni bus i.service i.path
    then i
    else if path_has_sni bus i.service kde_path
    then record i { path = kde_path }
    else at_child bus i (first_child (bus.introspect i.service ayatana_base) 128)

-- The path that a variant holds, where it is one of a menu.
abbrev pub variant_path : Option Variant → Bytes
variant_path (some (string p)) = p
variant_path (some (object_path p)) = p
variant_path (some (boolean b)) = []
variant_path (some (pixmaps l)) = []
variant_path (some other) = []
variant_path none = []

unfoldable pub is_menu_path : Bytes → Bool
unfolding is_empty str_eq
is_menu_path p = not (is_empty p) && not (str_eq p (codes "/"))

unfoldable pub set_menu_path : Item → Bytes → Item
unfolding is_menu_path
set_menu_path i p = if is_menu_path p then record i { menu_path = fit 256 p } else i

-- The loop over all the properties.
unfoldable pub menu_property : Item → List (Bytes × Option Variant) → Item
unfolding is_menu_path str_eq
menu_property i [] = i
menu_property i ((key, v) ∷ props) =
    let rest = menu_property i props in
    if str_eq key (codes "Menu") && is_menu_path (variant_path v)
    then record i { menu_path = fit 256 (variant_path v) }
    else rest

abbrev pub from_all : Item → Option (List (Bytes × Option Variant)) → Item
from_all i none = i
from_all i (some props) = menu_property i props

unfoldable pub fetch_menu_path : Bus → Item → Item
unfolding set_menu_path menu_property is_empty
fetch_menu_path bus i =
    let i' = set_menu_path i (variant_path (bus.get i.service i.path (codes "Menu"))) in
    if is_empty i'.menu_path then from_all i' (bus.get_all i.service i.path) else i'

abbrev pub set_is_menu : Item → Option Variant → Item
set_is_menu i (some (boolean b)) = record i { item_is_menu = b }
set_is_menu i (some (string p)) = i
set_is_menu i (some (object_path p)) = i
set_is_menu i (some (pixmaps l)) = i
set_is_menu i (some other) = i
set_is_menu i none = i

unfoldable pub fetch_item_is_menu : Bus → Item → Item
fetch_item_is_menu bus i = set_is_menu i (bus.get i.service i.path (codes "ItemIsMenu"))

abbrev pub method_mark : Bytes → Bytes
method_mark name = codes "name=" ++ 34 ∷ name ++ 34 ∷ []

unfoldable pub set_methods : Item → Option Bytes → Item
unfolding after_text
set_methods i none = i
set_methods i (some xml) =
    let has = λ (name : Bytes) (old : Bool).
      if is_some (after_text (method_mark name) xml) then true else old in
    record i {
      has_activate = has (codes "Activate") i.has_activate;
      has_secondary = has (codes "SecondaryActivate") i.has_secondary;
      has_context = has (codes "ContextMenu") i.has_context;
      has_xayatana_secondary = has (codes "XAyatanaSecondaryActivate") i.has_xayatana_secondary;
    }

unfoldable pub introspect_item : Bus → Item → Item
unfolding set_methods
introspect_item bus i =
    if i.introspected
    then i
    else set_methods (record i { introspected = true }) (bus.introspect i.service i.path)

-- `sni_set_icon_surface`, with whether there is a surface.
unfoldable pub set_icon_surface : Item → Option ℕ → ℕ → ℕ → Item × Bool
unfolding item_clear_icon
set_icon_surface i none w h = (i, false)
set_icon_surface i (some s) w h =
    (record (item_clear_icon i) { icon = some s; icon_w = w; icon_h = h }, true)

abbrev pub surface_if : Desk → Option (List (List Pixel)) → Option ℕ
surface_if d none = none
surface_if d (some rows) = d.surface_of rows

abbrev pub pixmap_of : Desk → Item → Option Variant → Item × Bool
pixmap_of d i (some (pixmaps offers)) =
    let best = best_pixmap nothing offers in
    set_icon_surface i (surface_if d (fetch_icon_pixmap offers)) best.w best.h
pixmap_of d i (some (string p)) = (i, false)
pixmap_of d i (some (object_path p)) = (i, false)
pixmap_of d i (some (boolean b)) = (i, false)
pixmap_of d i (some other) = (i, false)
pixmap_of d i none = (i, false)

unfoldable pub fetch_icon_pixmap_prop : Desk → Bus → Item → Bytes → Item × Bool
unfolding fetch_icon_pixmap best_pixmap set_icon_surface
fetch_icon_pixmap_prop d bus i prop = pixmap_of d i (bus.get i.service i.path prop)

-- What a search finds; one that does not end within its fuel finds nothing here.
abbrev pub settle : Found → Option Bytes
settle none = none
settle (some o) = o

abbrev pub load_at : Desk → Option Bytes → Option ℕ
load_at d none = none
load_at d (some path) = d.load path

abbrev pub variant_string : Option Variant → Bytes
variant_string (some (string s)) = s
variant_string (some (object_path p)) = []
variant_string (some (boolean b)) = []
variant_string (some (pixmaps l)) = []
variant_string (some other) = []
variant_string none = []

abbrev pub or_surface : Option ℕ → Option ℕ → Option ℕ
or_surface none s = s
or_surface (some s) t = some s

-- The icon of a name, from the item's own directory of icons first.
unfoldable pub named_icon : Desk → Bytes → Bytes → Option ℕ
unfolding icon_path_in_dir named_icon_path is_empty
named_icon d theme_path normalized =
    or_surface
      (if is_empty theme_path
        then none
        else load_at d (settle (icon_path_in_dir d.fs 512 theme_path normalized)))
      (load_at d (settle (named_icon_path d.fs d.env 512 normalized)))

abbrev pub icon_if_named : Desk → Bytes → Option Bytes → Option ℕ
icon_if_named d theme_path none = none
icon_if_named d theme_path (some normalized) = named_icon d theme_path normalized

unfoldable pub fetch_icon_name_prop : Desk → Bus → Item → Bytes → Item × Bool
unfolding named_icon normalize_icon_name set_icon_surface
fetch_icon_name_prop d bus i prop =
    let name = variant_string (bus.get i.service i.path prop) in
    let theme_path = variant_string (bus.get i.service i.path (codes "IconThemePath")) in
    set_icon_surface i (icon_if_named d theme_path (normalize_icon_name name 256)) 0 0

-- The next source is tried where the one before has no icon.
abbrev pub or_source : Item × Bool → (Item → Item × Bool) → Item × Bool
or_source (i, true) next = (i, true)
or_source (i, false) next = next i

unfoldable pub fetch_icon : Desk → Bus → Item → Item × Bool
unfolding fetch_icon_pixmap_prop fetch_icon_name_prop
fetch_icon d bus i =
    let by_pixmap = λ (prop : Bytes) (j : Item). fetch_icon_pixmap_prop d bus j prop in
    let by_name = λ (prop : Bytes) (j : Item). fetch_icon_name_prop d bus j prop in
    or_source
      (or_source
        (or_source
          (or_source (or_source (by_pixmap (codes "IconPixmap") i) (by_name (codes "IconName")))
            (by_pixmap (codes "AttentionIconPixmap")))
          (by_name (codes "AttentionIconName")))
        (by_pixmap (codes "OverlayIconPixmap")))
      (by_name (codes "OverlayIconName"))

-- `sni_refresh_item`, with whether it has found an icon.
unfoldable pub refresh_item : Desk → Bus → Item → Item × Bool
unfolding fetch_icon introspect_item fetch_item_is_menu fetch_menu_path discover_item_path
refresh_item d bus i =
    fetch_icon d bus (
      introspect_item bus (fetch_item_is_menu bus (fetch_menu_path bus (discover_item_path bus i))))
