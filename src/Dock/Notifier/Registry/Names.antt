-- ===== src/Dock/Notifier/Registry/Names.antt =====
-- What a refresh leaves alone: the service and the owner of an item.
use nizam.Prelude.{
  ◌≡◌, ◌∙◌, refl, Bool, true, false, ◌&&◌, List, [], ◌∷◌, arith, Option, none, some, Bool-cases,
  inl, inr, ℕ,
}
use nizam.Text.{Bytes, codes, str_eq}
use nizam.Dock.Notifier.Item.{
  Item, item_clear_icon, Variant, string, object_path, boolean, pixmaps, other, Bus,
}
use nizam.Dock.Notifier.Files.{is_empty}
use nizam.Dock.Notifier.Refresh.{
  Desk, at_child, first_child, path_has_sni, kde_path, ayatana_base, discover_item_path,
  variant_path, is_menu_path, set_menu_path, menu_property, from_all, fetch_menu_path, set_is_menu,
  fetch_item_is_menu, set_methods, introspect_item, set_icon_surface, pixmap_of,
  fetch_icon_pixmap_prop, fetch_icon_name_prop, or_source, fetch_icon, refresh_item,
}

abbrev pub SameName : Item → Item → Type 0
SameName i j = (j.service ≡ i.service) × (j.owner ≡ i.owner)

same_trans : (i j k : Item) → SameName i j → SameName j k → SameName i k
same_trans i j k a b = (b.0 ∙ a.0, b.1 ∙ a.1)

module _ (bus : Bus) where
  at_child-SameName : (i : Item) (o : Option Bytes) → SameName i (at_child bus i o)
  unfolding at_child
  at_child-SameName i none = (refl, refl)
  at_child-SameName i (some child) = ground arith

  discover-SameName : (i : Item) → SameName i (discover_item_path bus i)
  unfolding discover_item_path
  discover-SameName i = elim (Bool-cases (path_has_sni bus i.service i.path)) [
    | inl e ↦ rw e (refl, refl)
    | inr e ↦ elim (Bool-cases (path_has_sni bus i.service kde_path)) [
      | inl f ↦ rw (e, f) (refl, refl)
      | inr f ↦
          rw (e, f) (at_child-SameName i (first_child (bus.introspect i.service ayatana_base) 128))
    ]
  ]

  set_menu_path-SameName : (i : Item) (p : Bytes) → SameName i (set_menu_path i p)
  unfolding set_menu_path
  set_menu_path-SameName i p = ground arith

  menu_property-SameName :
      (i : Item) (props : List (Bytes × Option Variant)) → SameName i (menu_property i props)
  unfolding menu_property
  menu_property-SameName i [] = (refl, refl)
  menu_property-SameName i ((key, v) ∷ props) =
      elim (Bool-cases (str_eq key (codes "Menu") && is_menu_path (variant_path v))) [
        | inl e ↦ rw e (refl, refl)
        | inr e ↦ rw e (menu_property-SameName i props)
      ]

  from_all-SameName :
      (i : Item) (o : Option (List (Bytes × Option Variant))) → SameName i (from_all i o)
  from_all-SameName i none = (refl, refl)
  from_all-SameName i (some props) = menu_property-SameName i props

  fetch_menu-SameName : (i : Item) → SameName i (fetch_menu_path bus i)
  unfolding fetch_menu_path
  fetch_menu-SameName i =
      let p = variant_path (bus.get i.service i.path (codes "Menu")) in
      let j = set_menu_path i p in
      let all = bus.get_all i.service i.path in
      elim (Bool-cases (is_empty j.menu_path)) [
        | inl e ↦
            rw e (
              same_trans i j (from_all j all) (set_menu_path-SameName i p)
                (from_all-SameName j all))
        | inr e ↦ rw e (set_menu_path-SameName i p)
      ]

  is_menu-SameName : (i : Item) (o : Option Variant) → SameName i (set_is_menu i o)
  is_menu-SameName i none = (refl, refl)
  is_menu-SameName i (some (string p)) = (refl, refl)
  is_menu-SameName i (some (object_path p)) = (refl, refl)
  is_menu-SameName i (some (boolean b)) = (refl, refl)
  is_menu-SameName i (some (pixmaps l)) = (refl, refl)
  is_menu-SameName i (some other) = (refl, refl)

  set_methods-SameName : (i : Item) (o : Option Bytes) → SameName i (set_methods i o)
  unfolding set_methods
  set_methods-SameName i none = (refl, refl)
  set_methods-SameName i (some xml) = (refl, refl)

  introspect-SameName : (i : Item) → SameName i (introspect_item bus i)
  unfolding introspect_item
  introspect-SameName i = elim (Bool-cases i.introspected) [
    | inl e ↦ simp e (refl, refl)
    | inr e ↦
        simp e (
          set_methods-SameName (record i { introspected = true }) (bus.introspect i.service i.path))
  ]

module _ (d : Desk) (bus : Bus) where
  surface-SameName : (i : Item) (o : Option ℕ) (w h : ℕ) → SameName i (set_icon_surface i o w h).0
  unfolding set_icon_surface item_clear_icon
  surface-SameName i none w h = (refl, refl)
  surface-SameName i (some s) w h = (refl, refl)

  pixmap_of-SameName : (i : Item) (o : Option Variant) → SameName i (pixmap_of d i o).0
  pixmap_of-SameName i none = (refl, refl)
  pixmap_of-SameName i (some (string p)) = (refl, refl)
  pixmap_of-SameName i (some (object_path p)) = (refl, refl)
  pixmap_of-SameName i (some (boolean b)) = (refl, refl)
  pixmap_of-SameName i (some (pixmaps l)) = surface-SameName i _ _ _
  pixmap_of-SameName i (some other) = (refl, refl)

  by_pixmap-SameName :
      (i : Item) (prop : Bytes) → SameName i (fetch_icon_pixmap_prop d bus i prop).0
  unfolding fetch_icon_pixmap_prop
  by_pixmap-SameName i prop = pixmap_of-SameName i (bus.get i.service i.path prop)

  by_name-SameName : (i : Item) (prop : Bytes) → SameName i (fetch_icon_name_prop d bus i prop).0
  unfolding fetch_icon_name_prop
  by_name-SameName i prop = surface-SameName i _ 0 0

  or_source-SameName :
      (i : Item) (p : Item × Bool) (next : Item → Item × Bool)
      → SameName i p.0
      → ((j : Item) → SameName j (next j).0)
      → SameName i (or_source p next).0
  or_source-SameName i (j, true) next a b = a
  or_source-SameName i (j, false) next a b = same_trans i j (next j).0 a (b j)

  fetch_icon-SameName : (i : Item) → SameName i (fetch_icon d bus i).0
  unfolding fetch_icon
  fetch_icon-SameName i =
      let px = λ (prop : Bytes) (j : Item). fetch_icon_pixmap_prop d bus j prop in
      let nm = λ (prop : Bytes) (j : Item). fetch_icon_name_prop d bus j prop in
      let p0 = px (codes "IconPixmap") i in
      let p1 = or_source p0 (nm (codes "IconName")) in
      let p2 = or_source p1 (px (codes "AttentionIconPixmap")) in
      let p3 = or_source p2 (nm (codes "AttentionIconName")) in
      let p4 = or_source p3 (px (codes "OverlayIconPixmap")) in
      let pixmap = λ (prop : Bytes) (j : Item). by_pixmap-SameName j prop in
      let named = λ (prop : Bytes) (j : Item). by_name-SameName j prop in
      let s0 = pixmap (codes "IconPixmap") i in
      let s1 = or_source-SameName i p0 (nm (codes "IconName")) s0 (named (codes "IconName")) in
      let s2 =
        or_source-SameName i p1 (px (codes "AttentionIconPixmap")) s1
          (pixmap (codes "AttentionIconPixmap")) in
      let s3 =
        or_source-SameName i p2 (nm (codes "AttentionIconName")) s2
          (named (codes "AttentionIconName")) in
      let s4 =
        or_source-SameName i p3 (px (codes "OverlayIconPixmap")) s3
          (pixmap (codes "OverlayIconPixmap")) in
      or_source-SameName i p4 (nm (codes "OverlayIconName")) s4 (named (codes "OverlayIconName"))

  -- A refresh changes neither the service nor the owner of an item, whatever the bus answers.
  pub refresh_item-SameName : (i : Item) → SameName i (refresh_item d bus i).0
  unfolding refresh_item
  refresh_item-SameName i =
      let a = discover_item_path bus i in
      let b = fetch_menu_path bus a in
      let c = fetch_item_is_menu bus b in
      let e = introspect_item bus c in
      let f = (fetch_icon d bus e).0 in
      let menu : SameName b c =
        unfold fetch_item_is_menu in
        is_menu-SameName bus b (bus.get b.service b.path (codes "ItemIsMenu")) in
      same_trans i a f (discover-SameName bus i) (
        same_trans a b f (fetch_menu-SameName bus a) (
          same_trans b c f menu
            (same_trans c e f (introspect-SameName bus c) (fetch_icon-SameName e))))
