-- ===== src/Dock/Notifier/Item.antt =====
-- An item of the tray, `struct nizam_dock_sni_item` of nizam-dock/src/sni.c, and what D-Bus answers
-- about one.
use nizam.Prelude.{ℕ, Bool, false, List, [], Option, none}
use nizam.Text.{Bytes}
use nizam.Dock.Pixels.Pixmap.{Offer}

pub record Item : Type 0 where
  pub service : Bytes
  pub owner : Bytes
  pub path : Bytes
  pub menu_path : Bytes
  pub icon : Option ℕ
  pub icon_w : ℕ
  pub icon_h : ℕ
  pub has_activate : Bool
  pub has_secondary : Bool
  pub has_context : Bool
  pub has_xayatana_secondary : Bool
  pub item_is_menu : Bool
  pub introspected : Bool

-- `memset` of an item
abbrev pub zero_item : Item
zero_item = record {
  service = [];
  owner = [];
  path = [];
  menu_path = [];
  icon = none;
  icon_w = 0;
  icon_h = 0;
  has_activate = false;
  has_secondary = false;
  has_context = false;
  has_xayatana_secondary = false;
  item_is_menu = false;
  introspected = false;
}

-- `sni_item_clear_icon`
unfoldable pub item_clear_icon : Item → Item
item_clear_icon i = record i { icon = none; icon_w = 0; icon_h = 0 }

-- `sni_item_clear_full`
unfoldable pub item_clear_full : Item → Item
unfolding item_clear_icon
item_clear_full i = record (item_clear_icon i) {
  menu_path = [];
  has_activate = false;
  has_secondary = false;
  has_context = false;
  has_xayatana_secondary = false;
  item_is_menu = false;
  introspected = false;
}

-- The value of a property, by its D-Bus type.
pub data Variant : Type 0 where
  string : Bytes → Variant
  object_path : Bytes → Variant
  boolean : Bool → Variant
  pixmaps : List Offer → Variant
  other : Variant

-- The answers of the bus. A call without an answer, or with one of another type, is `none`; an
-- answer to `get_all` that is no array is the empty list.
pub record Bus : Type 0 where
  pub get : Bytes → Bytes → Bytes → Option Variant
  pub get_all : Bytes → Bytes → Option (List (Bytes × Option Variant))
  pub introspect : Bytes → Bytes → Option Bytes
  pub name_owner : Bytes → Option Bytes
