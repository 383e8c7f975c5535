-- ===== src/Dock/Notifier/MenuTree.antt =====
-- The menu of a status notifier item, nizam-dock/src/sni.c: the tree that the item answers is put
-- into a list, in an array that grows. `grants n` says whether the memory for `n` items is given.
pub mod Flat
pub mod Overrun
use nizam.Prelude.{
  ℕ, zero, suc, ◌+◌, ◌-◌, ◌*◌, Bool, true, false, ◌||◌, not, List, [], ◌∷◌, ◌++◌, ltb, leb, ◌==◌,
  if◌then◌else◌, Option, none, some, length, take,
}
use nizam.Prelude.Int.{ℤ, pos, eqb_ℤ}
use nizam.Text.{Bytes, fit, codes, str_eq}
use nizam.Dock.State.{MenuItem}

-- The properties of a node that are read, by their key and type.
pub data Property : Type 0 where
  label : Bytes → Property
  enabled : Bool → Property
  visible : Bool → Property
  kind : Bytes → Property
  children_display : Bytes → Property
  unread : Property

-- A node as D-Bus sends it. A child is a struct, a variant with a struct in it, or a variant with
-- something else.
mutual
  pub data Node : Type 0 where
    node : ℤ → List Property → Children → Node

  pub data Children : Type 0 where
    end : Children
    child : Node → Children → Children
    skipped : Children → Children

-- `room` is what the array can hold, and `overrun` that something was written behind it.
pub record Builder : Type 0 where
  pub items : List MenuItem
  pub cap : ℕ
  pub room : ℕ
  pub overrun : Bool

abbrev pub no_items : Builder
no_items = record { items = []; cap = 0; room = 0; overrun = false }

-- `(*items)[(*count)++] = *item_in;`, where there is an array.
unfoldable pub put_item : Builder → MenuItem → Builder
put_item b x =
    if b.room == 0
    then b
    else record b { items = b.items ++ x ∷ []; overrun = b.overrun || leb b.room (length b.items) }

-- `menu_builder_push`: the new capacity is kept also where the memory for it is not given.
unfoldable pub menu_builder_push : (ℕ → Bool) → Builder → MenuItem → Builder
unfolding put_item
menu_builder_push grants b x =
    if b.cap == 0
    then put_item (record b { cap = 8; room = if grants 8 then 8 else 0 }) x
    else if leb b.cap (length b.items)
    then (if grants (b.cap * 2)
        then put_item (record b { cap = b.cap * 2; room = b.cap * 2 }) x
        else record b { cap = b.cap * 2 })
    else put_item b x

unfoldable pub read_property : MenuItem → Property → MenuItem
unfolding str_eq
read_property x (label s) = record x { label = fit 128 s }
read_property x (enabled b) = record x { enabled = b }
read_property x (visible b) =
    if b then x else record x { enabled = false; label = []; separator = true }
read_property x (kind s) = if str_eq s (codes "separator") then record x { separator = true } else x
read_property x (children_display s) =
    if str_eq s (codes "submenu") then record x { submenu = true } else x
read_property x unread = x

unfoldable pub read_properties : MenuItem → List Property → MenuItem
unfolding read_property
read_properties x [] = x
read_properties x (p ∷ ps) = read_properties (read_property x p) ps

unfoldable pub node_item : ℤ → ℕ → List Property → MenuItem
unfolding read_properties
node_item id level props =
    read_properties
      (record {
        id = id;
        label = [];
        enabled = true;
        separator = false;
        level = level;
        submenu = false;
      })
      props

abbrev pub push_shown : (ℕ → Bool) → Builder → ℤ → MenuItem → Builder
push_shown grants b id x = if eqb_ℤ id (pos 0) then b else menu_builder_push grants b x

-- `menu_parse_node`: no node below the fifth level is read, and the node 0 is no item.
unfoldable mutual
  unfolding node_item menu_builder_push

  pub menu_parse_node : (ℕ → Bool) → ℕ → Node → Builder → Builder
  menu_parse_node grants level (node id props kids) b =
      let read =
        menu_parse_children grants (level + 1) kids
          (push_shown grants b id (node_item id level props)) in
      if ltb 4 level then b else read

  pub menu_parse_children : (ℕ → Bool) → ℕ → Children → Builder → Builder
  menu_parse_children grants level end b = b
  menu_parse_children grants level (child n kids) b =
      menu_parse_children grants level kids (menu_parse_node grants level n b)
  menu_parse_children grants level (skipped kids) b = menu_parse_children grants level kids b

abbrev pub some_items : List MenuItem → Option (List MenuItem)
some_items [] = none
some_items (x ∷ l) = some (x ∷ l)

-- The end of `nizam_dock_sni_menu_fetch`, from the children of the layout's root.
unfoldable pub fetched_items : (ℕ → Bool) → Children → Option (List MenuItem)
unfolding menu_parse_children
fetched_items grants kids = some_items (menu_parse_children grants 0 kids no_items).items
