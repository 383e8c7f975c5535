-- ===== src/Tests/Notifiers.antt =====
-- Status notifier items at concrete inputs.
use mathlib.Core.List.{Perm, Nodup-nil}
use nizam.Prelude.{
  ℕ, ◌≡◌, refl, true, false, ◌||◌, [], ◌∷◌, ◌++◌, arith, none, some, Bool, if◌then◌else◌, replicate,
}
use nizam.Prelude.Int.{pos}
use nizam.Text.{Bytes, codes, has_char, str_eq}
use nizam.Dock.State.{MenuItem}
use nizam.Dock.Notifier.Item.{Item, zero_item, Bus}
use nizam.Dock.Notifier.Files.{FileSystem, icon_path_in_dir}
use nizam.Dock.Notifier.Files.Ends.{icon_path_in_dir_loops}
use nizam.Dock.Notifier.Search.{Environment, best_icon_path}
use nizam.Dock.Notifier.Refresh.{Desk}
use nizam.Dock.Notifier.Registry.{
  Sni, find_by_owner, remove_by_owner, register, name_owner_changed, register_item, dispatch,
}
use nizam.Dock.Notifier.Registry.Keeps.{dispatch-IsRegistry, remove_by_owner-perm}
use nizam.Dock.Notifier.Registry.Services.{IsFirst, IsRegistry}
use nizam.Dock.Notifier.Registry.Lists.{Registered, IsListed, register_item-IsListed}
use nizam.Dock.Notifier.MenuTree.{
  Builder, Children, node, end, child, skipped, label, visible, menu_builder_push, fetched_items,
  menu_parse_children, some_items, no_items,
}
use nizam.Dock.Notifier.MenuTree.Flat.{flat_children, fetched_items_flat}
use nizam.Dock.Notifier.MenuTree.Overrun.{push-push_overruns}

-- A file system with no directory, in which everything can be read.
abbrev flat_files : FileSystem
flat_files = record { readable = λ p. true; is_dir = λ p. false; list_dir = λ p. [] }

abbrev no_environment : Environment
no_environment = record { xdg_data_home = none; home = some (codes "/root"); xdg_data_dirs = none }

abbrev desk : Desk
desk = record {
  fs = flat_files;
  env = no_environment;
  load = λ p. some 5;
  surface_of = λ rows. some 6;
}

-- A file system with a theme of icons that has a `hicolor` directory.
abbrev icons : Bytes
icons = codes "/root/.local/share/icons"

abbrev theme_files : FileSystem
theme_files = record {
  readable = λ p. str_eq p (icons ++ codes "/breeze/mail.svg");
  is_dir = λ p.
      str_eq p icons
      || (str_eq p (icons ++ codes "/breeze") || str_eq p (icons ++ codes "/breeze/hicolor"));
  list_dir = λ p. if str_eq p icons then codes "breeze" ∷ [] else [];
}

mail_found :
    best_icon_path theme_files no_environment 2 (codes "mail")
    ≡ some (some (icons ++ codes "/breeze/mail.svg"))
unfolding best_icon_path has_char str_eq
mail_found = refl

-- A file system in which every path names a directory.
abbrev all_dirs : FileSystem
all_dirs = record { readable = λ p. false; is_dir = λ p. true; list_dir = λ p. [] }

icon_path_in_dir_loops_example :
    icon_path_in_dir all_dirs 3 (replicate 511 b'a') (codes "mail") ≡ none
icon_path_in_dir_loops_example =
    icon_path_in_dir_loops all_dirs 3 (replicate 511 b'a') (codes "mail") (omega arith) refl
      (ground arith)

-- A bus on which nothing answers.
abbrev silent : Bus
silent = record {
  get = λ s p n. none;
  get_all = λ s p. none;
  introspect = λ s p. none;
  name_owner = λ s. none;
}

abbrev no_sni : Sni
no_sni = record { items = []; cap = 0; dirty = false }

no_sni-IsRegistry : IsRegistry no_sni
no_sni-IsRegistry = record { within = omega arith; distinct = Nodup-nil }

dispatch_example : IsRegistry (
    dispatch desk no_sni (
      (silent, true, register (codes ":1.5") (codes "/item"))
      ∷ (silent, true, register (codes ":1.6") [])
      ∷ (silent, true, name_owner_changed (codes ":1.5") (codes ":1.5") [])
      ∷ []))
dispatch_example = dispatch-IsRegistry desk no_sni _ no_sni-IsRegistry

register_item_example :
    (service : Bytes) × Registered (codes ":1.5") (codes "/item") service
    × IsListed service no_sni.items
        (register_item desk silent true no_sni (codes ":1.5") (codes "/item")).items
register_item_example = register_item-IsListed desk silent no_sni (codes ":1.5") (codes "/item")

abbrev owned : Bytes → Bytes → Item
owned service owner = record zero_item { service = service; owner = owner }

abbrev three : Sni
three = record {
  items =
      owned (codes "a") (codes ":1")
      ∷ owned (codes "b") (codes ":2")
      ∷ owned (codes "c") (codes ":2")
      ∷ [];
  cap = 8;
  dirty = false;
}

second_owns : find_by_owner three.items (codes ":2") ≡ some 1
unfolding find_by_owner str_eq
second_owns = refl

remove_by_owner_example :
    (v : Item) × IsFirst (λ j. str_eq j.owner (codes ":2")) three.items v
    × Perm (v ∷ (remove_by_owner three (codes ":2")).items) three.items
    × ((remove_by_owner three (codes ":2")).dirty ≡ true)
remove_by_owner_example = remove_by_owner-perm three (codes ":2") 1 second_owns

abbrev all_given : ℕ → Bool
all_given n = true

-- A menu with a submenu and an entry that is hidden.
abbrev menu : Children
menu =
    child (node (pos 1) (label (codes "File") ∷ []) (child (node (pos 2) [] end) (skipped end)))
      (child (node (pos 3) (visible false ∷ []) end) end)

fetched_items_example :
    (fetched_items all_given menu ≡ some_items (flat_children 0 menu))
    × ((menu_parse_children all_given 0 menu no_items).overrun ≡ false)
fetched_items_example = fetched_items_flat all_given (λ n. refl) menu

abbrev row : MenuItem
row = record {
  id = pos 1;
  label = [];
  enabled = true;
  separator = false;
  level = 0;
  submenu = false;
}

abbrev full : Builder
full = record { items = replicate 8 row; cap = 8; room = 8; overrun = false }

push-push_example :
    (menu_builder_push (λ n. false) (menu_builder_push (λ n. false) full row) row).overrun ≡ true
push-push_example =
    push-push_overruns (λ n. false) full row row (omega arith) refl (omega arith) refl
