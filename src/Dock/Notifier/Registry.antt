-- ===== src/Dock/Notifier/Registry.antt =====
-- The list of status notifier items, nizam-dock/src/sni.c, and the D-Bus messages that change it.
pub mod Names
pub mod Services
pub mod Removal
pub mod Keeps
pub mod Lists
use nizam.Prelude.{
  ℕ, zero, suc, ◌+◌, ◌-◌, ◌*◌, Bool, true, false, ◌&&◌, ◌||◌, not, List, [], ◌∷◌, ◌++◌, ltb, ◌==◌,
  if◌then◌else◌, Option, none, some, length, get_elem?, get_or, set, take,
}
use nizam.Text.{Bytes, fit, codes, str_eq}
use nizam.Dock.Notifier.Item.{Item, zero_item, Bus}
use nizam.Dock.Notifier.Files.{is_empty}
use nizam.Dock.Notifier.Refresh.{Desk, refresh_item}

-- `count` is the length of `items`.
pub record Sni : Type 0 where
  pub items : List Item
  pub cap : ℕ
  pub dirty : Bool

unfoldable pub set_dirty : Sni → Sni
set_dirty s = record s { dirty = true }

-- `realloc` answers whether it succeeds.
unfoldable pub ensure_capacity : Bool → Sni → Sni × Bool
ensure_capacity grows s =
    if ltb (length s.items) s.cap
    then (s, true)
    else if grows
    then (record s { cap = if s.cap == 0 then 8 else s.cap * 2 }, true)
    else (s, false)

-- The index of the first item that passes the test.
unfoldable pub find_item : (Item → Bool) → List Item → Option ℕ
find_item test [] = none
find_item test (i ∷ l) =
    if test i then some 0 else elim (find_item test l) [ none ↦ none | some j ↦ some (suc j) ]

unfoldable pub find_by_owner : List Item → Bytes → Option ℕ
unfolding find_item
find_by_owner l owner = find_item (λ i. str_eq i.owner owner) l

unfoldable pub find_by_service : List Item → Bytes → Option ℕ
unfolding find_item
find_by_service l service = find_item (λ i. str_eq i.service service) l

-- `items[i] = items[count - 1]; count--;`
unfoldable pub remove_at : List Item → ℕ → List Item
remove_at l i = take (length l - 1) (set l i (get_or l (length l - 1) zero_item))

abbrev pub remove_index : Sni → Option ℕ → Sni
remove_index s none = s
remove_index s (some i) = set_dirty (record s { items = remove_at s.items i })

-- What `sni_item_clear_full` does to an item that is dropped leaves no trace in the list.
unfoldable pub remove_by_owner : Sni → Bytes → Sni
unfolding find_by_owner remove_at set_dirty
remove_by_owner s owner = remove_index s (find_by_owner s.items owner)

abbrev pub is_unique_name : Bytes → Bool
is_unique_name [] = false
is_unique_name (c ∷ s) = c == b':'

-- `sni_get_owner` into a buffer of 128 bytes, or the sender where there is no owner.
abbrev pub owner_or : Option Bytes → Bytes → Bytes
owner_or none sender = fit 128 sender
owner_or (some owner) sender = fit 128 owner

unfoldable pub owner_of : Bus → Bytes → Bytes → Bytes
unfolding is_empty
owner_of bus service sender =
    if is_empty service
    then fit 128 sender
    else if is_unique_name service
    then fit 128 service
    else owner_or (bus.name_owner service) sender

-- The service and the path of `RegisterStatusNotifierItem`: a path is that of the sender's item.
unfoldable pub registered_name : Bytes → Bytes → Bytes × Bytes
registered_name sender [] = (fit 128 sender, codes "/StatusNotifierItem")
registered_name sender (c ∷ arg) =
    if c == b'/'
    then (fit 128 sender, fit 128 (c ∷ arg))
    else (fit 128 (c ∷ arg), codes "/StatusNotifierItem")

abbrev pub mark_if : Bool → Sni → Sni
mark_if true s = set_dirty s
mark_if false s = s

-- The item at `i` is refreshed, and the list is dirty where that has found an icon.
unfoldable pub refresh_at : Desk → Bus → Sni → ℕ → Item → Sni
unfolding set_dirty refresh_item
refresh_at d bus s i item =
    mark_if (refresh_item d bus item).1
      (record s { items = set s.items i (refresh_item d bus item).0 })

-- A service that is known keeps its item, with a new owner and path; another is appended, where
-- there is memory for it.
unfoldable pub register_at : Desk → Bus → Bool → Sni → Bytes → Bytes → Bytes → Option ℕ → Sni
unfolding refresh_at ensure_capacity
register_at d bus grows s service owner path (some i) =
    refresh_at d bus s i
      (record (get_or s.items i zero_item) { owner = owner; path = fit 256 path })
register_at d bus grows s service owner path none =
    let (s', room_given) = ensure_capacity grows s in
    if room_given
    then refresh_at d bus (record s' { items = s'.items ++ zero_item ∷ [] }) (length s'.items)
        (record zero_item { service = service; owner = owner; path = fit 256 path })
    else s'

unfoldable pub register_item : Desk → Bus → Bool → Sni → Bytes → Bytes → Sni
unfolding register_at find_by_service registered_name owner_of
register_item d bus grows s sender arg =
    let (service, path) = registered_name sender arg in
    register_at d bus grows s service (owner_of bus service sender) path
      (find_by_service s.items service)

-- The messages that change the list, in `sni_message_handler` and `sni_signal_filter`.
pub data Message : Type 0 where
  register : Bytes → Bytes → Message
  name_owner_changed : Bytes → Bytes → Bytes → Message
  item_changed : Bytes → Message
  query : Message

abbrev pub refresh_found : Desk → Bus → Sni → Option ℕ → Sni
refresh_found d bus s none = s
refresh_found d bus s (some i) = refresh_at d bus s i (get_or s.items i zero_item)

-- An owner that is gone: it has a name before, and none behind.
unfoldable pub owner_changed : Sni → Bytes → Bytes → Sni
unfolding remove_by_owner
owner_changed s [] new_owner = s
owner_changed s (c ∷ old_owner) [] = remove_by_owner s (c ∷ old_owner)
owner_changed s (c ∷ old_owner) (d ∷ new_owner) = s

-- `register` holds the sender and the argument; `grows` is what `realloc` answers.
unfoldable pub handle_message : Desk → Bus → Bool → Sni → Message → Sni
unfolding register_item owner_changed find_by_owner refresh_at
handle_message d bus grows s (register sender arg) = register_item d bus grows s sender arg
handle_message d bus grows s (name_owner_changed name old_owner new_owner) =
    owner_changed s old_owner new_owner
handle_message d bus grows s (item_changed sender) =
    refresh_found d bus s (find_by_owner s.items sender)
handle_message d bus grows s query = s

-- `dbus_connection_dispatch` until no message is left; each message comes with what the bus and
-- `realloc` answer while it is handled.
unfoldable pub dispatch : Desk → Sni → List (Bus × Bool × Message) → Sni
unfolding handle_message
dispatch d s [] = s
dispatch d s ((bus, grows, m) ∷ messages) = dispatch d (handle_message d bus grows s m) messages

-- `nizam_dock_sni_process`, with whether the dock has to be drawn again.
unfoldable pub sni_process : Desk → Sni → List (Bus × Bool × Message) → Sni × Bool
unfolding dispatch
sni_process d s messages =
    let s' = dispatch d (record s { dirty = false }) messages in (s', s'.dirty)

unfoldable pub sni_cleanup : Sni → Sni
sni_cleanup s = record s { items = []; cap = 0 }

-- What is asked of an item by its index, `d` where there is none.
unfoldable pub item_field {ℓ} : {A : Type ℓ} → (Item → A) → A → Option Item → A
item_field f d none = d
item_field f d (some i) = f i

unfoldable pub sni_icon : Sni → ℕ → Option ℕ
unfolding item_field
sni_icon s idx = item_field (λ i. i.icon) none (get_elem? s.items idx)

unfoldable pub item_has_menu : Sni → ℕ → Bool
unfolding item_field
item_has_menu s idx =
    item_field (λ i. elim i.menu_path [ [] ↦ false | _ ∷ _ ↦ true ]) false (get_elem? s.items idx)
