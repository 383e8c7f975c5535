-- ===== src/Dock/Menu.antt =====
-- The popup menu of a tray icon, nizam-dock/src/xcb_app.c: `menu_hide`, `menu_show` and where the
-- menu opens. The menu is 220 wide and 22 high for each item.
pub mod Place
use nizam.Prelude.{
  ℕ, ◌+◌, ◌*◌, ◌/◌, Bool, true, false, List, [], ◌==◌, if◌then◌else◌, Option, none, some, length,
}
use nizam.Prelude.Int.{ℤ, pos, pos_part, ◌+ℤ◌, ◌-ℤ◌, ltb_ℤ, leb_ℤ}
use nizam.Dock.State.{
  Geometry, App, World, MenuItem, Call, set_dock_stack, map_window, destroy_window, menu_draw, call,
  raise_dock, update_xembed_background,
}
use nizam.Dock.HitTest.{tray_spacing}

unfoldable pub menu_free : App → App
menu_free app = record app { menu_items = []; menu_owner_idx = 0 }

destroy_menu : App → App
destroy_menu app =
    if app.menu_window == 0
    then app
    else call (destroy_window app.menu_window) (record app { menu_window = 0 })

raise_shown : App → App
raise_shown app = if app.is_hidden then app else raise_dock true app

unfoldable pub menu_hide : World → App → App
unfolding destroy_menu raise_shown
menu_hide wd app =
    if app.menu_visible
    then update_xembed_background (
        raise_shown (
          menu_free (record (destroy_menu app) {
            menu_visible = false;
            suppress_raise_until_ms = 0;
            suppress_hide_until_ms = wd.now_ms + 250;
            menu_dirty = true;
          })))
    else app

unfoldable pub menu_place_x : ℤ → ℤ → ℤ
menu_place_x screen_w x =
    let left = x -ℤ pos 110 in
    let left' = if ltb_ℤ left (pos 2) then pos 2 else left in
    if ltb_ℤ screen_w (left' +ℤ pos 220) then screen_w -ℤ pos 220 -ℤ pos 2 else left'

unfoldable pub menu_place_y : ℤ → ℕ → ℤ → ℤ
menu_place_y screen_h menu_h y =
    let top = y -ℤ pos menu_h -ℤ pos 8 in
    let top' =
      if ltb_ℤ screen_h (top +ℤ pos menu_h) then screen_h -ℤ pos menu_h -ℤ pos 2 else top in
    if ltb_ℤ top' (pos 2) then pos 2 else top'

menu_open : World → App → ℕ → List MenuItem → ℤ → ℤ → App
menu_open wd app owner_idx items x y = record app {
  menu_visible = true;
  menu_items = items;
  menu_owner_idx = owner_idx;
  menu_x = menu_place_x wd.screen_w x;
  menu_y = menu_place_y wd.screen_h (length items * 22) y;
  menu_window = if app.menu_window == 0 then wd.new_menu_window else app.menu_window;
  suppress_hide_until_ms = wd.now_ms + 60000;
}

menu_fetched : World → App → ℕ → Option (List MenuItem) → ℤ → ℤ → App × Bool
menu_fetched wd app owner_idx none x y = (app, false)
menu_fetched wd app owner_idx (some items) x y =
    let app' = menu_open wd app owner_idx items x y in
    (call menu_draw (call (map_window app'.menu_window) app'), true)

unfoldable pub menu_show : World → App → ℕ → ℤ → ℤ → App × Bool
unfolding menu_open menu_fetched
menu_show wd app owner_idx x y =
    menu_fetched wd (menu_free app) owner_idx (wd.menu_of owner_idx) x y

-- The origin of the dock on the screen, or a guess where the X server does not tell.
dock_root : Option (ℤ × ℤ) → ℤ → ℤ → ℤ × ℤ
dock_root (some o) gx gy = o
dock_root none gx gy = (gx, gy)

-- The centre of a tray icon on the screen. The size is a positive number, as the hit test has seen.
unfoldable pub tray_icon_root_anchor : World → App → ℕ → ℤ → ℤ → ℤ → ℤ → ℤ × ℤ
unfolding dock_root
tray_icon_root_anchor wd app tray_idx ex ey rx ry =
    let g = app.geometry in
    let size = pos_part g.tray_size in
    let icon_x = g.tray_x +ℤ pos (tray_idx * (size + tray_spacing g)) in
    let (ox, oy) =
      dock_root (if app.window == 0 then none else wd.dock_origin) (rx -ℤ ex) (ry -ℤ ey) in
    if leb_ℤ g.tray_size (pos 0)
    then (rx, ry)
    else (ox +ℤ (icon_x +ℤ pos (size / 2)), oy +ℤ (g.tray_y +ℤ pos (size / 2)))
