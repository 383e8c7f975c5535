-- ===== src/Dock/Buttons.antt =====
-- The buttons: what `process_event`, nizam-dock/src/xcb_app.c, does where one is pressed or released.
use nizam.Prelude.{
  ℕ, ◌+◌, Bool, true, false, not, ◌&&◌, ◌||◌, ◌==◌, ltb, if◌then◌else◌, Option, none, some,
  get_elem?,
}
use nizam.Prelude.Int.{ℤ, pos, pos_part, ◌/ℤ◌, leb_ℤ}
use nizam.Dock.State.{
  App, World, MenuItem, Call, menu_event, context_menu, xayatana_secondary, secondary_activate,
  activate, launch_cmd, call, cancel_hide_pending, lower_dock_for_external_popup,
  update_xembed_background,
}
use nizam.Dock.HitTest.{hit_test_launcher, hit_test_tray}
use nizam.Dock.Menu.{menu_hide, menu_show, tray_icon_root_anchor}

-- A button that is pressed or released.
pub record Button : Type 0 where
  pub event : ℕ
  pub detail : ℕ
  pub x : ℤ
  pub y : ℤ
  pub root_x : ℤ
  pub root_y : ℤ

click_item : App → Option MenuItem → App
click_item app none = app
click_item app (some item) =
    if not item.separator && item.enabled
    then call (menu_event app.menu_owner_idx item.id) app
    else app

-- The item at height `y` of the menu, if any.
unfoldable pub menu_click : App → ℤ → App
unfolding click_item
menu_click app y =
    let idx = y /ℤ 22 in
    if leb_ℤ (pos 0) idx then click_item app (get_elem? app.menu_items (pos_part idx)) else app

-- `menu_hide` with the background behind the embedded icons.
unfoldable pub close_menu : World → App → App
close_menu wd app = update_xembed_background (menu_hide wd app)

unfoldable pub context_if : World → ℕ → App × Bool → App
context_if wd idx (app, true) = app
context_if wd idx (app, false) =
    if wd.has_context idx
    then call (context_menu idx) (lower_dock_for_external_popup wd 8000 app)
    else app

unfoldable pub launch_at : World → App → Option ℕ → App
launch_at wd app none = app
launch_at wd app (some idx) = if ltb idx wd.launcher_count then call (launch_cmd idx) app else app

unfoldable pub launch_under : World → App → Button → App
launch_under wd app b = launch_at wd app (hit_test_launcher app.geometry b.x b.y)

unfoldable pub press_tray : World → App → Button → Option ℕ → App
press_tray wd app b none = launch_under wd app b
press_tray wd app b (some idx) =
    let (ax, ay) = tray_icon_root_anchor wd app idx b.x b.y b.root_x b.root_y in
    context_if wd idx (menu_show wd app idx ax ay)

-- A press outside the menu, which is closed by then.
unfoldable pub press_window : World → App → Button → App
press_window wd app b =
    let app' =
      if b.event == app.window
      then cancel_hide_pending (record app { suppress_hide_until_ms = wd.now_ms + 250 })
      else app in
    if b.detail == 3
    then press_tray wd app' b (hit_test_tray app'.geometry b.x b.y)
    else launch_under wd app' b

unfoldable pub handle_button_press : World → App → Button → App
handle_button_press wd app b =
    if app.menu_visible && b.event == app.menu_window
    then close_menu wd (menu_click app b.y)
    else let app' = if app.menu_visible then close_menu wd app else app in
      let app'' = if b.detail == 3 && app'.menu_visible then close_menu wd app' else app' in
      press_window wd app'' b

-- `if (cond) { lower; acted |= act }` of `handle_button_release`: beside the state, `acted`
unfoldable pub popup_if : World → ℕ → Bool → Call → Bool → App × Bool → App × Bool
popup_if wd duration_ms cond k ok (app, acted) =
    if cond
    then (call k (lower_dock_for_external_popup wd duration_ms app), ok || acted)
    else (app, acted)

unfoldable pub release_menu : World → ℕ → App × Bool → App
release_menu wd idx (app, true) = app
release_menu wd idx (app, false) =
    call (context_menu idx) (lower_dock_for_external_popup wd 8000 app)

unfoldable pub release_last : World → ℕ → ℤ → ℤ → App × Bool → App
release_last wd idx ax ay (app, true) = app
release_last wd idx ax ay (app, false) =
    if wd.is_menu idx then release_menu wd idx (menu_show wd app idx ax ay) else app

unfoldable pub unless_acted : World → ℕ → App × Bool → App × Bool
unless_acted wd idx (app, true) = (app, true)
unless_acted wd idx (app, false) =
    popup_if wd 8000 (wd.has_activate idx) (activate idx) (wd.activate_ok idx) (app, false)

-- The actions of a tray icon, one after the other until one has acted.
unfoldable pub release_actions : World → ℕ → ℤ → ℤ → App × Bool → App
release_actions wd idx ax ay (app, true) = app
release_actions wd idx ax ay (app, false) = release_last wd idx ax ay (
    unless_acted wd idx (
      popup_if wd 8000 (wd.has_secondary idx) (secondary_activate idx) (wd.secondary_ok idx) (
        popup_if wd 3000 (wd.has_xayatana_secondary idx) (xayatana_secondary idx)
          (wd.xayatana_ok idx) (app, false))))

unfoldable pub release_tray : World → App → Button → Option ℕ → App
release_tray wd app b none = app
release_tray wd app b (some idx) =
    let (ax, ay) = tray_icon_root_anchor wd app idx b.x b.y b.root_x b.root_y in
    release_actions wd idx ax ay
      (if wd.has_menu idx then menu_show wd app idx ax ay else (app, false))

unfoldable pub handle_button_release : World → App → Button → App
handle_button_release wd app b =
    let app' =
      if app.menu_visible && not (b.detail == 3) && not (b.event == app.menu_window)
      then close_menu wd app
      else app in
    let app'' =
      if b.event == app'.window
      then record app' { suppress_hide_until_ms = wd.now_ms + 250 }
      else app' in
    if b.detail == 1 then release_tray wd app'' b (hit_test_tray app''.geometry b.x b.y) else app''
