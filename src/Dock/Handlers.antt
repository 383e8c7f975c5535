-- ===== src/Dock/Handlers.antt =====
-- The events of the X server that are not of a button or of a window's visibility, as the cases of
-- `process_event`, nizam-dock/src/xcb_app.c, handle them.
use nizam.Prelude.{
  ℕ, ◌+◌, Bool, true, false, not, ◌&&◌, ◌||◌, ◌==◌, if◌then◌else◌, Option, none, some,
}
use nizam.Prelude.Int.{ℤ}
use nizam.Dock.State.{
  u64, App, World, Reason, motion, timeout, schedule_redraw, cancel_hide_pending, schedule_hide,
  raise_strip, show_dock, update_xembed_background,
}
use nizam.Dock.Xembed.{xembed_find, xembed_remove_client, xembed_add_client}
use nizam.Dock.HitTest.{hit_test_launcher, hit_test_tray}

same_index : Option ℕ → Option ℕ → Bool
same_index none none = true
same_index none (some j) = false
same_index (some i) none = false
same_index (some i) (some j) = i == j

unfoldable pub update_hover_state : App → ℤ → ℤ → App × Bool
unfolding same_index
update_hover_state app x y =
    let new_launcher = hit_test_launcher app.geometry x y in
    let new_tray = hit_test_tray app.geometry x y in
    if same_index new_launcher app.hovered_launcher_idx && same_index new_tray app.hovered_tray_idx
    then (app, false)
    else (
      record app {
        hovered_launcher_idx = new_launcher;
        hovered_tray_idx = new_tray;
        hover_changes = u64 (app.hover_changes + 1);
      },
      true,
    )

-- `if (changed) schedule_redraw(...)`
unfoldable pub redraw_if : Bool → Reason → App × Bool → App
redraw_if force reason (app, false) = app
redraw_if force reason (app, true) = schedule_redraw app force reason

-- The event is on the strip of a hidden dock.
abbrev pub on_strip : App → ℕ → Bool
on_strip app event = app.is_hidden && (not (app.strip == 0) && event == app.strip)

unfoldable pub handle_motion_event : World → App → ℕ → ℤ → ℤ → App
handle_motion_event wd app event x y =
    let app' = record app { motion_events_total = u64 (app.motion_events_total + 1) } in
    if on_strip app event
    then redraw_if true motion (show_dock wd app')
    else if event == app.window
    then redraw_if false motion (update_hover_state app' x y)
    else app'

-- What `handle_screen_change` does to the state that the events read: the strip is restacked. Where
-- the windows are placed is in Dock.Screen.
unfoldable pub handle_screen_change : App → App
handle_screen_change app = raise_strip app.is_hidden app

unfoldable pub screen_changed : App → App
screen_changed app = schedule_redraw (handle_screen_change app) true timeout

-- `nizam_dock_xcb_update_root_pixmap`; no pixmap is 0
unfoldable pub update_root_pixmap : World → App → App × Bool
update_root_pixmap wd app =
    let pixmap = if wd.xrootpmap == 0 then wd.xsetroot else wd.xrootpmap in
    if pixmap == app.root_pixmap
    then (app, false)
    else (update_xembed_background (record app { root_pixmap = pixmap }), true)

unfoldable pub handle_property : World → App → ℕ → Bool → App
handle_property wd app window root_pixmap_atom =
    if window == app.root && root_pixmap_atom
    then redraw_if false timeout (update_root_pixmap wd app)
    else app

unfoldable pub handle_client_message : World → App → ℕ → Bool → Bool → ℕ → App
handle_client_message wd app window tray_opcode request_dock icon =
    if tray_opcode
      && (window == app.xembed_window || window == app.window || window == app.root)
      && request_dock
    then screen_changed (xembed_add_client wd app icon)
    else app

-- An embedded window that is destroyed or unmapped.
gone : World → App → ℕ → Option ℕ → App
gone wd app window none = app
gone wd app window (some i) = screen_changed (xembed_remove_client app window)

unfoldable pub handle_gone : World → App → ℕ → App
unfolding gone
handle_gone wd app window = gone wd app window (xembed_find app window)

unfoldable pub handle_enter : World → App → ℕ → App
handle_enter wd app event =
    let app' = if event == app.window then cancel_hide_pending app else app in
    if on_strip app' event then redraw_if true motion (show_dock wd app') else app'

unfoldable pub handle_leave : World → App → ℕ → Bool → App
handle_leave wd app event inferior =
    if event == app.window && not inferior then schedule_hide wd app else app

unfoldable pub handle_focus_out : World → App → ℕ → App
handle_focus_out wd app event = if event == app.window then schedule_hide wd app else app
