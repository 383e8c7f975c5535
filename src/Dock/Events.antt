-- ===== src/Dock/Events.antt =====
-- One event of the X server: `process_event`, nizam-dock/src/xcb_app.c, split by the cases of its
-- switch.
use nizam.Prelude.{ℕ, Bool, true, not, ◌&&◌, ◌||◌, ◌==◌, leb, if◌then◌else◌}
use nizam.Prelude.Int.{ℤ}
use nizam.Dock.State.{
  App, World, menu_draw, call, expose, schedule_redraw, raise_dock, update_xembed_background,
}
use nizam.Dock.Handlers.{
  handle_client_message, handle_enter, handle_focus_out, handle_gone, handle_leave,
  handle_motion_event, handle_property, screen_changed,
}
use nizam.Dock.Buttons.{Button, handle_button_press, handle_button_release}

pub data Event : Type 0 where
  screen_change : Event
  property_notify : (window : ℕ) (root_pixmap_atom : Bool) → Event
  client_message : (window : ℕ) (tray_opcode request_dock : Bool) (icon : ℕ) → Event
  destroy_notify : (window : ℕ) → Event
  unmap_notify : (window : ℕ) → Event
  enter_notify : (event : ℕ) → Event
  motion_notify : (event : ℕ) (x y : ℤ) → Event
  leave_notify : (event : ℕ) (inferior : Bool) → Event
  focus_out : (event : ℕ) → Event
  button_press : Button → Event
  button_release : Button → Event
  expose_window : (window : ℕ) → Event
  visibility_notify : (window : ℕ) (obscured : Bool) → Event
  other : Event

unfoldable pub handle_expose : App → ℕ → App
handle_expose app window =
    if app.menu_visible && window == app.menu_window
    then call menu_draw app
    else if window == app.xembed_window
    then update_xembed_background app
    else if window == app.window
    then schedule_redraw app true expose
    else app

unfoldable pub handle_visibility : World → App → ℕ → Bool → App
handle_visibility wd app window obscured =
    let raise =
      not app.menu_visible
      && not app.is_hidden
      && obscured
      && (app.suppress_raise_until_ms == 0 || leb app.suppress_raise_until_ms wd.now_ms) in
    if window == app.window
    then schedule_redraw (if raise then raise_dock true app else app) true expose
    else if window == app.xembed_window
    then update_xembed_background app
    else app

unfoldable pub process_event : World → App → Event → App
process_event wd app screen_change = screen_changed app
process_event wd app (property_notify w atom) = handle_property wd app w atom
process_event wd app (client_message w opcode dock icon) =
    handle_client_message wd app w opcode dock icon
process_event wd app (destroy_notify w) = handle_gone wd app w
process_event wd app (unmap_notify w) = handle_gone wd app w
process_event wd app (enter_notify e) = handle_enter wd app e
process_event wd app (motion_notify e x y) = handle_motion_event wd app e x y
process_event wd app (leave_notify e inferior) = handle_leave wd app e inferior
process_event wd app (focus_out e) = handle_focus_out wd app e
process_event wd app (button_press b) = handle_button_press wd app b
process_event wd app (button_release b) = handle_button_release wd app b
process_event wd app (expose_window w) = handle_expose app w
process_event wd app (visibility_notify w obscured) = handle_visibility wd app w obscured
process_event wd app other = app
