-- ===== src/Dock/State.antt =====
-- The state of the dock's window, nizam-dock/src/xcb_app.c and include/xcb_app.h, and the operations
-- that schedule, show and hide. A window is a number and XCB_NONE is 0; an index of -1 is `none`.
-- What the program reads from outside in one step (the clock, the X server, the items of the tray)
-- is a record, the requests that it sends are a log, the latest first.
use nizam.Prelude.{
  ℕ, ◌+◌, ◌%◌, ◌^◌, min, Bool, true, false, not, ◌&&◌, ◌||◌, List, ◌∷◌, ◌==◌, ltb, if◌then◌else◌,
  Option,
}
use nizam.Prelude.Int.{ℤ, pos, pos_part, leb_ℤ}
use nizam.Text.{Bytes}

abbrev pub u64 : ℕ → ℕ
u64 n = n % 2 ^ 64

pub record Rect : Type 0 where
  pub x : ℤ
  pub y : ℤ
  pub w : ℤ
  pub h : ℤ

pub record MenuItem : Type 0 where
  pub id : ℤ
  pub label : Bytes
  pub enabled : Bool
  pub separator : Bool
  pub level : ℕ
  pub submenu : Bool

-- The places of the launchers and of the tray: drawing sets them, the hit tests read them.
pub record Geometry : Type 0 where
  pub launcher_rects : List Rect
  pub tray_x : ℤ
  pub tray_y : ℤ
  pub tray_size : ℤ
  pub tray_count : ℕ
  pub tray_gap : ℤ

pub data Call : Type 0 where
  set_dock_stack : Bool → Call
  set_strip_stack : Bool → Call
  map_window : ℕ → Call
  unmap_window : ℕ → Call
  destroy_window : ℕ → Call
  embed : ℕ → Call
  move_to_hidden : Call
  slide_to_visible : Call
  slide_to_hidden : Call
  notify_panel_redraw : Call
  menu_draw : Call
  update_background : Call
  launch_cmd : ℕ → Call
  menu_event : ℕ → ℤ → Call
  context_menu : ℕ → Call
  xayatana_secondary : ℕ → Call
  secondary_activate : ℕ → Call
  activate : ℕ → Call
  draw : Call

pub data Reason : Type 0 where
  motion : Reason
  timeout : Reason
  expose : Reason

pub record App : Type 0 where
  pub window : ℕ
  pub strip : ℕ
  pub root : ℕ
  pub xembed_window : ℕ
  pub menu_window : ℕ
  pub geometry : Geometry
  pub root_pixmap : ℕ
  pub redraw_pending : Bool
  pub redraw_force : Bool
  pub redraw_total : ℕ
  pub redraw_reason_motion : ℕ
  pub redraw_reason_timeout : ℕ
  pub redraw_reason_expose : ℕ
  pub motion_events_total : ℕ
  pub hover_changes : ℕ
  pub hovered_launcher_idx : Option ℕ
  pub hovered_tray_idx : Option ℕ
  pub is_hidden : Bool
  pub hide_pending : Bool
  pub hide_deadline_ms : ℕ
  pub last_draw_ms : ℕ
  pub last_toggle_ms : ℕ
  pub suppress_hide_until_ms : ℕ
  pub suppress_raise_until_ms : ℕ
  pub xembed_icons : List ℕ
  pub xembed_cap : ℕ
  pub menu_visible : Bool
  pub menu_dirty : Bool
  pub menu_items : List MenuItem
  pub menu_owner_idx : ℕ
  pub menu_x : ℤ
  pub menu_y : ℤ
  pub calls : List Call

-- What is read in a step: the configuration, the clock (once), the X server and the tray's items.
pub record World : Type 0 where
  pub now_ms : ℕ
  pub no_autohide : Bool
  pub hide_delay_ms : ℤ
  pub launcher_count : ℕ
  pub pointer_inside : Bool
  pub geometry : Geometry
  pub xrootpmap : ℕ
  pub xsetroot : ℕ
  pub screen_w : ℤ
  pub screen_h : ℤ
  pub dock_origin : Option (ℤ × ℤ)
  pub reparent_ok : Bool
  pub new_menu_window : ℕ
  pub menu_of : ℕ → Option (List MenuItem)
  pub has_context : ℕ → Bool
  pub has_menu : ℕ → Bool
  pub has_xayatana_secondary : ℕ → Bool
  pub has_secondary : ℕ → Bool
  pub has_activate : ℕ → Bool
  pub is_menu : ℕ → Bool
  pub xayatana_ok : ℕ → Bool
  pub secondary_ok : ℕ → Bool
  pub activate_ok : ℕ → Bool

abbrev pub call : Call → App → App
call k app = record app { calls = k ∷ app.calls }

count_reason : Reason → App → App
count_reason motion app = record app { redraw_reason_motion = u64 (app.redraw_reason_motion + 1) }
count_reason timeout app = record app {
  redraw_reason_timeout = u64 (app.redraw_reason_timeout + 1);
}
count_reason expose app = record app { redraw_reason_expose = u64 (app.redraw_reason_expose + 1) }

unfoldable pub schedule_redraw : App → Bool → Reason → App
unfolding count_reason
schedule_redraw app force reason = count_reason reason (record app {
  redraw_pending = true;
  redraw_force = force || app.redraw_force;
  redraw_total = u64 (app.redraw_total + 1);
})

unfoldable pub cancel_hide_pending : App → App
cancel_hide_pending app = record app { hide_pending = false; hide_deadline_ms = 0 }

unfoldable pub schedule_hide : World → App → App
schedule_hide wd app =
    if wd.no_autohide || app.is_hidden || app.menu_visible || leb_ℤ wd.hide_delay_ms (pos 0)
    then app
    else record app {
      hide_pending = true;
      hide_deadline_ms = wd.now_ms + min (pos_part wd.hide_delay_ms) 30000;
    }

-- `set_dock_stack` on an existing window
unfoldable pub raise_dock : Bool → App → App
raise_dock above app = if app.window == 0 then app else call (set_dock_stack above) app

unfoldable pub raise_strip : Bool → App → App
raise_strip above app = if app.strip == 0 then app else call (set_strip_stack above) app

unfoldable pub lower_dock_for_external_popup : World → ℕ → App → App
lower_dock_for_external_popup wd duration_ms app =
    if app.window == 0 || app.is_hidden
    then app
    else raise_dock false (record app {
      suppress_raise_until_ms =
          if ltb app.suppress_raise_until_ms (wd.now_ms + duration_ms)
          then wd.now_ms + duration_ms
          else app.suppress_raise_until_ms;
    })

-- `last_toggle_ms && now - last_toggle_ms < 200`
abbrev pub toggled_recently : World → App → Bool
toggled_recently wd app = not (app.last_toggle_ms == 0) && ltb wd.now_ms (app.last_toggle_ms + 200)

-- `suppress_hide_until_ms && now < suppress_hide_until_ms`
abbrev pub hide_suppressed : World → App → Bool
hide_suppressed wd app =
    not (app.suppress_hide_until_ms == 0) && ltb wd.now_ms app.suppress_hide_until_ms

map_if : ℕ → App → App
map_if w app = if w == 0 then app else call (map_window w) app

unfoldable pub show_dock : World → App → App × Bool
unfolding map_if
show_dock wd app = if not app.is_hidden || toggled_recently wd app then (app, false) else (
  record (raise_strip false (
      call slide_to_visible (
        map_if app.xembed_window
          (call (map_window app.window) (call move_to_hidden (raise_dock true app)))))) {
            is_hidden = false;
            hide_pending = false;
            last_toggle_ms = wd.now_ms;
          },
  true,
)

unfoldable pub hide_dock : World → App → App × Bool
hide_dock wd app =
    if app.is_hidden
      || wd.no_autohide
      || app.menu_visible
      || hide_suppressed wd app
      || wd.pointer_inside
      || toggled_recently wd app
    then (app, false)
    else (
      call notify_panel_redraw
          (record (raise_strip true
            (call (unmap_window app.window) (call slide_to_hidden (raise_dock false app)))) {
              is_hidden = true;
              hide_pending = false;
              last_toggle_ms = wd.now_ms;
            }),
      true,
    )

-- `xembed_update_background`
unfoldable pub update_xembed_background : App → App
update_xembed_background app = if app.xembed_window == 0 then app else call update_background app
