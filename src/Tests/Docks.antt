-- ===== src/Tests/Docks.antt =====
-- The window of the dock at concrete inputs.
use nizam.Prelude.{◌≡◌, inr, refl, true, false, List, [], ◌∷◌, arith, none, some}
use nizam.Prelude.Int.{pos, ◌+ℤ◌, ◌-ℤ◌}
use nizam.Dock.State.{Geometry, App, World, hide_dock, schedule_redraw, raise_dock, raise_strip}
use nizam.Dock.Xembed.{xembed_find, find_window}
use nizam.Dock.Xembed.Icons.{IsEmbedding}
use nizam.Dock.Xembed.Layout.{xembed_layout, IsLaidOut, xembed_layout-IsLaidOut}
use nizam.Dock.HitTest.{
  in_rect, hit_from, hit_test_launcher, hit_test_tray, tray_slot, tray_right, tray_spacing,
}
use nizam.Dock.Events.{Event, leave_notify, motion_notify, other}
use nizam.Dock.Handlers.{redraw_if}
use nizam.Dock.Loop.{
  poll_timeout, drain_queue, after_poll, update_hide_timer, fire_hide_timer, refresh_menu, redraw,
  maybe_draw,
}
use nizam.Dock.Loop.Wait.{WakesBy, after_poll-hides}
use nizam.Dock.Machine.{View, view, Moves, CanHide, hidden_now, Turn}
use nizam.Dock.Machine.Laws.{IsTimed, IsSpaced}
use nizam.Dock.Machine.Hiding.{
  after_poll_refines, after_poll-CanHide, after_poll-IsTimed, after_poll-IsSpaced,
}

abbrev geometry : Geometry
geometry = record {
  launcher_rects =
      record { x = pos 6; y = pos 10; w = pos 40; h = pos 40 }
      ∷ record { x = pos 6; y = pos 60; w = pos 40; h = pos 40 }
      ∷ [];
  tray_x = pos 4;
  tray_y = pos 200;
  tray_size = pos 24;
  tray_count = 2;
  tray_gap = pos 0;
}

-- The dock on the screen, with a hide that is due at 5000, and one embedded window.
abbrev dock : App
dock = record {
  window = 10;
  strip = 11;
  root = 1;
  xembed_window = 12;
  menu_window = 0;
  geometry = geometry;
  root_pixmap = 0;
  redraw_pending = false;
  redraw_force = false;
  redraw_total = 0;
  redraw_reason_motion = 0;
  redraw_reason_timeout = 0;
  redraw_reason_expose = 0;
  motion_events_total = 0;
  hover_changes = 0;
  hovered_launcher_idx = none;
  hovered_tray_idx = none;
  is_hidden = false;
  hide_pending = true;
  hide_deadline_ms = 5000;
  last_draw_ms = 0;
  last_toggle_ms = 1000;
  suppress_hide_until_ms = 0;
  suppress_raise_until_ms = 0;
  xembed_icons = 31 ∷ [];
  xembed_cap = 8;
  menu_visible = false;
  menu_dirty = false;
  menu_items = [];
  menu_owner_idx = 0;
  menu_x = pos 0;
  menu_y = pos 0;
  calls = [];
}

-- The world at 6000, with the pointer elsewhere.
abbrev world : World
world = record {
  now_ms = 6000;
  no_autohide = false;
  hide_delay_ms = pos 800;
  launcher_count = 2;
  pointer_inside = false;
  geometry = geometry;
  xrootpmap = 0;
  xsetroot = 0;
  screen_w = pos 1920;
  screen_h = pos 1080;
  dock_origin = none;
  reparent_ok = true;
  new_menu_window = 20;
  menu_of = λ i. none;
  has_context = λ i. true;
  has_menu = λ i. false;
  has_xayatana_secondary = λ i. false;
  has_secondary = λ i. false;
  has_activate = λ i. true;
  is_menu = λ i. false;
  xayatana_ok = λ i. false;
  secondary_ok = λ i. false;
  activate_ok = λ i. true;
}

abbrev left : Event
left = leave_notify 10 false

abbrev queue : List Event
queue = motion_notify 10 (pos 1) (pos 1) ∷ other ∷ motion_notify 10 (pos 10) (pos 20) ∷ left ∷ []

after_poll_example : Turn world (view dock) (view (after_poll world false ((left ∷ []) ∷ []) dock))
after_poll_example = after_poll_refines world false ((left ∷ []) ∷ []) dock

hides : (after_poll world false [] dock).is_hidden ≡ true
unfolding after_poll drain_queue update_hide_timer fire_hide_timer refresh_menu redraw maybe_draw
    hide_dock redraw_if schedule_redraw raise_dock raise_strip
hides = refl

can_hide_example :
    (u : View) × Moves world (view dock) u
    × CanHide world u
    × (view (after_poll world false [] dock) ≡ hidden_now world u)
can_hide_example = after_poll-CanHide world false [] dock refl hides

hide_due_example : IsTimed world.now_ms (view (after_poll world false (queue ∷ []) dock))
hide_due_example =
    after_poll-IsTimed world false (queue ∷ []) dock 5500 (omega arith)
      (inr (refl, omega arith, omega arith))

last_change_example : IsSpaced world (view dock) (view (after_poll world true (queue ∷ []) dock))
last_change_example = after_poll-IsSpaced world true (queue ∷ []) dock

after_poll-hides_example :
    WakesBy world.now_ms dock.hide_deadline_ms (poll_timeout world false dock)
    × ((after_poll world false [] dock).is_hidden ≡ true)
after_poll-hides_example =
    after_poll-hides world world false dock refl (omega arith) (omega arith) (record {
      shown = refl;
      no_menu = refl;
      autohide = refl;
      unsuppressed = refl;
      outside = refl;
      settled = refl;
    })

abbrev idle : App
idle = record dock { hide_pending = false }

idle_waits : poll_timeout world false idle ≡ none
unfolding poll_timeout
idle_waits = refl

dock-IsEmbedding : IsEmbedding dock
dock-IsEmbedding = record { distinct = (refl, tt); windows = refl; room = omega arith }

absent : xembed_find dock 32 ≡ none
unfolding xembed_find find_window
absent = refl

on_tray : hit_test_tray geometry (pos 33) (pos 210) ≡ some 1
unfolding hit_test_tray tray_slot tray_right tray_spacing ◌+ℤ◌ ◌-ℤ◌
on_tray = refl

on_launcher : hit_test_launcher geometry (pos 20) (pos 70) ≡ some 1
unfolding hit_test_launcher hit_from in_rect ◌+ℤ◌
on_launcher = refl

xembed_layout_example :
    IsLaidOut (pos 0) (31 ∷ 32 ∷ 33 ∷ []) (xembed_layout (pos 0) (31 ∷ 32 ∷ 33 ∷ []))
xembed_layout_example = xembed_layout-IsLaidOut (pos 0) (31 ∷ 32 ∷ 33 ∷ [])

-- Hiding is suppressed for another second, and nothing wakes the loop when that has passed.
abbrev suppressed : App
suppressed = record dock { hide_pending = false; suppress_hide_until_ms = 7000 }

suppressed_waits : poll_timeout world false (after_poll world false [] suppressed) ≡ none
unfolding poll_timeout after_poll drain_queue update_hide_timer fire_hide_timer refresh_menu redraw
suppressed_waits = refl
