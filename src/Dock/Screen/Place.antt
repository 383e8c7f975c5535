-- ===== src/Dock/Screen/Place.antt =====
-- The place of the dock and of its strip on the monitor, nizam-dock/src/xcb_app.c:
-- `nizam_dock_xcb_recalc_geometry` and `handle_screen_change`.
use nizam.Prelude.{Bool, ◌||◌, if◌then◌else◌}
use nizam.Prelude.Int.{ℤ, pos, ◌+ℤ◌, ◌-ℤ◌, ◌*ℤ◌, leb_ℤ, ltb_ℤ, at_least, at_most}
use nizam.Dock.State.{Rect}
use nizam.Dock.Screen.{Display, default_monitor, pick_monitor_for_pointer}
use nizam.Dock.Screen.Width.{Contents, compute_content_width}

pub record Placement : Type 0 where
  pub panel_x : ℤ
  pub panel_y : ℤ
  pub panel_w : ℤ
  pub panel_h : ℤ
  pub x_visible : ℤ
  pub x_hidden : ℤ
  pub monitor : Rect

-- The width with the padding on both sides; the system information takes at least 220.
unfoldable pub panel_width : Contents → ℤ
unfolding compute_content_width at_least ◌+ℤ◌ ◌*ℤ◌
panel_width c = c.padding *ℤ pos 2 +ℤ at_least (pos 220) (compute_content_width c)

unfoldable pub usable_monitor : Display → Rect → Rect
unfolding default_monitor
usable_monitor d m = if leb_ℤ m.w (pos 0) || leb_ℤ m.h (pos 0) then default_monitor d else m

unfoldable pub place_on : ℤ → Bool → Rect → Placement
unfolding ◌+ℤ◌ ◌-ℤ◌
place_on panel_w is_hidden m =
    let right = m.x +ℤ m.w in
    record {
      panel_x = if is_hidden then right else right -ℤ panel_w;
      panel_y = m.y;
      panel_w = panel_w;
      panel_h = m.h;
      x_visible = right -ℤ panel_w;
      x_hidden = right;
      monitor = m;
    }

unfoldable pub recalc_geometry : Display → Contents → Bool → Rect → Placement
unfolding place_on panel_width usable_monitor
recalc_geometry d c is_hidden m = place_on (panel_width c) is_hidden (usable_monitor d m)

-- `handle_px` between 1 and 64, and 1 where it is not set.
unfoldable pub strip_width : ℤ → ℤ
unfolding at_most
strip_width handle_px = if ltb_ℤ (pos 0) handle_px then at_most (pos 64) handle_px else pos 1

unfoldable pub strip_rect : ℤ → Rect → Rect
unfolding strip_width ◌+ℤ◌ ◌-ℤ◌
strip_rect handle_px m = record {
  x = m.x +ℤ m.w -ℤ strip_width handle_px;
  y = m.y;
  w = strip_width handle_px;
  h = m.h;
}

-- The placement after a change of the screen, the strip, and whether the buffer is made anew.
unfoldable pub screen_change : Display → Contents → Bool → ℤ → Placement → Placement × (Rect × Bool)
unfolding pick_monitor_for_pointer recalc_geometry strip_rect
screen_change d c is_hidden handle_px old =
    let new = recalc_geometry d c is_hidden (pick_monitor_for_pointer d) in
    (
      new,
      (
        strip_rect handle_px new.monitor,
        ltb_ℤ old.panel_w new.panel_w
            || ltb_ℤ new.panel_w old.panel_w
            || ltb_ℤ old.panel_h new.panel_h
            || ltb_ℤ new.panel_h old.panel_h,
      ),
    )
