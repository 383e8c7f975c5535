-- ===== src/Dock/HitTest.antt =====
-- What lies under the pointer: `hit_test_launcher` and `hit_test_tray`, nizam-dock/src/xcb_app.c.
pub mod Found
use nizam.Prelude.{
  ℕ, ◌+◌, ◌-◌, ◌*◌, ◌/◌, ◌%◌, Bool, true, false, not, ◌&&◌, ◌||◌, List, [], ◌∷◌, ◌==◌, ltb, leb,
  if◌then◌else◌, Option, none, some,
}
use nizam.Prelude.Int.{ℤ, pos, pos_part, ◌+ℤ◌, ◌-ℤ◌, ◌*ℤ◌, ltb_ℤ, leb_ℤ}
use nizam.Dock.State.{Rect, Geometry}

unfoldable pub in_rect : ℤ → ℤ → Rect → Bool
in_rect x y r = leb_ℤ r.x x && ltb_ℤ x (r.x +ℤ r.w) && leb_ℤ r.y y && ltb_ℤ y (r.y +ℤ r.h)

unfoldable pub hit_from : List Rect → ℤ → ℤ → ℕ → Option ℕ
hit_from [] x y i = none
hit_from (r ∷ rs) x y i =
    let rest = hit_from rs x y (i + 1) in if in_rect x y r then some i else rest

unfoldable pub hit_test_launcher : Geometry → ℤ → ℤ → Option ℕ
hit_test_launcher g x y = hit_from g.launcher_rects x y 0

-- `tray_gap > 0 ? tray_gap : 3`
unfoldable pub tray_spacing : Geometry → ℕ
tray_spacing g = if ltb_ℤ (pos 0) g.tray_gap then pos_part g.tray_gap else 3

unfoldable pub tray_right : Geometry → ℤ
tray_right g =
    g.tray_x +ℤ pos (g.tray_count * pos_part g.tray_size + (g.tray_count - 1) * tray_spacing g)

-- The index of the icon at `rel_x` from the left edge, 0 or more there.
unfoldable pub tray_slot : Geometry → ℕ → Option ℕ
tray_slot g rel_x =
    let size = pos_part g.tray_size in
    let stride = size + tray_spacing g in
    if leb g.tray_count (rel_x / stride) || leb size (rel_x % stride)
    then none
    else some (rel_x / stride)

unfoldable pub hit_test_tray : Geometry → ℤ → ℤ → Option ℕ
hit_test_tray g x y =
    if g.tray_count == 0 || leb_ℤ g.tray_size (pos 0)
    then none
    else if ltb_ℤ x g.tray_x
        || ltb_ℤ (tray_right g) x
        || ltb_ℤ y g.tray_y
        || ltb_ℤ (g.tray_y +ℤ g.tray_size) y
    then none
    else tray_slot g (pos_part (x -ℤ g.tray_x))
