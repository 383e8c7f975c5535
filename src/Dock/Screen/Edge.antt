-- ===== src/Dock/Screen/Edge.antt =====
-- The dock stands at the right edge of its monitor, and hides behind it, nizam-dock/src/xcb_app.c.
use mathlib.Core.Path.{subst}
use nizam.Prelude.{
  ◌+◌, ◌≡◌, refl, sym, ap, List, ◌∷◌, ◌++◌, some, not, Bool, true, false, ◌&&◌, arith, Bool-cases,
  inl, inr, leb→le, ltb→lt,
}
use nizam.Prelude.Int.{
  ℤ, pos, pos_part, neg_part, ◌+ℤ◌, ◌-ℤ◌, ◌≤ℤ◌, ◌<ℤ◌, ltb_ℤ, leb_ℤ, +ℤ_parts, -ℤ_parts, le-at_most,
}
use nizam.Dock.State.{Rect}
use nizam.Dock.Screen.Picked.{pick_monitor_for_pointer-Covers}
use nizam.Dock.Screen.{Display, Output, output_rect, point_in_rect, pick_monitor_for_pointer}
use nizam.Dock.Screen.Width.{Contents}
use nizam.Dock.Screen.Place.{
  Placement, panel_width, place_on, recalc_geometry, usable_monitor, strip_width, strip_rect,
  screen_change,
}

abbrev pub dock_rect : Placement → Rect
dock_rect p = record { x = p.panel_x; y = p.panel_y; w = p.panel_w; h = p.panel_h }

-- A hidden dock on the monitor `m` covers no point of it.
place_on-hidden :
    (panel_w : ℤ) (m : Rect) (x y : ℤ)
    → point_in_rect x y (dock_rect (place_on panel_w true m)) ≡ true
    → point_in_rect x y m ≡ false
unfolding place_on point_in_rect
place_on-hidden panel_w m x y h =
    let right = m.x +ℤ m.w in ground (arith, +ℤ_parts m.x m.w, +ℤ_parts right panel_w)

-- The point is in the rectangle.
abbrev pub Inside : ℤ → ℤ → Rect → Type 0
Inside x y r = (r.x ≤ℤ x) × (x <ℤ r.x +ℤ r.w) × (r.y ≤ℤ y) × (y <ℤ r.y +ℤ r.h)

le_of_leb : (a b : ℤ) → leb_ℤ a b ≡ true → a ≤ℤ b
le_of_leb a b h = leb→le (pos_part a + neg_part b) (pos_part b + neg_part a) h

lt_of_ltb : (a b : ℤ) → ltb_ℤ a b ≡ true → a <ℤ b
lt_of_ltb a b h = ltb→lt (pos_part a + neg_part b) (pos_part b + neg_part a) h

inside : (x y : ℤ) (r : Rect) → point_in_rect x y r ≡ true → Inside x y r
unfolding point_in_rect
inside x y r h = (
  le_of_leb r.x x (ground arith),
  lt_of_ltb x (r.x +ℤ r.w) (ground arith),
  le_of_leb r.y y (ground arith),
  lt_of_ltb y (r.y +ℤ r.h) (ground arith),
)

of_Inside : (x y : ℤ) (r : Rect) → Inside x y r → point_in_rect x y r ≡ true
unfolding point_in_rect
of_Inside x y r (a, b, c, e) = ground arith

place_on-visible :
    (panel_w : ℤ) (m : Rect) (x y : ℤ)
    → panel_w ≤ℤ m.w
    → point_in_rect x y (dock_rect (place_on panel_w false m)) ≡ true
    → point_in_rect x y m ≡ true
unfolding place_on point_in_rect
place_on-visible panel_w m x y fits h =
    let (a, b, c, e) = inside x y (dock_rect (place_on panel_w false m)) h in
    let right = m.x +ℤ m.w in
    of_Inside x y m (
      omega (arith, +ℤ_parts m.x m.w, -ℤ_parts right panel_w, +ℤ_parts (right -ℤ panel_w) panel_w),
      omega (arith, +ℤ_parts (right -ℤ panel_w) panel_w, -ℤ_parts right panel_w),
      c,
      e,
    )

le_trans_ℤ : (a b c : ℤ) → a ≤ℤ b → b ≤ℤ c → a ≤ℤ c
le_trans_ℤ a b c h k = omega arith

-- A point of the monitor shows that it is not empty.
usable_of_point :
    (d : Display) (m : Rect) (x y : ℤ) → point_in_rect x y m ≡ true → usable_monitor d m ≡ m
unfolding usable_monitor
usable_of_point d m x y h =
    let (a, b, c, e) = inside x y m h in
    let wide : leb_ℤ m.w (pos 0) ≡ false = ground (arith, +ℤ_parts m.x m.w) in
    let high : leb_ℤ m.h (pos 0) ≡ false = ground (arith, +ℤ_parts m.y m.h) in rw (wide, high) refl

-- Where the pointer is on the rectangle of an output, the dock is placed on a monitor that holds
-- the pointer.
pub screen_change-Covers :
    (d : Display) (c : Contents) (is_hidden : Bool) (handle_px : ℤ) (old : Placement) (px py : ℤ)
    (before after : List Output) (o : Output) (r : Rect)
    → d.pointer ≡ some (px, py)
    → d.outputs ≡ some (before ++ o ∷ after)
    → output_rect o ≡ some r
    → point_in_rect px py r ≡ true
    → point_in_rect px py (screen_change d c is_hidden handle_px old).0.monitor ≡ true
unfolding screen_change recalc_geometry place_on
screen_change-Covers d c is_hidden handle_px old px py before after o r at outs e h =
    let m = pick_monitor_for_pointer d in
    let found = pick_monitor_for_pointer-Covers d px py before after o r at outs e h in
    subst (λ t. point_in_rect px py t ≡ true) (sym (usable_of_point d m px py found)) found

excluded : (a b : Bool) → (a ≡ true → b ≡ false) → (a && b) ≡ false
excluded false b h = refl
excluded true b h = h refl

strip_width_pos : (handle_px : ℤ) → pos 1 ≤ℤ strip_width handle_px
unfolding strip_width
strip_width_pos handle_px = elim (Bool-cases (ltb_ℤ (pos 0) handle_px)) [
  | inl e ↦
      let some_px : pos 1 ≤ℤ handle_px = omega (arith, lt_of_ltb (pos 0) handle_px e) in
      rw e (le-at_most (pos 64) handle_px (pos 1) (omega arith) some_px)
  | inr e ↦ rw e (omega arith)
]

strip_edge :
    (handle_px : ℤ) (m : Rect) (y : ℤ)
    → m.y ≤ℤ y
    → y <ℤ m.y +ℤ m.h
    → point_in_rect (m.x +ℤ m.w -ℤ pos 1) y (strip_rect handle_px m) ≡ true
unfolding strip_rect
strip_edge handle_px m y lo hi =
    let right = m.x +ℤ m.w in
    let s = strip_width handle_px in
    let thick : pos 1 ≤ℤ s = strip_width_pos handle_px in
    of_Inside (right -ℤ pos 1) y (strip_rect handle_px m) (
      omega (arith, -ℤ_parts right (pos 1), -ℤ_parts right s),
      omega (arith, -ℤ_parts right (pos 1), -ℤ_parts right s, +ℤ_parts (right -ℤ s) s),
      lo,
      hi,
    )

-- The monitor on which a change of the screen places the dock.
abbrev pub monitor_of : Display → Contents → Bool → ℤ → Placement → Rect
monitor_of d c is_hidden handle_px old = (screen_change d c is_hidden handle_px old).0.monitor

abbrev pub dock_of : Display → Contents → Bool → ℤ → Placement → Rect
dock_of d c is_hidden handle_px old = dock_rect (screen_change d c is_hidden handle_px old).0

visible_inside :
    (w : ℤ) (m : Rect) (x y : ℤ)
    → ((leb_ℤ w m.w && point_in_rect x y (dock_rect (place_on w false m)))
        && not (point_in_rect x y m))
      ≡ false
visible_inside w m x y = elim (Bool-cases (leb_ℤ w m.w)) [
  | inl e ↦ rw e (
      excluded (point_in_rect x y (dock_rect (place_on w false m))) (not (point_in_rect x y m))
        (λ h. ap not (place_on-visible w m x y (le_of_leb w m.w e) h)))
  | inr e ↦ rw e refl
]

-- After a change of the screen a hidden dock, however wide, covers no point of its monitor, and a
-- visible dock that is no wider than its monitor covers none outside.
pub screen_change-dock :
    (d : Display) (c : Contents) (handle_px : ℤ) (old : Placement) (x y : ℤ)
    → ((point_in_rect x y (dock_of d c true handle_px old)
          && point_in_rect x y (monitor_of d c true handle_px old))
        ≡ false)
      × (((leb_ℤ (panel_width c) (monitor_of d c false handle_px old).w
              && point_in_rect x y (dock_of d c false handle_px old))
            && not (point_in_rect x y (monitor_of d c false handle_px old)))
          ≡ false)
unfolding screen_change recalc_geometry place_on
screen_change-dock d c handle_px old x y =
    let m = usable_monitor d (pick_monitor_for_pointer d) in
    let w = panel_width c in
    (
      excluded (point_in_rect x y (dock_rect (place_on w true m))) (point_in_rect x y m)
          (λ h. place_on-hidden w m x y h),
      visible_inside w m x y,
    )

-- After a change of the screen, be the dock hidden or not, the strip covers the last column of the
-- monitor, so that a pointer at the edge is on the strip.
pub screen_change-strip :
    (d : Display) (c : Contents) (is_hidden : Bool) (handle_px : ℤ) (old : Placement) (y : ℤ)
    → (monitor_of d c is_hidden handle_px old).y ≤ℤ y
    → y <ℤ (monitor_of d c is_hidden handle_px old).y +ℤ (monitor_of d c is_hidden handle_px old).h
    → point_in_rect
        ((monitor_of d c is_hidden handle_px old).x
          +ℤ (monitor_of d c is_hidden handle_px old).w
          -ℤ pos 1)
        y
        (screen_change d c is_hidden handle_px old).1.0
      ≡ true
unfolding screen_change
screen_change-strip d c is_hidden handle_px old y lo hi =
    strip_edge handle_px (monitor_of d c is_hidden handle_px old) y lo hi
