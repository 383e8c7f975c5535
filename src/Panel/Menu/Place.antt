-- ===== src/Panel/Menu/Place.antt =====
-- How far the menu scrolls, and where it stands.
use nizam.Prelude.{◌≡◌, true, false, arith}
use nizam.Prelude.Int.{
  ℤ, pos, ◌+ℤ◌, ◌-ℤ◌, ◌≤ℤ◌, at_most, at_least, at_most-le_bound, at_most-le, le-at_least_bound,
  le-at_least, le-at_most, at_least-le,
}
use nizam.Panel.Menu.{scroll_by, Panel, clamp_menu_y_gap}

trans_ℤ : (a b c : ℤ) → a ≤ℤ b → b ≤ℤ c → a ≤ℤ c
trans_ℤ a b c h k = omega arith

-- Scrolling stays between the first position and the last.
pub scroll_by_range :
    (scroll content_h view_h delta : ℤ)
    → (pos 0 ≤ℤ scroll_by scroll content_h view_h delta)
      × (scroll_by scroll content_h view_h delta ≤ℤ at_least (pos 0) (content_h -ℤ view_h))
unfolding scroll_by
scroll_by_range s c v d =
    let top = at_least (pos 0) (c -ℤ v) in
    (
      le-at_most top (at_least (pos 0) (s +ℤ d)) (pos 0) (le-at_least_bound (pos 0) (c -ℤ v))
          (le-at_least_bound (pos 0) (s +ℤ d)),
      at_most-le_bound top (at_least (pos 0) (s +ℤ d)),
    )

-- A menu above a panel at the bottom of the screen lies on the screen, and leaves the gap to the
-- panel, if there is room for it.
pub clamp_menu_y_gap_bottom :
    (p : Panel) (y h gap : ℤ)
    → p.bottom ≡ true
    → pos 0 ≤ℤ p.panel_y -ℤ gap -ℤ h
    → (pos 0 ≤ℤ clamp_menu_y_gap p y h gap) × (clamp_menu_y_gap p y h gap ≤ℤ p.panel_y -ℤ gap -ℤ h)
unfolding clamp_menu_y_gap
clamp_menu_y_gap_bottom p y h gap e room =
    let clear = p.panel_y -ℤ gap -ℤ h in
    let last = at_least (pos 0) (p.screen_h -ℤ h) in
    let y2 = at_least (pos 0) (at_most clear y) in
    rw (e, clamp_menu_y_gap)
      (
        le-at_most last y2 (pos 0) (le-at_least_bound (pos 0) (p.screen_h -ℤ h))
            (le-at_least_bound (pos 0) (at_most clear y)),
        trans_ℤ (at_most last y2) y2 clear (at_most-le last y2)
            (at_least-le (pos 0) (at_most clear y) clear room (at_most-le_bound clear y)),
      )

-- A menu below a panel at the top of the screen lies on the screen, and leaves the gap to the panel,
-- if there is room for it.
pub clamp_menu_y_gap_top :
    (p : Panel) (y h gap : ℤ)
    → p.bottom ≡ false
    → pos 0 ≤ℤ p.panel_y +ℤ p.panel_h +ℤ gap
    → p.panel_y +ℤ p.panel_h +ℤ gap ≤ℤ p.screen_h -ℤ h
    → (p.panel_y +ℤ p.panel_h +ℤ gap ≤ℤ clamp_menu_y_gap p y h gap)
      × (clamp_menu_y_gap p y h gap ≤ℤ p.screen_h -ℤ h)
unfolding clamp_menu_y_gap
clamp_menu_y_gap_top p y h gap e a room =
    let clear = p.panel_y +ℤ p.panel_h +ℤ gap in
    let bottom = p.screen_h -ℤ h in
    let last = at_least (pos 0) bottom in
    let y1 = at_least clear y in
    rw (e, clamp_menu_y_gap)
      (
        le-at_most last (at_least (pos 0) y1) clear
            (trans_ℤ clear bottom last room (le-at_least (pos 0) bottom))
            (trans_ℤ clear y1 (at_least (pos 0) y1) (le-at_least_bound clear y)
              (le-at_least (pos 0) y1)),
        trans_ℤ (at_most last (at_least (pos 0) y1)) last bottom
            (at_most-le_bound last (at_least (pos 0) y1))
            (at_least-le (pos 0) bottom bottom (trans_ℤ (pos 0) clear bottom a room) (omega arith)),
      )
