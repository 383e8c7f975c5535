-- ===== src/Dock/Menu/Place.antt =====
-- Where the popup menu opens.
use nizam.Prelude.{ℕ, ◌+◌, arith}
use nizam.Prelude.Int.{ℤ, pos, ◌+ℤ◌, ◌-ℤ◌, ◌≤ℤ◌}
use nizam.Dock.Menu.{menu_place_x, menu_place_y}

-- On a screen that is at least 224 wide and 4 higher than the menu, the menu lies on the screen,
-- with a margin of 2 to the left and on top.
pub menu_place_on_screen :
    (screen_w screen_h : ℤ) (menu_h : ℕ) (x y : ℤ)
    → pos 224 ≤ℤ screen_w
    → pos (menu_h + 4) ≤ℤ screen_h
    → (pos 2 ≤ℤ menu_place_x screen_w x)
      × (menu_place_x screen_w x +ℤ pos 220 ≤ℤ screen_w)
      × (pos 2 ≤ℤ menu_place_y screen_h menu_h y)
      × (menu_place_y screen_h menu_h y +ℤ pos menu_h ≤ℤ screen_h)
unfolding menu_place_x menu_place_y ◌+ℤ◌ ◌-ℤ◌
menu_place_on_screen sw sh mh x y a b = (ground arith, ground arith, ground arith, ground arith)
