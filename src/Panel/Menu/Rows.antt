-- ===== src/Panel/Menu/Rows.antt =====
-- The rows of a menu and what is under the pointer.
use nizam.Prelude.{
  ℕ, zero, suc, ◌+◌, ◌*◌, ◌≤◌, ◌<◌, ◌≡◌, ◌∙◌, ap, true, false, ◌&&◌, arith, List, [], ◌∷◌, some,
  length,
}
use nizam.Prelude.Int.{ℤ, pos, ◌+ℤ◌, ◌≤ℤ◌, leb_ℤ, ltb_ℤ}
use nizam.Panel.Menu.{AppEntry, row_h, row, sub_rows, item_from, item_at, row_hit}

hit_inside :
    (w x : ℤ) (y cy : ℕ)
    → pos 0 ≤ℤ x
    → x ≤ℤ w
    → y ≤ cy
    → cy ≤ y + row_h
    → row_hit x (pos cy) (row w y) ≡ true
unfolding row_hit ◌+ℤ◌
hit_inside w x y cy a b c d = ground arith

hit_below : (w x : ℤ) (y cy : ℕ) → y + row_h < cy → row_hit x (pos cy) (row w y) ≡ false
unfolding row_hit ◌+ℤ◌
hit_below w x y cy c = ground arith

item_in_row :
    (w x : ℤ) (apps : List AppEntry) (y cy base i : ℕ)
    → pos 0 ≤ℤ x
    → x ≤ℤ w
    → i < length apps
    → y + row_h * i < cy
    → cy ≤ y + row_h * i + row_h
    → item_from (sub_rows w y apps) x (pos cy) base ≡ some (base + i)
unfolding item_from sub_rows
item_in_row w x [] y cy base i a b l c d = absurd (omega arith)
item_in_row w x (p ∷ apps) y cy base zero a b l c d =
    rw (hit_inside w x y cy a b (omega arith) (omega arith)) (ap some (omega arith))
item_in_row w x (p ∷ apps) y cy base (suc i) a b l c d = rw (hit_below w x y cy (omega arith)) (
    item_in_row w x apps (y + row_h) cy (base + 1) i a b (omega arith) (omega arith) (omega arith)
    ∙ ap some (omega arith))

in_view :
    (y view_h : ℕ) → y < view_h → (ltb_ℤ (pos 0) (pos view_h) && leb_ℤ (pos view_h) (pos y)) ≡ false
in_view y view_h h = ground arith

pos_add : (a b : ℕ) → pos a +ℤ pos b ≡ pos (a + b)
unfolding ◌+ℤ◌
pos_add a b = ground arith

-- Where a submenu with an application in each row is scrolled by `scroll`, the pointer at height `y`
-- of the window is on the application of its row; the upper edge of a row belongs to the row above.
pub item_at_row :
    (w x : ℤ) (apps : List AppEntry) (scroll y view_h i : ℕ)
    → pos 0 ≤ℤ x
    → x ≤ℤ w
    → y < view_h
    → i < length apps
    → row_h * i < y + scroll
    → y + scroll ≤ row_h * i + row_h
    → item_at (sub_rows w 0 apps) (pos scroll) x (pos y) (pos view_h) ≡ some i
unfolding item_at
item_at_row w x apps scroll y view_h i a b v l c d =
    rw (in_view y view_h v, pos_add y scroll)
      (item_in_row w x apps 0 (y + scroll) 0 i a b l (omega arith) (omega arith)
        ∙ ap some (omega arith))
