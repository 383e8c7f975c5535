-- ===== src/Dock/Xembed/Layout.antt =====
-- Where the embedded icons stand: `nizam_dock_xembed_layout`, nizam-dock/src/xcb_app.c. An icon is
-- 24 wide and high.
use native.Mathlib.Nat.{suc-mul}
use nizam.Prelude.{
  ℕ, zero, suc, ◌+◌, ◌-◌, ◌*◌, ◌≤◌, ◌≡◌, refl, List, [], ◌∷◌, arith, Option, none, some, length,
  if◌then◌else◌,
}
use nizam.Prelude.Int.{ℤ, pos, pos_part, ltb_ℤ}

-- `xembed_gap > 0 ? xembed_gap : 3`
unfoldable pub xembed_gap : ℤ → ℕ
xembed_gap gap = if ltb_ℤ (pos 0) gap then pos_part gap else 3

unfoldable pub xembed_width : ℕ → ℕ → ℕ
xembed_width gap count = count * 24 + (count - 1) * gap

pub record Placed : Type 0 where
  pub win : ℕ
  pub x : ℕ

unfoldable pub place_icons : ℕ → ℕ → List ℕ → List Placed
place_icons gap x [] = []
place_icons gap x (w ∷ ws) = record { win = w; x = x } ∷ place_icons gap (x + (24 + gap)) ws

-- The width of the tray's window and the icons in it; without icons the window is unmapped.
unfoldable pub xembed_layout : ℤ → List ℕ → Option (ℕ × List Placed)
xembed_layout gap [] = none
xembed_layout gap (w ∷ ws) =
    let g = xembed_gap gap in some (xembed_width g (length (w ∷ ws)), place_icons g 0 (w ∷ ws))

-- The windows stand in their order from `lo` on, none beyond `right`, with a gap of `gap` between.
unfoldable pub InLine : ℕ → ℕ → ℕ → List ℕ → List Placed → Type 0
InLine gap lo right [] [] = Unit
InLine gap lo right [] (p ∷ ps) = ⊥
InLine gap lo right (w ∷ ws) [] = ⊥
InLine gap lo right (w ∷ ws) (p ∷ ps) =
    (p.win ≡ w) × (p.x ≡ lo) × (p.x + 24 ≤ right) × InLine gap (lo + (24 + gap)) right ws ps

pred_suc : (n : ℕ) → suc n - 1 ≡ n
pred_suc n = omega arith

xembed_width-next :
    (gap n : ℕ) → xembed_width gap (suc (suc n)) ≡ 24 + gap + xembed_width gap (suc n)
unfolding xembed_width
xembed_width-next gap n = rw (pred_suc (suc n), pred_suc n) (omega (arith, suc-mul n gap))

xembed_width-one : (gap : ℕ) → xembed_width gap (suc zero) ≡ 24
unfolding xembed_width
xembed_width-one gap = omega arith

placed-InLine :
    (gap x right w : ℕ) (ws : List ℕ)
    → x + xembed_width gap (length (w ∷ ws)) ≤ right
    → InLine gap x right (w ∷ ws) (place_icons gap x (w ∷ ws))
unfolding InLine place_icons
placed-InLine gap x right w [] h = (refl, refl, omega (arith, xembed_width-one gap), tt)
placed-InLine gap x right w (v ∷ vs) h = (
  refl,
  refl,
  omega (arith, xembed_width-next gap (length vs)),
  placed-InLine gap (x + (24 + gap)) right v vs (omega (arith, xembed_width-next gap (length vs))),
)

-- The tray's window is unmapped where there is no icon; otherwise the icons stand in it.
unfoldable pub IsLaidOut : ℤ → List ℕ → Option (ℕ × List Placed) → Type 0
IsLaidOut gap ws none = ws ≡ []
IsLaidOut gap ws (some (width, icons)) = InLine (xembed_gap gap) 0 width ws icons

-- The embedded icons stand side by side in their order, with the gap between them, and within the
-- width that the tray's window is given; where there is none, the window is unmapped.
pub xembed_layout-IsLaidOut : (gap : ℤ) (ws : List ℕ) → IsLaidOut gap ws (xembed_layout gap ws)
unfolding xembed_layout IsLaidOut
xembed_layout-IsLaidOut gap [] = refl
xembed_layout-IsLaidOut gap (w ∷ ws) =
    placed-InLine (xembed_gap gap) 0 (xembed_width (xembed_gap gap) (length (w ∷ ws))) w ws
      (omega arith)
