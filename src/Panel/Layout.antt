-- ===== src/Panel/Layout.antt =====
-- The layout of the panel, nizam-panel/src/main.c: `clamp_int` and the buttons of
-- `update_layout`, which Bar composes with the rest of the panel. What lies left and right of the
-- buttons is given by `task_x` and `ws_start`. The rectangle of a window without a button has the
-- width 0.
pub mod Buttons
pub mod Bar
use nizam.Prelude.{
  ℕ, zero, suc, ◌+◌, ◌-◌, ◌/◌, Bool, true, false, ◌&&◌, List, [], ◌∷◌, ◌==◌, if◌then◌else◌, Option,
  none, some, length,
}
use nizam.Prelude.Int.{ℤ, pos, pos_part, ◌+ℤ◌, ◌-ℤ◌, ◌/ℤ◌, ltb_ℤ, leb_ℤ, at_most, at_least}
use nizam.Panel.Tasklist.{ClientItem}

-- `clamp_int`
unfoldable pub clamp_int : ℤ → ℤ → ℤ → ℤ
clamp_int v lo hi = if ltb_ℤ v lo then lo else if ltb_ℤ hi v then hi else v

-- The room for the buttons.
unfoldable pub task_width : Bool → ℤ → ℤ → ℤ
task_width taskbar_enabled ws_start task_x =
    if taskbar_enabled then ws_start -ℤ pos 8 -ℤ task_x else pos 0

-- The width of a button with the gap behind it, between 80 and 220.
unfoldable pub per_button : ℤ → ℕ → ℤ
per_button task_w client_count =
    at_most (pos 220)
      (at_least (pos 80) (if client_count == 0 then pos 0 else task_w /ℤ client_count))

unfoldable pub max_buttons : ℤ → ℕ → ℤ
max_buttons task_w client_count =
    at_most (pos client_count) (task_w /ℤ pos_part (per_button task_w client_count))

pub record Button : Type 0 where
  pub x : ℤ
  pub w : ℤ

-- The loop over the windows, with the number of buttons that there are to come. A button without
-- room keeps the x that its place in the array has, `xs`.
unfoldable pub place_buttons : (ℕ → ℤ) → ℤ → ℤ → ℕ → List ClientItem → List Button
place_buttons xs per task_x n [] = []
place_buttons xs per task_x zero (c ∷ cs) =
    record { x = xs 0; w = pos 0 } ∷ place_buttons (λ i. xs (i + 1)) per task_x zero cs
place_buttons xs per task_x (suc n) (c ∷ cs) =
    record { x = task_x; w = per -ℤ pos 4 }
    ∷ place_buttons (λ i. xs (i + 1)) per (task_x +ℤ per) n cs

unfoldable pub task_buttons : (ℕ → ℤ) → Bool → ℤ → ℤ → List ClientItem → List Button
task_buttons xs taskbar_enabled ws_start task_x clients =
    let task_w = task_width taskbar_enabled ws_start task_x in
    let n = length clients in
    place_buttons xs (per_button task_w n) task_x (pos_part (max_buttons task_w n)) clients

-- The x of each place of the array behind the loop: of the buttons, and as before behind them.
unfoldable pub task_xs : List Button → (ℕ → ℤ) → ℕ → ℤ
task_xs [] xs i = xs i
task_xs (b ∷ bs) xs zero = b.x
task_xs (b ∷ bs) xs (suc i) = task_xs bs (λ j. xs (j + 1)) i
