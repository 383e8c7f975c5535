-- ===== src/Panel/Layout/Bar/Row.antt =====
-- What stands in the panel does not overlap, and its strut reserves the panel's place,
-- nizam-panel/src/main.c.
use mathlib.Core.Path.{subst}
use nizam.Prelude.{ℕ, ◌≡◌, refl, ◌∙◌, true, List, arith, ◌⊎◌, inl, inr}
use nizam.Prelude.Int.{ℤ, pos, ◌+ℤ◌, ◌-ℤ◌, ◌*ℤ◌, ◌≤ℤ◌, ◌<ℤ◌, +ℤ_parts, -ℤ_parts, eq_of_parts}
use nizam.Panel.Menu.{Rect}
use nizam.Panel.Tasklist.{ClientItem}
use nizam.Panel.Layout.{task_width, task_buttons}
use nizam.Panel.Layout.Buttons.{InRow, task_buttons-InRow}
use nizam.Panel.Layout.Bar.{
  PanelEdge, panel_top, panel_bottom, PanelSettings, Texts, Bar, Strut, place_panel, ws_start,
  task_start, separator, launcher_rect, clock_rect, launcher_separator, clock_separator,
  update_layout, update_struts,
}

room_ends : (a b : ℤ) → a +ℤ (b -ℤ pos 8 -ℤ a) ≡ b -ℤ pos 8
room_ends a b =
    eq_of_parts (a +ℤ (b -ℤ pos 8 -ℤ a)) (b -ℤ pos 8)
      (omega (arith, +ℤ_parts a (b -ℤ pos 8 -ℤ a), -ℤ_parts (b -ℤ pos 8) a, -ℤ_parts b (pos 8)))

task_width_row :
    (xs : ℕ → ℤ) (right left : ℤ) (clients : List ClientItem)
    → InRow left (left +ℤ (right -ℤ pos 8 -ℤ left)) (task_buttons xs true right left clients)
unfolding task_width
task_width_row xs right left clients = task_buttons-InRow xs true right left clients

buttons_between :
    (xs : ℕ → ℤ) (right left : ℤ) (clients : List ClientItem)
    → InRow left (right -ℤ pos 8) (task_buttons xs true right left clients)
buttons_between xs right left clients =
    subst (λ t. InRow left t (task_buttons xs true right left clients)) (room_ends left right)
      (task_width_row xs right left clients)

task_start_at :
    (s : PanelSettings) (h : ℤ) (launcher old : Rect)
    → s.launcher_enabled ≡ true
    → task_start s launcher (launcher_separator s h launcher old)
      ≡ (launcher_separator s h launcher old).x +ℤ (launcher_separator s h launcher old).w
unfolding task_start launcher_separator separator
task_start_at s h launcher old e = simp e refl

ws_start_at :
    (s : PanelSettings) (clock clock_sep : Rect)
    → s.clock_enabled ≡ true
    → ws_start s clock clock_sep ≡ clock_sep.x
unfolding ws_start
ws_start_at s clock clock_sep e = simp e refl

-- With the launcher, the windows and the clock switched on, the buttons of the windows stand in a
-- row between the separator of the launcher and that of the clock, 8 pixels from it, whatever the
-- widths of the texts.
pub update_layout-InRow :
    (s : PanelSettings) (t : Texts) (m : Rect) (old : Bar) (clients : List ClientItem)
    → s.launcher_enabled ≡ true
    → s.taskbar_enabled ≡ true
    → s.clock_enabled ≡ true
    → InRow
        ((update_layout s t m old clients).launcher_sep.x
          +ℤ (update_layout s t m old clients).launcher_sep.w)
        ((update_layout s t m old clients).clock_sep.x -ℤ pos 8)
        (update_layout s t m old clients).buttons
unfolding update_layout
update_layout-InRow s t m old clients a b c =
    let panel = place_panel s m in
    let h = panel.h -ℤ s.padding *ℤ pos 2 in
    let launcher = launcher_rect s t h old.launcher in
    let clock = clock_rect s t panel in
    let sep = launcher_separator s h launcher old.launcher_sep in
    let left = sep.x +ℤ sep.w in
    let right = (clock_separator s clock).x in
    simp
      (
        b,
        task_start_at s h launcher old.launcher_sep a,
        ws_start_at s clock (clock_separator s clock) c,
      )
      (buttons_between old.rect_xs right left clients)

edge_cases : (e : PanelEdge) → (e ≡ panel_top) ⊎ (e ≡ panel_bottom)
edge_cases panel_top = inl refl
edge_cases panel_bottom = inr refl

-- The row of the screen is reserved by the strut, on a screen of the height `screen_h`.
abbrev pub Reserves : Strut → ℤ → ℤ → Type 0
Reserves strut screen_h y = elim strut.edge [
  | panel_top ↦ y <ℤ strut.thickness
  | panel_bottom ↦ screen_h -ℤ strut.thickness ≤ℤ y
]

top_y : (s : PanelSettings) (m : Rect) → s.position ≡ panel_top → (place_panel s m).y ≡ m.y
unfolding place_panel
top_y s m e = simp e refl

bottom_y :
    (s : PanelSettings) (m : Rect)
    → s.position ≡ panel_bottom
    → (place_panel s m).y ≡ m.y +ℤ m.h -ℤ (place_panel s m).h
unfolding place_panel
bottom_y s m e = simp e refl

-- On a monitor that reaches the top and the bottom of the screen the strut reserves each row of the
-- panel.
pub update_struts-Reserves :
    (s : PanelSettings) (m : Rect) (screen_h y : ℤ)
    → m.y ≡ pos 0
    → m.y +ℤ m.h ≡ screen_h
    → (place_panel s m).y ≤ℤ y
    → y <ℤ (place_panel s m).y +ℤ (place_panel s m).h
    → Reserves (update_struts s (place_panel s m)) screen_h y
unfolding update_struts
update_struts-Reserves s m screen_h y top bottom lo hi =
    let h = (place_panel s m).h in
    elim (edge_cases s.position) [
      | inl e ↦
          let here = top_y s m e in
          let below : y <ℤ pos 0 +ℤ h = subst (λ t. y <ℤ t +ℤ h) (here ∙ top) hi in
          simp e (omega (arith, +ℤ_parts (pos 0) h, below))
      | inr e ↦
          let here = bottom_y s m e in
          simp e (subst (λ t. t -ℤ h ≤ℤ y) bottom (subst (λ t. t ≤ℤ y) here lo))
    ]
