-- ===== src/Dock/PanelWindow.antt =====
-- The search for the panel's window, whose redraw the dock asks for, and the slide of the dock's own
-- window, nizam-dock/src/xcb_app.c. XCB_NONE is 0; what the X server replies is a record.
pub mod First
use nizam.Prelude.{
  ℕ, zero, suc, ◌+◌, ◌-◌, ◌*◌, ◌/◌, ◌%◌, ◌^◌, Bool, true, false, not, ◌&&◌, ◌||◌, List, [], ◌∷◌,
  ◌==◌, ltb, leb, if◌then◌else◌, Option, none, some,
}
use nizam.Prelude.Int.{ℤ, pos, ◌+ℤ◌, ◌-ℤ◌, ◌*ℤ◌, ◌/ℤ◌, leb_ℤ, ltb_ℤ}

-- A property as it is replied: `none` where there is no reply or its length is not whole.
pub record Server : Type 0 where
  pub cardinals : ℕ → ℕ → Option (List ℕ)
  pub types : ℕ → ℕ → Option (List ℕ)
  pub geometry : ℕ → Option (ℕ × ℕ)
  pub children : ℕ → Option (List ℕ)
  pub root : ℕ
  pub screen_w : ℕ

pub record Atoms : Type 0 where
  pub net_wm_strut_partial : ℕ
  pub net_wm_strut : ℕ
  pub net_wm_window_type : ℕ
  pub net_wm_window_type_dock : ℕ

abbrev pub some_nonzero : List ℕ → Bool
some_nonzero [] = false
some_nonzero (v ∷ vals) = not (v == 0) || some_nonzero vals

abbrev pub nonzero_reply : Option (List ℕ) → Bool
nonzero_reply none = false
nonzero_reply (some vals) = some_nonzero vals

unfoldable pub window_has_nonzero_cardinals : Server → ℕ → ℕ → Bool
window_has_nonzero_cardinals s win prop_atom =
    if win == 0 || prop_atom == 0 then false else nonzero_reply (s.cardinals win prop_atom)

abbrev pub has_atom : ℕ → List ℕ → Bool
has_atom desired [] = false
has_atom desired (a ∷ atoms) = a == desired || has_atom desired atoms

abbrev pub typed_reply : ℕ → Option (List ℕ) → Bool
typed_reply desired none = false
typed_reply desired (some atoms) = has_atom desired atoms

unfoldable pub window_has_type : Server → ℕ → ℕ → ℕ → Bool
window_has_type s win type_atom desired =
    if win == 0 || type_atom == 0 || desired == 0
    then false
    else typed_reply desired (s.types win type_atom)

-- The width and the height, at most 128 high and at least three quarters of the screen wide.
abbrev pub panelish : ℕ → Option (ℕ × ℕ) → Bool
panelish screen_w none = false
panelish screen_w (some (w, h)) = ltb 0 h && leb h 128 && leb (screen_w * 3 / 4 % 2 ^ 16) w

unfoldable pub has_strut : Server → Atoms → ℕ → Bool
unfolding window_has_nonzero_cardinals
has_strut s a w =
    (not (a.net_wm_strut_partial == 0) && window_has_nonzero_cardinals s w a.net_wm_strut_partial)
    || (not (a.net_wm_strut == 0) && window_has_nonzero_cardinals s w a.net_wm_strut)

-- The type is asked for where both atoms are known.
unfoldable pub is_dock_type : Server → Atoms → ℕ → Bool
unfolding window_has_type
is_dock_type s a w =
    if not (a.net_wm_window_type == 0) && not (a.net_wm_window_type_dock == 0)
    then window_has_type s w a.net_wm_window_type a.net_wm_window_type_dock
    else true

unfoldable pub is_panel_candidate : Server → Atoms → ℕ → ℕ → Bool
unfolding has_strut is_dock_type
is_panel_candidate s a own w =
    if w == 0 || w == own
    then false
    else has_strut s a w && is_dock_type s a w && panelish s.screen_w (s.geometry w)

-- The first candidate among the children of a window, 0 where there is none.
unfoldable pub first_candidate : (ℕ → Bool) → List ℕ → ℕ
first_candidate test [] = 0
first_candidate test (w ∷ ws) = if test w then w else first_candidate test ws

abbrev pub candidate_under : (ℕ → Bool) → Option (List ℕ) → ℕ
candidate_under test none = 0
candidate_under test (some ws) = first_candidate test ws

-- `if (best != XCB_NONE) break;`
abbrev pub or_window : ℕ → ℕ → ℕ
or_window best rest = if best == 0 then rest else best

unfoldable pub second_level : Server → (ℕ → Bool) → List ℕ → ℕ
unfolding first_candidate
second_level s test [] = 0
second_level s test (parent ∷ ws) =
    let rest = second_level s test ws in
    if parent == 0 then rest else or_window (candidate_under test (s.children parent)) rest

abbrev pub panel_among : Server → (ℕ → Bool) → Option (List ℕ) → ℕ
panel_among s test none = 0
panel_among s test (some ws) = or_window (first_candidate test ws) (second_level s test ws)

unfoldable pub find_panel_window : Server → Atoms → ℕ → ℕ
unfolding is_panel_candidate first_candidate second_level
find_panel_window s a own = panel_among s (is_panel_candidate s a own) (s.children s.root)

-- What is sent to the panel.
pub data Notice : Type 0 where
  redraw_message : ℕ → ℕ → Notice
  expose_event : ℕ → ℕ → Notice

unfoldable pub notify_panel_redraw : Server → Atoms → ℕ → ℕ → Option Notice
unfolding find_panel_window
notify_panel_redraw s a own redraw_atom =
    let panel = find_panel_window s a own in
    if panel == 0
    then none
    else if redraw_atom == 0
    then some (expose_event panel (s.screen_w % 2 ^ 16))
    else some (redraw_message panel redraw_atom)

abbrev pub slide_x : ℤ → ℤ → ℕ → ℤ
slide_x from_x to_x i = from_x +ℤ (to_x -ℤ from_x) *ℤ pos i /ℤ 10

-- The places of the window in `n` steps of the slide, from the step `i`.
unfoldable pub slide_steps : ℤ → ℤ → ℕ → ℕ → List ℤ
unfolding ◌+ℤ◌ ◌-ℤ◌ ◌*ℤ◌ ◌/ℤ◌
slide_steps from_x to_x zero i = []
slide_steps from_x to_x (suc n) i = slide_x from_x to_x i ∷ slide_steps from_x to_x n (i + 1)

unfoldable pub slide_window_x : ℤ → ℤ → List ℤ
unfolding slide_steps
slide_window_x from_x to_x = slide_steps from_x to_x 10 1

unfoldable pub pointer_inside_window : ℤ → ℤ → Option (Bool × (ℤ × ℤ)) → Bool
pointer_inside_window panel_w panel_h none = false
pointer_inside_window panel_w panel_h (some (same_screen, (win_x, win_y))) =
    same_screen
    && leb_ℤ (pos 0) win_x
    && leb_ℤ (pos 0) win_y
    && ltb_ℤ win_x panel_w
    && ltb_ℤ win_y panel_h
