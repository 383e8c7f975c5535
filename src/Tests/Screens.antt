-- ===== src/Tests/Screens.antt =====
-- The place of the dock at concrete inputs.
use nizam.Prelude.{
  ◌≡◌, refl, true, false, ◌&&◌, not, [], ◌∷◌, arith, none, some, ◌==◌, if◌then◌else◌,
}
use nizam.Prelude.Int.{leb_ℤ, pos, ◌+ℤ◌, ◌-ℤ◌, ◌≤ℤ◌}
use nizam.Text.{Bytes, codes, case_eq}
use nizam.Launcher.Desktop.{Launcher}
use nizam.Dock.State.{Rect}
use nizam.Dock.PanelWindow.{Server, Atoms, redraw_message, notify_panel_redraw, slide_window_x}
use nizam.Dock.PanelWindow.First.{GoesToPanel, notify_panel_redraw-GoesToPanel}
use nizam.Dock.Screen.{Output, Display, point_in_rect, output_rect}
use nizam.Dock.Screen.Width.{Contents, row_width, compute_content_width, launcher_category_key}
use nizam.Dock.Screen.Place.{Placement, panel_width, screen_change}
use nizam.Dock.Screen.Rows.{compute_content_width-row}
use nizam.Dock.Screen.Edge.{
  screen_change-Covers, monitor_of, dock_of, screen_change-dock, screen_change-strip,
}

abbrev left_rect : Rect
left_rect = record { x = pos 0; y = pos 0; w = pos 1280; h = pos 1024 }

abbrev right_rect : Rect
right_rect = record { x = pos 1280; y = pos 0; w = pos 1920; h = pos 1080 }

abbrev left_output : Output
left_output = record {
  out = 65;
  info = true;
  connected = true;
  crtc = 63;
  crtc_info = some left_rect;
}

abbrev right_output : Output
right_output = record {
  out = 66;
  info = true;
  connected = true;
  crtc = 64;
  crtc_info = some right_rect;
}

-- Two monitors side by side, with the pointer on the right one.
abbrev two_monitors : Display
two_monitors = record {
  pointer = some (pos 2000, pos 500);
  primary = 65;
  outputs = some (left_output ∷ right_output ∷ []);
  screen_w = 3200;
  screen_h = 1080;
}

abbrev app_in : Bytes → Launcher
app_in category = record { icon = none; cmd = none; category = some category }

abbrev contents : Contents
contents = record {
  launchers =
      app_in (codes "Games")
      ∷ app_in (codes "Office")
      ∷ app_in (codes "office")
      ∷ app_in (codes "System")
      ∷ [];
  icon_size = pos 64;
  spacing = pos 10;
  padding = pos 8;
  sysinfo_lines = [];
  sni_count = 2;
  xembed_count = 0;
}

abbrev before_change : Placement
before_change = record {
  panel_x = pos 0;
  panel_y = pos 0;
  panel_w = pos 0;
  panel_h = pos 0;
  x_visible = pos 0;
  x_hidden = pos 0;
  monitor = left_rect;
}

screen_change_right :
    (screen_change two_monitors contents true (pos 2) before_change).0.x_visible ≡ pos 2964
unfolding screen_change
screen_change_right = refl

screen_change-Covers_example :
    point_in_rect
      (pos 2000)
      (pos 500)
      (screen_change two_monitors contents true (pos 2) before_change).0.monitor
    ≡ true
unfolding output_rect point_in_rect ◌+ℤ◌
screen_change-Covers_example =
    screen_change-Covers two_monitors contents true (pos 2) before_change (pos 2000) (pos 500)
      (left_output ∷ []) [] right_output right_rect refl refl refl refl

screen_change-dock_example :
    ((point_in_rect (pos 3000) (pos 500) (dock_of two_monitors contents true (pos 2) before_change)
        && point_in_rect
            (pos 3000)
            (pos 500)
            (monitor_of two_monitors contents true (pos 2) before_change))
      ≡ false)
    × (((leb_ℤ
              (panel_width contents)
              (monitor_of two_monitors contents false (pos 2) before_change).w
            && point_in_rect
                (pos 3000)
                (pos 500)
                (dock_of two_monitors contents false (pos 2) before_change))
          && not (
              point_in_rect
                (pos 3000)
                (pos 500)
                (monitor_of two_monitors contents false (pos 2) before_change)))
        ≡ false)
screen_change-dock_example =
    screen_change-dock two_monitors contents (pos 2) before_change (pos 3000) (pos 500)

screen_change-strip_example :
    point_in_rect
      ((monitor_of two_monitors contents true (pos 2) before_change).x
        +ℤ (monitor_of two_monitors contents true (pos 2) before_change).w
        -ℤ pos 1)
      (pos 500)
      (screen_change two_monitors contents true (pos 2) before_change).1.0
    ≡ true
unfolding screen_change
screen_change-strip_example =
    screen_change-strip two_monitors contents true (pos 2) before_change (pos 500) (omega arith)
      (omega arith)

compute_content_width-row_example : row_width contents 2 ≤ℤ compute_content_width contents
unfolding launcher_category_key case_eq
compute_content_width-row_example =
    compute_content_width-row contents 64 10 (app_in (codes "Games") ∷ []) (app_in (codes "Office"))
      (app_in (codes "office") ∷ []) (app_in (codes "System") ∷ []) refl refl refl (refl, tt)

-- A panel of 3200 by 32 among the windows of the root window, beside the dock's own window.
abbrev server : Server
server = record {
  cardinals = λ w a. if w == 5 then some (0 ∷ 32 ∷ []) else none;
  types = λ w a. some (9 ∷ []);
  geometry = λ w. some (3200, 32);
  children = λ w. if w == 1 then some (4 ∷ 5 ∷ []) else none;
  root = 1;
  screen_w = 3200;
}

abbrev atoms : Atoms
atoms = record {
  net_wm_strut_partial = 7;
  net_wm_strut = 8;
  net_wm_window_type = 6;
  net_wm_window_type_dock = 9;
}

notify_panel_redraw_here : notify_panel_redraw server atoms 4 11 ≡ some (redraw_message 5 11)
unfolding notify_panel_redraw
notify_panel_redraw_here = refl

notify_panel_redraw_example : GoesToPanel server atoms 4 (notify_panel_redraw server atoms 4 11)
notify_panel_redraw_example = notify_panel_redraw-GoesToPanel server atoms 4 11 (omega arith)

slide_here :
    slide_window_x (pos 0) (pos 25)
    ≡ pos 2 ∷ pos 5 ∷ pos 7 ∷ pos 10 ∷ pos 12 ∷ pos 15 ∷ pos 17 ∷ pos 20 ∷ pos 22 ∷ pos 25 ∷ []
unfolding slide_window_x
slide_here = refl
