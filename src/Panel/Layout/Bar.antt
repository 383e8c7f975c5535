-- ===== src/Panel/Layout/Bar.antt =====
-- The panel's window and what stands in it, nizam-panel/src/main.c: `load_settings`,
-- `get_monitor_geometry`, `update_layout`, `update_struts`, and the times of the clock and of the
-- list of windows. The widths of texts that Pango measures are arguments.
pub mod Row
use nizam.Prelude.{
  ℕ, zero, suc, ◌+◌, ◌-◌, ◌*◌, ◌/◌, Bool, true, false, not, ◌&&◌, List, [], ◌∷◌, ◌==◌, ltb, leb,
  if◌then◌else◌, Option, none, some, length, get_or, get_elem?,
}
use nizam.Prelude.Int.{ℤ, pos, negsuc, ◌+ℤ◌, ◌-ℤ◌, ◌*ℤ◌, ltb_ℤ, at_least}
use nizam.Text.{Bytes, codes}
use nizam.Panel.Menu.{Rect}
use nizam.Panel.Tasklist.{ClientItem}
use nizam.Panel.Layout.{Button, clamp_int, task_buttons, task_xs}

pub data PanelEdge : Type 0 where
  panel_top : PanelEdge
  panel_bottom : PanelEdge

pub record PanelSettings : Type 0 where
  pub panel_enabled : Bool
  pub position : PanelEdge
  pub height : ℤ
  pub padding : ℤ
  pub monitor : ℤ
  pub launcher_enabled : Bool
  pub launcher_cmd : Bytes
  pub launcher_label : Bytes
  pub taskbar_enabled : Bool
  pub clock_enabled : Bool
  pub clock_format : Bytes
  pub clock_timezone : Bytes

abbrev pub load_settings : PanelSettings
load_settings = record {
  panel_enabled = true;
  position = panel_bottom;
  height = pos 34;
  padding = pos 8;
  monitor = pos 0;
  launcher_enabled = true;
  launcher_cmd = [];
  launcher_label = codes "Applications";
  taskbar_enabled = true;
  clock_enabled = true;
  clock_format = codes "%H:%M";
  clock_timezone = codes "local";
}

abbrev pub or_rect : Rect → Option Rect → Rect
or_rect r none = r
or_rect r (some q) = q

-- The monitor with the index, the first where there is none, the screen where there are no monitors.
unfoldable pub get_monitor_geometry : List Rect → Rect → ℤ → Rect
get_monitor_geometry [] screen idx = screen
get_monitor_geometry (m ∷ mons) screen (negsuc i) = m
get_monitor_geometry (m ∷ mons) screen (pos i) = or_rect m (get_elem? (m ∷ mons) i)

unfoldable pub place_panel : PanelSettings → Rect → Rect
unfolding clamp_int ◌+ℤ◌ ◌-ℤ◌
place_panel s m =
    let panel_h = clamp_int s.height (pos 16) (pos 128) in
    record {
      x = m.x;
      y = elim s.position [ panel_top ↦ m.y | panel_bottom ↦ m.y +ℤ m.h -ℤ panel_h ];
      w = m.w;
      h = panel_h;
    }

abbrev pub no_rect : Rect
no_rect = record { x = pos 0; y = pos 0; w = pos 0; h = pos 0 }

-- A line of one pixel between two parts, 9 pixels from the edges of a part of the height `h`.
unfoldable pub separator : ℤ → ℤ → ℤ → Rect
separator x y h = record { x = x; y = y +ℤ pos 9; w = pos 1; h = at_least (pos 0) (h -ℤ pos 18) }

-- The widths of the clock's text and of the launcher's label.
pub record Texts : Type 0 where
  pub clock_w : ℤ
  pub label_w : ℤ

unfoldable pub clock_rect : PanelSettings → Texts → Rect → Rect
unfolding ◌+ℤ◌ ◌-ℤ◌ ◌*ℤ◌
clock_rect s t panel = record {
  x = panel.w -ℤ s.padding -ℤ (t.clock_w +ℤ pos 16);
  y = s.padding;
  w = t.clock_w +ℤ pos 16;
  h = panel.h -ℤ s.padding *ℤ pos 2;
}

unfoldable pub clock_separator : PanelSettings → Rect → Rect
unfolding separator
clock_separator s clock =
    if s.clock_enabled then separator (clock.x -ℤ pos 1) clock.y clock.h else no_rect

-- Where what stands left of the clock ends.
unfoldable pub ws_start : PanelSettings → Rect → Rect → ℤ
ws_start s clock clock_sep = if s.clock_enabled then clock_sep.x else clock.x

-- The launcher is as wide as high without a label; with one there is room for the icon before it.
unfoldable pub launcher_width : Bytes → ℤ → ℤ → ℤ
unfolding ◌+ℤ◌
launcher_width [] label_w h = h
launcher_width (c ∷ label) label_w h = pos 27 +ℤ label_w +ℤ pos 8

-- A launcher that is switched off keeps its place, and has no size.
unfoldable pub launcher_rect : PanelSettings → Texts → ℤ → Rect → Rect
unfolding launcher_width
launcher_rect s t h old =
    if s.launcher_enabled
    then record {
      x = s.padding;
      y = s.padding;
      w = launcher_width s.launcher_label t.label_w h;
      h = h;
    }
    else record old { w = pos 0; h = pos 0 }

unfoldable pub launcher_separator : PanelSettings → ℤ → Rect → Rect → Rect
unfolding separator
launcher_separator s h launcher old =
    if s.launcher_enabled
    then separator (s.padding +ℤ launcher.w) s.padding h
    else record old { w = pos 0; h = pos 0 }

-- Where the buttons of the windows begin.
unfoldable pub task_start : PanelSettings → Rect → Rect → ℤ
task_start s launcher sep =
    if s.launcher_enabled then s.padding +ℤ launcher.w +ℤ sep.w else s.padding

-- The soft line right of a separator.
abbrev pub beside : Rect → Rect
beside sep = record { x = sep.x +ℤ pos 1; y = sep.y; w = pos 1; h = sep.h }

-- `buttons` are the parts of `task_rects` for the windows there are; `rect_xs` is the x of each place
-- of that array.
pub record Bar : Type 0 where
  pub panel : Rect
  pub clock : Rect
  pub clock_sep : Rect
  pub clock_sep_soft : Rect
  pub launcher : Rect
  pub launcher_sep : Rect
  pub launcher_sep_soft : Rect
  pub buttons : List Button
  pub rect_xs : ℕ → ℤ

unfoldable pub update_layout : PanelSettings → Texts → Rect → Bar → List ClientItem → Bar
update_layout s t m old clients =
    let panel = place_panel s m in
    let h = panel.h -ℤ s.padding *ℤ pos 2 in
    let clock = clock_rect s t panel in
    let clock_sep = clock_separator s clock in
    let launcher = launcher_rect s t h old.launcher in
    let launcher_sep = launcher_separator s h launcher old.launcher_sep in
    let buttons =
      task_buttons old.rect_xs s.taskbar_enabled (ws_start s clock clock_sep)
        (task_start s launcher launcher_sep) clients in
    record {
      panel = panel;
      clock = clock;
      clock_sep = clock_sep;
      clock_sep_soft = if s.clock_enabled then beside clock_sep else no_rect;
      launcher = launcher;
      launcher_sep = launcher_sep;
      launcher_sep_soft =
          if s.launcher_enabled
          then beside launcher_sep
          else record old.launcher_sep_soft { w = pos 0; h = pos 0 };
      buttons = buttons;
      rect_xs = task_xs buttons old.rect_xs;
    }

-- The strut at an edge of the screen: its thickness, and where it begins and ends along the edge.
pub record Strut : Type 0 where
  pub edge : PanelEdge
  pub thickness : ℤ
  pub start : ℤ
  pub end : ℤ

unfoldable pub update_struts : PanelSettings → Rect → Strut
unfolding ◌+ℤ◌ ◌-ℤ◌
update_struts s panel = record {
  edge = s.position;
  thickness = panel.h;
  start = panel.x;
  end = panel.x +ℤ panel.w -ℤ pos 1;
}

-- The next full second, at least one millisecond from now. `nsec` is below 10^9.
unfoldable pub next_clock_deadline_ms : ℕ → ℕ → ℕ
next_clock_deadline_ms sec nsec =
    let now_ms = sec * 1000 + nsec / 1000000 in
    let diff = (sec + 1) * 1000 - now_ms in now_ms + (if ltb diff 1 then 1 else diff)

-- Whether the list of windows is read again, and when it was read last.
unfoldable pub update_clients : Bool → ℕ → ℕ → Bool × ℕ
update_clients force now last_ms =
    if not force && ltb now (last_ms + 80) then (false, last_ms) else (true, now)
