-- ===== src/Tests/Bars.antt =====
-- The panel's layout at concrete inputs.
use nizam.Prelude.{ℕ, ◌≡◌, refl, false, List, [], ◌∷◌, arith, none}
use nizam.Prelude.Int.{pos, ◌+ℤ◌, ◌-ℤ◌, ◌<ℤ◌}
use nizam.Panel.Menu.{Rect}
use nizam.Panel.Tasklist.{ClientItem}
use nizam.Panel.Layout.Buttons.{InRow}
use nizam.Panel.Layout.Bar.{
  load_settings, get_monitor_geometry, place_panel, no_rect, Texts, Bar, update_layout,
  update_struts, next_clock_deadline_ms, update_clients,
}
use nizam.Panel.Layout.Bar.Row.{update_layout-InRow, Reserves, update_struts-Reserves}

abbrev monitor : Rect
monitor = record { x = pos 0; y = pos 0; w = pos 1280; h = pos 1024 }

abbrev texts : Texts
texts = record { clock_w = pos 40; label_w = pos 90 }

abbrev no_bar : Bar
no_bar = record {
  panel = no_rect;
  clock = no_rect;
  clock_sep = no_rect;
  clock_sep_soft = no_rect;
  launcher = no_rect;
  launcher_sep = no_rect;
  launcher_sep_soft = no_rect;
  buttons = [];
  rect_xs = λ i. pos 0;
}

abbrev client : ℕ → ClientItem
client k = record { win = k; is_active = false; skip_taskbar = false; icon = none; title = [] }

abbrev two_clients : List ClientItem
two_clients = client 5 ∷ client 6 ∷ []

second_monitor : get_monitor_geometry (no_rect ∷ monitor ∷ []) no_rect (pos 1) ≡ monitor
unfolding get_monitor_geometry
second_monitor = refl

-- On a monitor that ends above the bottom of the screen the strut leaves rows of the panel free.
short_monitor :
    pos 1000
    <ℤ pos 1440 -ℤ (update_struts load_settings (place_panel load_settings monitor)).thickness
unfolding update_struts place_panel
short_monitor = omega arith

next_second : next_clock_deadline_ms 7 250000000 ≡ 8000
unfolding next_clock_deadline_ms
next_second = refl

read_again : update_clients false 179 100 ≡ (false, 100)
unfolding update_clients
read_again = refl

update_layout-InRow_example :
    InRow
      ((update_layout load_settings texts monitor no_bar two_clients).launcher_sep.x
        +ℤ (update_layout load_settings texts monitor no_bar two_clients).launcher_sep.w)
      ((update_layout load_settings texts monitor no_bar two_clients).clock_sep.x -ℤ pos 8)
      (update_layout load_settings texts monitor no_bar two_clients).buttons
update_layout-InRow_example =
    update_layout-InRow load_settings texts monitor no_bar two_clients refl refl refl

update_struts-Reserves_example :
    Reserves (update_struts load_settings (place_panel load_settings monitor)) (pos 1024) (pos 1000)
unfolding place_panel ◌+ℤ◌
update_struts-Reserves_example =
    update_struts-Reserves load_settings monitor (pos 1024) (pos 1000) refl refl (omega arith)
      (omega arith)
