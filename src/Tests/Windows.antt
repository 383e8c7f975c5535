-- ===== src/Tests/Windows.antt =====
-- The panel's list of windows and its menu at concrete inputs.
use nizam.Prelude.{
  ◌≡◌, refl, true, false, List, [], ◌∷◌, arith, none, some, All, ◌==◌, if◌then◌else◌,
}
use nizam.Prelude.Int.{pos, ◌+ℤ◌, ◌-ℤ◌, ◌≤ℤ◌}
use nizam.Text.{Bytes, codes}
use nizam.Panel.Tasklist.{ClientItem, Server, find_client_window, tasklist_update_clients}
use nizam.Panel.Tasklist.Listed.{IsTasklist, AreMarked, tasklist_update_clients_holds}
use nizam.Panel.Tasklist.Complete.{is_settled, tasklist_update_clients_complete}
use nizam.Panel.Menu.{AppEntry, build_categories, Panel}
use nizam.Panel.Menu.Groups.{grouped, IsOfCategory, build_categories_cover}

-- Three windows, of which 5 is a frame without a state around the window 6.
abbrev server : Server
server = record {
  client_list = some (3 ∷ 5 ∷ 3 ∷ []);
  root_children = some (4 ∷ 5 ∷ []);
  active_window = some 6;
  children = λ w. if w == 5 then some (6 ∷ []) else none;
  wm_state = λ w. if w == 5 then none else some 1;
  override_redirect = λ w. some false;
  is_dock = λ w. w == 4;
  is_desktop = λ w. false;
  skip_taskbar = λ w. false;
  title = λ w. codes "window";
  window_icon = λ w. none;
  hint_icon = λ w. none;
  class_icon = λ w. some 9;
}

listed_windows_example :
    IsTasklist server (tasklist_update_clients server)
    × AreMarked server.active_window (tasklist_update_clients server)
listed_windows_example = tasklist_update_clients_holds server

tasklist_complete_example :
    is_settled server (tasklist_update_clients server) (find_client_window server 5) ≡ true
tasklist_complete_example = tasklist_update_clients_complete server (3 ∷ 5 ∷ 3 ∷ []) 5 refl refl

abbrev app_of : Bytes → Bytes → AppEntry
app_of name category = record { name = name; exec = name; icon = []; category = category }

abbrev apps : List AppEntry
apps =
    app_of (codes "chess") (codes "Games")
    ∷ app_of (codes "go") (codes "Games")
    ∷ app_of (codes "top") (codes "System")
    ∷ []

abbrev sorted_already : List AppEntry → List AppEntry
sorted_already l = l

build_categories_example :
    (grouped apps (build_categories sorted_already apps).1 ≡ apps)
    × All (IsOfCategory apps) (build_categories sorted_already apps).1
build_categories_example = build_categories_cover sorted_already apps

abbrev bottom_panel : Panel
bottom_panel = record { bottom = true; panel_y = pos 1050; panel_h = pos 30; screen_h = pos 1080 }

room_above : pos 0 ≤ℤ pos 1050 -ℤ pos 4 -ℤ pos 400
unfolding ◌-ℤ◌
room_above = ground arith

abbrev top_panel : Panel
top_panel = record { bottom = false; panel_y = pos 0; panel_h = pos 30; screen_h = pos 1080 }

below_top : pos 0 ≤ℤ pos 0 +ℤ pos 30 +ℤ pos 4
unfolding ◌+ℤ◌
below_top = ground arith

room_below : pos 0 +ℤ pos 30 +ℤ pos 4 ≤ℤ pos 1080 -ℤ pos 400
unfolding ◌+ℤ◌ ◌-ℤ◌
room_below = ground arith

abbrev windows : List ClientItem
windows =
    record { win = 3; is_active = false; skip_taskbar = false; icon = none; title = codes "a" }
    ∷ record { win = 6; is_active = true; skip_taskbar = false; icon = none; title = codes "b" }
    ∷ []
