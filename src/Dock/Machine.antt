-- ===== src/Dock/Machine.antt =====
-- The hide and show machine that the dock promises to be: what of the state decides whether the dock
-- is on the screen, and the moves that may change it.
pub mod Laws
pub mod Keeps
pub mod Handlers
pub mod Buttons
pub mod Turns
pub mod Hiding
use nizam.Prelude.{◌⊎◌, ℕ, ◌+◌, min, ◌≤◌, ◌<◌, ◌≡◌, Bool, true, false}
use nizam.Prelude.Int.{pos, pos_part, leb_ℤ}
use nizam.Dock.State.{App, World, toggled_recently, hide_suppressed}

pub record View : Type 0 where
  pub is_hidden : Bool
  pub hide_pending : Bool
  pub hide_deadline_ms : ℕ
  pub last_toggle_ms : ℕ
  pub menu_visible : Bool
  pub suppress_hide_until_ms : ℕ

abbrev pub view : App → View
view app = record {
  is_hidden = app.is_hidden;
  hide_pending = app.hide_pending;
  hide_deadline_ms = app.hide_deadline_ms;
  last_toggle_ms = app.last_toggle_ms;
  menu_visible = app.menu_visible;
  suppress_hide_until_ms = app.suppress_hide_until_ms;
}

-- 200 milliseconds have passed since the last change, if there was one.
abbrev pub IsSettled : World → View → Type 0
IsSettled wd s = (s.last_toggle_ms ≡ 0) ⊎ (s.last_toggle_ms + 200 ≤ wd.now_ms)

-- The moves of one step, at the time and under the configuration of that step.
pub data Move (wd : World) : View → View → Type 0 where
  cancel : {s t : View} → t ≡ record s { hide_pending = false; hide_deadline_ms = 0 } → Move wd s t
  start :
      {s t : View}
      → wd.no_autohide ≡ false
      → s.is_hidden ≡ false
      → s.menu_visible ≡ false
      → 0 < pos_part wd.hide_delay_ms
      → t ≡ record s {
        hide_pending = true;
        hide_deadline_ms = wd.now_ms + min (pos_part wd.hide_delay_ms) 30000;
      }
      → Move wd s t
  show :
      {s t : View}
      → s.is_hidden ≡ true
      → IsSettled wd s
      → t ≡ record s { is_hidden = false; hide_pending = false; last_toggle_ms = wd.now_ms }
      → Move wd s t
  open_menu :
      {s t : View}
      → t ≡ record s { menu_visible = true; suppress_hide_until_ms = wd.now_ms + 60000 }
      → Move wd s t
  close_menu :
      {s t : View}
      → s.menu_visible ≡ true
      → t ≡ record s { menu_visible = false; suppress_hide_until_ms = wd.now_ms + 250 }
      → Move wd s t
  suppress : {s t : View} → t ≡ record s { suppress_hide_until_ms = wd.now_ms + 250 } → Move wd s t

-- The dock hides only where nothing is against it, and at most once in a turn, after the events.
pub record CanHide (wd : World) (s : View) : Type 0 where
  pub timer : s.hide_pending ≡ true
  pub due : s.hide_deadline_ms ≤ wd.now_ms
  pub shown : s.is_hidden ≡ false
  pub wanted : wd.no_autohide ≡ false
  pub no_menu : s.menu_visible ≡ false
  pub allowed : s.suppress_hide_until_ms ≤ wd.now_ms
  pub outside : wd.pointer_inside ≡ false
  pub settled : IsSettled wd s

pub data Moves (wd : World) : View → View → Type 0 where
  stay : {s t : View} → t ≡ s → Moves wd s t
  next : {s t u : View} → Moves wd s t → Move wd t u → Moves wd s u

abbrev pub hidden_now : World → View → View
hidden_now wd s = record s {
  is_hidden = true;
  hide_pending = false;
  hide_deadline_ms = 0;
  last_toggle_ms = wd.now_ms;
}

-- A turn of the event loop: moves, and then the dock may hide.
pub data Turn (wd : World) : View → View → Type 0 where
  stays : {s t : View} → Moves wd s t → Turn wd s t
  hides : {s t u : View} → Moves wd s t → CanHide wd t → u ≡ hidden_now wd t → Turn wd s u
