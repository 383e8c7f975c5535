-- ===== src/Dock/Machine/Keeps.antt =====
-- What the single operations of the dock do to the machine: most leave it alone, the others make a
-- move.
use nizam.Prelude.{
  ℕ, ◌≡◌, refl, Bool, true, false, arith, if◌then◌else◌, Option, none, some, Bool-cases, not, ◌||◌,
  Option-cases, inl, inr,
}
use nizam.Prelude.Int.{ℤ, pos, leb_ℤ}
use nizam.Dock.State.{
  App, World, Reason, motion, timeout, expose, schedule_redraw, cancel_hide_pending, schedule_hide,
  raise_dock, raise_strip, lower_dock_for_external_popup, show_dock, update_xembed_background,
  toggled_recently,
}
use nizam.Dock.Xembed.{
  xembed_ensure_capacity, xembed_remove_client, xembed_find, embed_client, add_absent,
  xembed_add_client,
}
use nizam.Dock.Menu.{menu_hide, menu_show, menu_free}
use nizam.Dock.Machine.{View, view, Move, cancel, start, show, open_menu, close_menu, Moves, next}

pub view-schedule_redraw :
    (app : App) (force : Bool) (r : Reason) → view (schedule_redraw app force r) ≡ view app
unfolding schedule_redraw
view-schedule_redraw app force motion = refl
view-schedule_redraw app force timeout = refl
view-schedule_redraw app force expose = refl

pub view-raise_dock : (above : Bool) (app : App) → view (raise_dock above app) ≡ view app
unfolding raise_dock
view-raise_dock above app = ground arith

pub view-raise_strip : (above : Bool) (app : App) → view (raise_strip above app) ≡ view app
unfolding raise_strip
view-raise_strip above app = ground arith

pub view-lower :
    (wd : World) (d : ℕ) (app : App) → view (lower_dock_for_external_popup wd d app) ≡ view app
unfolding lower_dock_for_external_popup raise_dock
view-lower wd d app = ground arith

pub view-update_xembed_background : (app : App) → view (update_xembed_background app) ≡ view app
unfolding update_xembed_background
view-update_xembed_background app = ground arith

pub view-xembed_remove_client :
    (app : App) (win : ℕ) → view (xembed_remove_client app win) ≡ view app
unfolding xembed_remove_client
view-xembed_remove_client app win = ground arith

view-add_absent :
    (wd : World) (app : App) (win : ℕ) (o : Option ℕ) → view (add_absent wd app win o) ≡ view app
unfolding add_absent embed_client xembed_ensure_capacity xembed_remove_client
view-add_absent wd app win none = ground arith
view-add_absent wd app win (some i) = refl

pub view-xembed_add_client :
    (wd : World) (app : App) (win : ℕ) → view (xembed_add_client wd app win) ≡ view app
unfolding xembed_add_client
view-xembed_add_client wd app win = ground (arith, view-add_absent wd app win (xembed_find app win))

module _ (wd : World) (app : App) where
  started :
      ((wd.no_autohide || app.is_hidden || app.menu_visible || leb_ℤ wd.hide_delay_ms (pos 0))
        ≡ false)
      → Move wd (view app) (view (schedule_hide wd app))
  unfolding schedule_hide
  started e = start (ground arith) (ground arith) (ground arith) (ground arith) (ground arith)

  shown :
      ((not app.is_hidden || toggled_recently wd app) ≡ false)
      → Move wd (view app) (view (show_dock wd app).0)
  unfolding show_dock raise_strip raise_dock
  shown e = show (ground arith) (ground arith) (ground arith)

  closed : app.menu_visible ≡ true → Move wd (view app) (view (menu_hide wd app))
  unfolding menu_hide update_xembed_background raise_dock menu_free
  closed e = close_menu e (ground arith)

-- The machine gets from the first state to the view of the second.
abbrev pub Reaches : World → View → App → Type 0
Reaches wd s app = Moves wd s (view app)

module _ (wd : World) (s : View) where
  pub keep : (app app' : App) → view app' ≡ view app → Reaches wd s app → Reaches wd s app'
  keep app app' e h = rw e h

  pub keep_if :
      (t : Bool) (a b : App) → Reaches wd s a → Reaches wd s b → Reaches wd s (if t then a else b)
  keep_if true a b h k = h
  keep_if false a b h k = k

  pub cancel-Reaches : (app : App) → Reaches wd s app → Reaches wd s (cancel_hide_pending app)
  unfolding cancel_hide_pending
  cancel-Reaches app h = next h (cancel refl)

  pub schedule_hide-Reaches : (app : App) → Reaches wd s app → Reaches wd s (schedule_hide wd app)
  unfolding schedule_hide
  schedule_hide-Reaches app h =
      elim (Bool-cases
        (wd.no_autohide || app.is_hidden || app.menu_visible || leb_ℤ wd.hide_delay_ms (pos 0))) [
          | inl e ↦ keep app (schedule_hide wd app) (ground arith) h
          | inr e ↦ next h (started wd app e)
        ]

  pub show_dock-Reaches : (app : App) → Reaches wd s app → Reaches wd s (show_dock wd app).0
  unfolding show_dock raise_strip raise_dock
  show_dock-Reaches app h = elim (Bool-cases (not app.is_hidden || toggled_recently wd app)) [
    | inl e ↦ keep app (show_dock wd app).0 (ground arith) h
    | inr e ↦ next h (shown wd app e)
  ]

  pub menu_hide-Reaches : (app : App) → Reaches wd s app → Reaches wd s (menu_hide wd app)
  unfolding menu_hide
  menu_hide-Reaches app h = elim (Bool-cases app.menu_visible) [
    | inl e ↦ next h (closed wd app e)
    | inr e ↦ keep app (menu_hide wd app) (ground arith) h
  ]

  pub menu_show-Reaches :
      (app : App) (idx : ℕ) (x y : ℤ) → Reaches wd s app → Reaches wd s (menu_show wd app idx x y).0
  unfolding menu_show menu_free
  menu_show-Reaches app idx x y h = elim (Option-cases (wd.menu_of idx)) [
    | inl e ↦ keep app (menu_show wd app idx x y).0 (ground arith) h
    | inr (items, e) ↦ next h (open_menu (ground arith))
  ]
