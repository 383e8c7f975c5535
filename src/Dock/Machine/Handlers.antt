-- ===== src/Dock/Machine/Handlers.antt =====
-- The handlers of events that are not of a button, against the machine.
use nizam.Prelude.{
  ℕ, refl, Bool, true, false, arith, ◌==◌, if◌then◌else◌, not, ◌&&◌, ◌||◌, leb, Option-cases, inl,
  inr,
}
use nizam.Prelude.Int.{ℤ}
use nizam.Dock.State.{
  App, World, call, menu_draw, Reason, motion, timeout, expose, schedule_redraw, raise_dock,
  update_xembed_background,
}
use nizam.Dock.Xembed.{xembed_remove_client, xembed_find, xembed_add_client}
use nizam.Dock.Events.{handle_expose, handle_visibility}
use nizam.Dock.Handlers.{
  update_hover_state, redraw_if, on_strip, handle_motion_event, handle_screen_change,
  screen_changed, update_root_pixmap, handle_property, handle_client_message, handle_gone,
  handle_enter, handle_leave, handle_focus_out,
}
use nizam.Dock.Machine.{View}
use nizam.Dock.Machine.Keeps.{
  Reaches, view-schedule_redraw, view-raise_dock, view-raise_strip, view-update_xembed_background,
  view-xembed_remove_client, view-xembed_add_client, keep, keep_if, cancel-Reaches,
  schedule_hide-Reaches, show_dock-Reaches,
}

module _ (wd : World) (s : View) where
  pub redraw-Reaches :
      (app : App) (force : Bool) (r : Reason)
      → Reaches wd s app
      → Reaches wd s (schedule_redraw app force r)
  redraw-Reaches app force r =
      keep wd s app (schedule_redraw app force r) (view-schedule_redraw app force r)

  pub redraw_if-Reaches :
      (force : Bool) (r : Reason) (p : App × Bool)
      → Reaches wd s p.0
      → Reaches wd s (redraw_if force r p)
  unfolding redraw_if
  redraw_if-Reaches force r (app, false) h = h
  redraw_if-Reaches force r (app, true) h = redraw-Reaches app force r h

  pub background-Reaches :
      (app : App) → Reaches wd s app → Reaches wd s (update_xembed_background app)
  background-Reaches app =
      keep wd s app (update_xembed_background app) (view-update_xembed_background app)

  pub screen-Reaches : (app : App) → Reaches wd s app → Reaches wd s (screen_changed app)
  unfolding screen_changed handle_screen_change
  screen-Reaches app h =
      redraw-Reaches (handle_screen_change app) true timeout
        (keep wd s app (handle_screen_change app) (view-raise_strip app.is_hidden app) h)

  hover-Reaches :
      (app : App) (x y : ℤ) → Reaches wd s app → Reaches wd s (update_hover_state app x y).0
  unfolding update_hover_state
  hover-Reaches app x y h = keep wd s app (update_hover_state app x y).0 (ground arith) h

  pub motion-Reaches :
      (app : App) (event : ℕ) (x y : ℤ)
      → Reaches wd s app
      → Reaches wd s (handle_motion_event wd app event x y)
  unfolding handle_motion_event
  motion-Reaches app event x y h =
      keep_if wd s (on_strip app event) _ _
        (redraw_if-Reaches true motion _ (show_dock-Reaches wd s _ h))
        (keep_if wd s (event == app.window) _ _
          (redraw_if-Reaches false motion _ (hover-Reaches _ x y h)) h)

  pixmap-Reaches : (app : App) → Reaches wd s app → Reaches wd s (update_root_pixmap wd app).0
  unfolding update_root_pixmap update_xembed_background
  pixmap-Reaches app h = keep wd s app (update_root_pixmap wd app).0 (ground arith) h

  pub property-Reaches :
      (app : App) (w : ℕ) (atom : Bool)
      → Reaches wd s app
      → Reaches wd s (handle_property wd app w atom)
  unfolding handle_property
  property-Reaches app w atom h =
      keep_if wd s (w == app.root && atom) _ _
        (redraw_if-Reaches false timeout _ (pixmap-Reaches app h)) h

  pub client_message-Reaches :
      (app : App) (w : ℕ) (opcode dock : Bool) (icon : ℕ)
      → Reaches wd s app
      → Reaches wd s (handle_client_message wd app w opcode dock icon)
  unfolding handle_client_message
  client_message-Reaches app w opcode dock icon h =
      keep_if wd s _ _ _
        (screen-Reaches (xembed_add_client wd app icon)
          (keep wd s app (xembed_add_client wd app icon) (view-xembed_add_client wd app icon) h))
        h

  pub gone-Reaches : (app : App) (w : ℕ) → Reaches wd s app → Reaches wd s (handle_gone wd app w)
  unfolding handle_gone
  gone-Reaches app w h = elim (Option-cases (xembed_find app w)) [
    | inl e ↦ rw e h
    | inr (i, e) ↦ rw e (
        screen-Reaches (xembed_remove_client app w)
          (keep wd s app (xembed_remove_client app w) (view-xembed_remove_client app w) h))
  ]

  pub enter-Reaches : (app : App) (e : ℕ) → Reaches wd s app → Reaches wd s (handle_enter wd app e)
  unfolding handle_enter
  enter-Reaches app e h =
      let k = keep_if wd s (e == app.window) _ _ (cancel-Reaches wd s app h) h in
      keep_if wd s _ _ _ (redraw_if-Reaches true motion _ (show_dock-Reaches wd s _ k)) k

  pub leave-Reaches :
      (app : App) (e : ℕ) (inferior : Bool)
      → Reaches wd s app
      → Reaches wd s (handle_leave wd app e inferior)
  unfolding handle_leave
  leave-Reaches app e inferior h = keep_if wd s _ _ _ (schedule_hide-Reaches wd s app h) h

  pub focus_out-Reaches :
      (app : App) (e : ℕ) → Reaches wd s app → Reaches wd s (handle_focus_out wd app e)
  unfolding handle_focus_out
  focus_out-Reaches app e h = keep_if wd s _ _ _ (schedule_hide-Reaches wd s app h) h

  pub expose-Reaches : (app : App) (w : ℕ) → Reaches wd s app → Reaches wd s (handle_expose app w)
  unfolding handle_expose
  expose-Reaches app w h =
      keep_if wd s (app.menu_visible && w == app.menu_window) (call menu_draw app) _
        (keep wd s app (call menu_draw app) refl h)
        (keep_if wd s (w == app.xembed_window) (update_xembed_background app) _
          (background-Reaches app h)
          (keep_if wd s (w == app.window) (schedule_redraw app true expose) app
            (redraw-Reaches app true expose h) h))

  raise_if_Reaches :
      (app : App) (t : Bool)
      → Reaches wd s app
      → Reaches wd s (if t then raise_dock true app else app)
  raise_if_Reaches app t h =
      keep_if wd s t (raise_dock true app) app
        (keep wd s app (raise_dock true app) (view-raise_dock true app) h) h

  pub visibility-Reaches :
      (app : App) (w : ℕ) (obscured : Bool)
      → Reaches wd s app
      → Reaches wd s (handle_visibility wd app w obscured)
  unfolding handle_visibility
  visibility-Reaches app w obscured h =
      let raise =
        not app.menu_visible
        && not app.is_hidden
        && obscured
        && (app.suppress_raise_until_ms == 0 || leb app.suppress_raise_until_ms wd.now_ms) in
      keep_if wd s (w == app.window)
        (schedule_redraw (if raise then raise_dock true app else app) true expose) _
        (redraw-Reaches (if raise then raise_dock true app else app) true expose
          (raise_if_Reaches app raise h))
        (keep_if wd s (w == app.xembed_window) (update_xembed_background app) app
          (background-Reaches app h) h)
