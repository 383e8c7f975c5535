-- ===== src/Dock/Machine/Turns.antt =====
-- The events of the X server and the turns of the event loop, against the machine.
use nizam.Prelude.{
  ◌≡◌, ◌∙◌, refl, Bool, true, false, arith, if◌then◌else◌, not, ◌&&◌, ◌||◌, ltb, leb, List, [], ◌∷◌,
  Bool-cases, Option-cases, inl, inr,
}
use nizam.Dock.State.{
  App, World, timeout, cancel_hide_pending, schedule_hide, raise_dock, raise_strip,
  toggled_recently, hide_suppressed, hide_dock,
}
use nizam.Dock.Events.{
  Event, screen_change, property_notify, client_message, destroy_notify, unmap_notify, enter_notify,
  motion_notify, leave_notify, focus_out, button_press, button_release, expose_window,
  visibility_notify, other, process_event,
}
use nizam.Dock.Handlers.{redraw_if}
use nizam.Dock.Loop.{
  Motion, as_motion, drain_motion, drain_events, drain_queue, update_hide_timer, fire_hide_timer,
  refresh_menu, maybe_draw, redraw,
}
use nizam.Dock.Machine.{
  View, view, IsSettled, cancel, Moves, stay, next, CanHide, hidden_now, Turn, stays, hides,
}
use nizam.Dock.Machine.Keeps.{
  Reaches, keep, keep_if, cancel-Reaches, schedule_hide-Reaches, view-schedule_redraw,
}
use nizam.Dock.Machine.Handlers.{
  screen-Reaches, motion-Reaches, property-Reaches, client_message-Reaches, gone-Reaches,
  enter-Reaches, leave-Reaches, focus_out-Reaches, expose-Reaches, visibility-Reaches,
}
use nizam.Dock.Machine.Buttons.{press-Reaches, release-Reaches}

module _ (wd : World) (s : View) where
  event-Reaches :
      (app : App) (ev : Event) → Reaches wd s app → Reaches wd s (process_event wd app ev)
  unfolding process_event
  event-Reaches app screen_change h = screen-Reaches wd s app h
  event-Reaches app (property_notify w atom) h = property-Reaches wd s app w atom h
  event-Reaches app (client_message w opcode dock icon) h =
      client_message-Reaches wd s app w opcode dock icon h
  event-Reaches app (destroy_notify w) h = gone-Reaches wd s app w h
  event-Reaches app (unmap_notify w) h = gone-Reaches wd s app w h
  event-Reaches app (enter_notify e) h = enter-Reaches wd s app e h
  event-Reaches app (motion_notify e x y) h = motion-Reaches wd s app e x y h
  event-Reaches app (leave_notify e i) h = leave-Reaches wd s app e i h
  event-Reaches app (focus_out e) h = focus_out-Reaches wd s app e h
  event-Reaches app (button_press b) h = press-Reaches wd s app b h
  event-Reaches app (button_release b) h = release-Reaches wd s app b h
  event-Reaches app (expose_window w) h = expose-Reaches wd s app w h
  event-Reaches app (visibility_notify w o) h = visibility-Reaches wd s app w o h
  event-Reaches app other h = h

  motions_reach :
      (app : App) (m : Motion) (es : List Event)
      → Reaches wd s app
      → Reaches wd s (drain_motion wd app m es)
  unfolding drain_motion
  motions_reach app m [] h = event-Reaches app (motion_notify m.event m.x m.y) h
  motions_reach app m (ev ∷ es) h = elim (Option-cases (as_motion ev)) [
    | inl e ↦
        rw (e, drain_motion) (motions_reach (process_event wd app ev) m es (event-Reaches app ev h))
    | inr (m', e) ↦ rw (e, drain_motion) (motions_reach app m' es h)
  ]

  pub events_reach :
      (app : App) (es : List Event) → Reaches wd s app → Reaches wd s (drain_events wd app es)
  unfolding drain_events
  events_reach app [] h = h
  events_reach app (ev ∷ es) h = elim (Option-cases (as_motion ev)) [
    | inl e ↦
        rw (e, drain_events) (events_reach (process_event wd app ev) es (event-Reaches app ev h))
    | inr (m, e) ↦ rw (e, drain_events) (motions_reach app m es h)
  ]

  pub batches_reach :
      (app : App) (batches : List (List Event))
      → Reaches wd s app
      → Reaches wd s (drain_queue wd app batches)
  unfolding drain_queue
  batches_reach app [] h = h
  batches_reach app (es ∷ batches) h =
      batches_reach (drain_events wd app es) batches (events_reach app es h)

  pub timer-Reaches : (app : App) → Reaches wd s app → Reaches wd s (update_hide_timer wd app)
  unfolding update_hide_timer
  timer-Reaches app h =
      keep_if wd s (not app.is_hidden && not app.menu_visible && not (hide_suppressed wd app))
        (if wd.pointer_inside
          then cancel_hide_pending app
          else if app.hide_pending
          then app
          else schedule_hide wd app)
        app
        (keep_if wd s wd.pointer_inside (cancel_hide_pending app)
          (if app.hide_pending then app else schedule_hide wd app) (cancel-Reaches wd s app h)
          (keep_if wd s app.hide_pending app (schedule_hide wd app) h
            (schedule_hide-Reaches wd s app h)))
        h

-- An event makes moves of the machine, and these only.
pub process_event_refines :
    (wd : World) (app : App) (ev : Event) → Moves wd (view app) (view (process_event wd app ev))
process_event_refines wd app ev = event-Reaches wd (view app) app ev (stay refl)

pub view-redraw : (wd : World) (app : App) → view (redraw wd app) ≡ view app
unfolding redraw maybe_draw
view-redraw wd app = ground arith

pub view-refresh_menu : (app : App) → view (refresh_menu app) ≡ view app
unfolding refresh_menu
view-refresh_menu app = elim (Bool-cases app.menu_dirty) [
  | inl e ↦ rw e (view-schedule_redraw (record app { menu_dirty = false }) true timeout)
  | inr e ↦ rw e refl
]

IsSettled-of : (wd : World) (app : App) → toggled_recently wd app ≡ false → IsSettled wd (view app)
IsSettled-of wd app e = ground arith

-- The dock as it is when the timer fires.
fired : App → App
fired app = record app { hide_pending = false; hide_deadline_ms = 0 }

blocked : World → App → Bool
blocked wd app =
    app.is_hidden
    || wd.no_autohide
    || app.menu_visible
    || hide_suppressed wd app
    || wd.pointer_inside
    || toggled_recently wd app

can_hide :
    (wd : World) (app : App)
    → (app.hide_pending && ltb 0 app.hide_deadline_ms && leb app.hide_deadline_ms wd.now_ms) ≡ true
    → blocked wd app ≡ false
    → CanHide wd (view app)
unfolding blocked
can_hide wd app d b = record {
  timer = ground arith;
  due = ground arith;
  shown = ground arith;
  wanted = ground arith;
  no_menu = ground arith;
  allowed = ground arith;
  outside = ground arith;
  settled = IsSettled-of wd app (ground arith);
}

pub view-redraw_if : (p : App × Bool) → view (redraw_if true timeout p) ≡ view p.0
unfolding redraw_if
view-redraw_if (app, true) = view-schedule_redraw app true timeout
view-redraw_if (app, false) = refl

view-hide_dock :
    (wd : World) (app : App)
    → blocked wd app ≡ false
    → view (hide_dock wd (fired app)).0 ≡ hidden_now wd (view app)
unfolding hide_dock blocked fired raise_dock raise_strip
view-hide_dock wd app b = ground arith

view-hide_blocked :
    (wd : World) (app : App)
    → blocked wd app ≡ true
    → view (hide_dock wd (fired app)).0 ≡ view (fired app)
unfolding hide_dock blocked fired
view-hide_blocked wd app b = ground arith

view-fire :
    (wd : World) (app : App)
    → (app.hide_pending && ltb 0 app.hide_deadline_ms && leb app.hide_deadline_ms wd.now_ms) ≡ true
    → view (fire_hide_timer wd app) ≡ view (hide_dock wd (fired app)).0
unfolding fire_hide_timer fired
view-fire wd app d = rw d (view-redraw_if (hide_dock wd (fired app)))

pub to_turn : {wd : World} {s : View} (t u : View) → u ≡ t → Turn wd s t → Turn wd s u
to_turn t u e h = rw e h

pub fire-Turn :
    (wd : World) (s : View) (app : App)
    → Reaches wd s app
    → Turn wd s (view (fire_hide_timer wd app))
unfolding fire_hide_timer fired
fire-Turn wd s app h =
    elim (Bool-cases
      (app.hide_pending && ltb 0 app.hide_deadline_ms && leb app.hide_deadline_ms wd.now_ms)) [
        | inl d ↦ elim (Bool-cases (blocked wd app)) [
          | inl b ↦
              to_turn _ _ (view-fire wd app d ∙ view-hide_blocked wd app b)
                (stays (next h (cancel refl)))
          | inr b ↦ hides h (can_hide wd app d b) (view-fire wd app d ∙ view-hide_dock wd app b)
        ]
        | inr d ↦ stays (keep wd s app (fire_hide_timer wd app) (rw d refl) h)
      ]
