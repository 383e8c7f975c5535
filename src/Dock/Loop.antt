-- ===== src/Dock/Loop.antt =====
-- One turn of `nizam_dock_xcb_event_loop`, nizam-dock/src/xcb_app.c, after and before `poll`.
pub mod Wait
pub mod Queue
use nizam.Prelude.{
  ℕ, ◌+◌, ◌-◌, ◌^◌, min, Bool, true, false, not, ◌&&◌, ◌||◌, List, [], ◌∷◌, ◌==◌, ltb, leb,
  if◌then◌else◌, Option, none, some,
}
use nizam.Prelude.Int.{ℤ}
use nizam.Dock.State.{
  App, World, Call, draw, call, timeout, schedule_redraw, cancel_hide_pending, schedule_hide,
  raise_dock, hide_suppressed, hide_dock,
}
use nizam.Dock.Events.{Event, motion_notify, process_event}
use nizam.Dock.Handlers.{redraw_if, screen_changed}

-- `suppress_raise_until_ms` that has passed
unfoldable pub end_raise_suppression : World → App → App
end_raise_suppression wd app =
    let app' = record app { suppress_raise_until_ms = 0 } in
    if not (app.suppress_raise_until_ms == 0) && leb app.suppress_raise_until_ms wd.now_ms
    then (if not app.is_hidden && not app.menu_visible
        then schedule_redraw (raise_dock true app') true timeout
        else app')
    else app

-- The milliseconds left, of an `int`, and no more than is already waited.
abbrev pub wait_at_most : Option ℕ → ℕ → Option ℕ
wait_at_most none ms_left = some (min ms_left (2 ^ 31 - 1))
wait_at_most (some t) ms_left = some (min t (min ms_left (2 ^ 31 - 1)))

-- The timeout of `poll`, where -1, without end, is `none`. `sni_polled` says that the tray's bus is
-- there and has no descriptor to poll.
unfoldable pub poll_timeout : World → Bool → App → Option ℕ
poll_timeout wd sni_polled app =
    let start = if app.redraw_pending then some 0 else if sni_polled then some 1000 else none in
    let t =
      if app.hide_pending && ltb 0 app.hide_deadline_ms
      then wait_at_most start (app.hide_deadline_ms - wd.now_ms)
      else start in
    if not (app.suppress_raise_until_ms == 0) && ltb wd.now_ms app.suppress_raise_until_ms
    then wait_at_most t (app.suppress_raise_until_ms - wd.now_ms)
    else t

pub record Motion : Type 0 where
  pub event : ℕ
  pub x : ℤ
  pub y : ℤ

unfoldable pub as_motion : Event → Option Motion
as_motion (motion_notify e x y) = some (record { event = e; x = x; y = y })
as_motion _ = none

-- Of the queued motion events only the last is handled, after the other events of the queue.
unfoldable pub drain_motion : World → App → Motion → List Event → App
drain_motion wd app m [] = process_event wd app (motion_notify m.event m.x m.y)
drain_motion wd app m (ev ∷ es) = elim (as_motion ev) [
  | some m' ↦ drain_motion wd app m' es
  | none ↦ drain_motion wd (process_event wd app ev) m es
]

unfoldable pub drain_events : World → App → List Event → App
drain_events wd app [] = app
drain_events wd app (ev ∷ es) = elim (as_motion ev) [
  | some m ↦ drain_motion wd app m es
  | none ↦ drain_events wd (process_event wd app ev) es
]

-- The queue is read again until it is empty: behind a motion event come those that have arrived since.
unfoldable pub drain_queue : World → App → List (List Event) → App
unfolding drain_events
drain_queue wd app [] = app
drain_queue wd app (es ∷ batches) = drain_queue wd (drain_events wd app es) batches

-- The hide timer is started or cancelled by where the pointer is.
unfoldable pub update_hide_timer : World → App → App
update_hide_timer wd app =
    if not app.is_hidden && not app.menu_visible && not (hide_suppressed wd app)
    then if wd.pointer_inside
      then cancel_hide_pending app
      else if app.hide_pending
      then app
      else schedule_hide wd app
    else app

-- The dock hides when the timer is up.
unfoldable pub fire_hide_timer : World → App → App
fire_hide_timer wd app =
    if app.hide_pending && ltb 0 app.hide_deadline_ms && leb app.hide_deadline_ms wd.now_ms
    then redraw_if true timeout
        (hide_dock wd (record app { hide_pending = false; hide_deadline_ms = 0 }))
    else app

unfoldable pub refresh_menu : App → App
refresh_menu app =
    if app.menu_dirty then schedule_redraw (record app { menu_dirty = false }) true timeout else app

-- No more than one drawing in 50 ms, unless it is forced. `nizam_dock_draw` computes the places of
-- the launchers and of the tray.
unfoldable pub maybe_draw : World → App → Bool → App
maybe_draw wd app force =
    if not force && not (app.last_draw_ms == 0) && ltb wd.now_ms (app.last_draw_ms + 50)
    then app
    else record (call draw app) { geometry = wd.geometry; last_draw_ms = wd.now_ms }

unfoldable pub redraw : World → App → App
redraw wd app =
    if app.redraw_pending
    then record (maybe_draw wd app app.redraw_force) {
      redraw_pending = false;
      redraw_force = false;
    }
    else app

-- What follows `poll`: `sni_changed` says that the tray's bus has changed its items.
unfoldable pub after_poll : World → Bool → List (List Event) → App → App
after_poll wd sni_changed batches app =
    let app' = if sni_changed then screen_changed app else app in
    redraw wd
      (refresh_menu (fire_hide_timer wd (update_hide_timer wd (drain_queue wd app' batches))))
