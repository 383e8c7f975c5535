-- ===== src/Dock/Loop/Wait.antt =====
-- The event loop does not sleep past the time of a hide that is pending, and then hides the dock.
use nizam.Prelude.{
  ℕ, ◌+◌, ◌≤◌, ◌<◌, ◌≡◌, ◌∙◌, refl, ap, max, Bool, true, false, not, arith, ltb, leb, ◌&&◌, Option,
  none, some, [], Bool-cases, inl, inr,
}
use nizam.Dock.State.{App, World, toggled_recently, hide_suppressed, hide_dock}
use nizam.Dock.Loop.{
  poll_timeout, drain_queue, update_hide_timer, fire_hide_timer, refresh_menu, after_poll,
}
use nizam.Dock.Machine.{View}
use nizam.Dock.Machine.Turns.{view-redraw, view-refresh_menu, view-redraw_if}

-- Awake again by the time `deadline`, or at once where that has passed.
abbrev pub WakesBy : ℕ → ℕ → Option ℕ → Type 0
WakesBy now deadline none = ⊥
WakesBy now deadline (some t) = now + t ≤ max now deadline

poll_timeout-WakesBy :
    (wd : World) (sni_polled : Bool) (app : App)
    → app.hide_pending ≡ true
    → 0 < app.hide_deadline_ms
    → WakesBy wd.now_ms app.hide_deadline_ms (poll_timeout wd sni_polled app)
unfolding poll_timeout
poll_timeout-WakesBy wd sni app p d = ground arith

-- Nothing stands in the way of hiding the dock.
pub record MayHide (wd : World) (app : App) : Type 0 where
  pub shown : app.is_hidden ≡ false
  pub no_menu : app.menu_visible ≡ false
  pub autohide : wd.no_autohide ≡ false
  pub unsuppressed : hide_suppressed wd app ≡ false
  pub outside : wd.pointer_inside ≡ false
  pub settled : toggled_recently wd app ≡ false

hide_dock-hidden : (wd : World) (app : App) → MayHide wd app → (hide_dock wd app).0.is_hidden ≡ true
unfolding hide_dock
hide_dock-hidden wd app h =
    simp (h.shown, h.no_menu, h.autohide, h.unsuppressed, h.outside, h.settled) refl

fire-hidden :
    (wd : World) (app : App)
    → app.hide_pending ≡ true
    → 0 < app.hide_deadline_ms
    → app.hide_deadline_ms ≤ wd.now_ms
    → MayHide wd app
    → (fire_hide_timer wd app).is_hidden ≡ true
unfolding fire_hide_timer
fire-hidden wd app p d due h =
    let app' = record app { hide_pending = false; hide_deadline_ms = 0 } in
    let up : (app.hide_pending && ltb 0 app.hide_deadline_ms && leb app.hide_deadline_ms wd.now_ms)
        ≡ true =
      ground arith in
    let may : MayHide wd app' = record {
      shown = h.shown;
      no_menu = h.no_menu;
      autohide = h.autohide;
      unsuppressed = h.unsuppressed;
      outside = h.outside;
      settled = h.settled;
    } in
    rw up (
      ap (λ (v : View). v.is_hidden) (view-redraw_if (hide_dock wd app'))
      ∙ hide_dock-hidden wd app' may)

timer_stays :
    (wd : World) (app : App)
    → app.hide_pending ≡ true
    → wd.pointer_inside ≡ false
    → update_hide_timer wd app ≡ app
unfolding update_hide_timer
timer_stays wd app p o =
    elim (Bool-cases (not app.is_hidden && not app.menu_visible && not (hide_suppressed wd app))) [
      | inl e ↦ simp (e, p, o) refl
      | inr e ↦ rw e refl
    ]

-- While a hide is pending the loop sleeps no longer than to its time; and a turn at that time or
-- later in which no event comes hides the dock, where it is shown without a menu, autohide is on,
-- hiding is not suppressed, the pointer is outside and the last change is 200 ms ago.
pub after_poll-hides :
    (asleep wd : World) (sni_polled : Bool) (app : App)
    → app.hide_pending ≡ true
    → 0 < app.hide_deadline_ms
    → app.hide_deadline_ms ≤ wd.now_ms
    → MayHide wd app
    → WakesBy asleep.now_ms app.hide_deadline_ms (poll_timeout asleep sni_polled app)
      × ((after_poll wd false [] app).is_hidden ≡ true)
unfolding after_poll drain_queue
after_poll-hides asleep wd sni app p d due h =
    let timed = update_hide_timer wd app in
    let fired = fire_hide_timer wd timed in
    (
      poll_timeout-WakesBy asleep sni app p d,
      ap (λ (v : View). v.is_hidden) (view-redraw wd (refresh_menu fired) ∙ view-refresh_menu fired)
          ∙ ap (λ (a : App). (fire_hide_timer wd a).is_hidden) (timer_stays wd app p h.outside)
          ∙ fire-hidden wd app p d due h,
    )
