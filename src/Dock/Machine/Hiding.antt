-- ===== src/Dock/Machine/Hiding.antt =====
-- The turns of the event loop, against the machine, and what the laws of the machine say of them.
use mathlib.Core.Bool.{false≢true}
use nizam.Prelude.{
  ℕ, ◌≤◌, ◌≡◌, ◌∙◌, sym, refl, Bool, true, false, arith, if◌then◌else◌, List, inl, inr,
}
use nizam.Dock.State.{App, World}
use nizam.Dock.Events.{Event}
use nizam.Dock.Handlers.{screen_changed}
use nizam.Dock.Loop.{drain_queue, update_hide_timer, fire_hide_timer, refresh_menu, after_poll}
use nizam.Dock.Machine.{View, view, IsSettled, Moves, stay, CanHide, hidden_now, Turn, stays, hides}
use nizam.Dock.Machine.Laws.{IsTimed, Moves-IsTimed, IsSpaced, Moves-IsSpaced, Moves-shown}
use nizam.Dock.Machine.Keeps.{Reaches, keep_if}
use nizam.Dock.Machine.Handlers.{screen-Reaches}
use nizam.Dock.Machine.Turns.{
  batches_reach, timer-Reaches, view-redraw, view-refresh_menu, to_turn, fire-Turn,
}

-- A turn of the event loop after `poll`, with any events, makes moves of the machine, and hides the
-- dock at the end at most, and only where the machine allows it.
pub after_poll_refines :
    (wd : World) (sni_changed : Bool) (batches : List (List Event)) (app : App)
    → Turn wd (view app) (view (after_poll wd sni_changed batches app))
unfolding after_poll
after_poll_refines wd sni batches app =
    let app' = if sni then screen_changed app else app in
    let k : Reaches wd (view app) app' =
      keep_if wd (view app) sni (screen_changed app) app
        (screen-Reaches wd (view app) app (stay refl)) (stay refl) in
    let timed = update_hide_timer wd (drain_queue wd app' batches) in
    to_turn _ _
      (view-redraw wd (refresh_menu (fire_hide_timer wd timed))
        ∙ view-refresh_menu (fire_hide_timer wd timed))
      (fire-Turn wd (view app) timed (
        timer-Reaches wd (view app) (drain_queue wd app' batches)
          (batches_reach wd (view app) app' batches k)))

hides_only_if :
    (wd : World) (s t : View)
    → Turn wd s t
    → s.is_hidden ≡ false
    → t.is_hidden ≡ true
    → (u : View) × Moves wd s u × CanHide wd u × (t ≡ hidden_now wd u)
hides_only_if wd s t (stays ms) p q = absurd (false≢true (sym (Moves-shown ms p) ∙ q))
hides_only_if wd s t (hides {t = u} ms c e) p q = (u, ms, c, e)

-- A dock that is shown is hidden by a turn only if, after the events, its timer is due, autohide is
-- on, no menu is open, hiding is not suppressed, the pointer is outside and the last change is 200
-- ms ago.
pub after_poll-CanHide :
    (wd : World) (sni_changed : Bool) (batches : List (List Event)) (app : App)
    → app.is_hidden ≡ false
    → (after_poll wd sni_changed batches app).is_hidden ≡ true
    → (u : View) × Moves wd (view app) u
      × CanHide wd u
      × (view (after_poll wd sni_changed batches app) ≡ hidden_now wd u)
after_poll-CanHide wd sni batches app p q =
    hides_only_if wd (view app) (view (after_poll wd sni batches app))
      (after_poll_refines wd sni batches app) p q

Turn-IsTimed : {wd : World} {s t : View} → Turn wd s t → IsTimed wd.now_ms s → IsTimed wd.now_ms t
Turn-IsTimed (stays ms) h = Moves-IsTimed ms h
Turn-IsTimed (hides ms c e) h = rw e (inl refl)

later-IsTimed : (a b : ℕ) (s : View) → a ≤ b → IsTimed a s → IsTimed b s
later-IsTimed a b s l h = ground arith

-- After every turn a hide that is pending is of a dock that is shown, and is due at a time that is
-- set and not more than 30 seconds away, if this was so at an earlier time.
pub after_poll-IsTimed :
    (wd : World) (sni_changed : Bool) (batches : List (List Event)) (app : App) (before : ℕ)
    → before ≤ wd.now_ms
    → IsTimed before (view app)
    → IsTimed wd.now_ms (view (after_poll wd sni_changed batches app))
after_poll-IsTimed wd sni batches app before l h =
    Turn-IsTimed (after_poll_refines wd sni batches app)
      (later-IsTimed before wd.now_ms (view app) l h)

hidden-IsSpaced :
    (wd : World) (s t : View) → IsSpaced wd s t → IsSettled wd t → IsSpaced wd s (hidden_now wd t)
hidden-IsSpaced wd s t (inl (p, q)) c = inr (refl, rw q at c)
hidden-IsSpaced wd s t (inr (p, q)) c = inr (refl, q)

Turn-IsSpaced : {wd : World} {s t : View} → Turn wd s t → IsSpaced wd s t
Turn-IsSpaced (stays ms) = Moves-IsSpaced ms
Turn-IsSpaced {wd = wd} {s = s} (hides {t = t} ms c e) =
    rw e (hidden-IsSpaced wd s t (Moves-IsSpaced ms) c.settled)

-- Over a turn the dock stays shown or hidden as it was, and the time of the last change with it, or
-- it changes now, at least 200 ms after the last change.
pub after_poll-IsSpaced :
    (wd : World) (sni_changed : Bool) (batches : List (List Event)) (app : App)
    → IsSpaced wd (view app) (view (after_poll wd sni_changed batches app))
after_poll-IsSpaced wd sni batches app = Turn-IsSpaced (after_poll_refines wd sni batches app)
