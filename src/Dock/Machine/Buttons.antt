-- ===== src/Dock/Machine/Buttons.antt =====
-- The handlers of the buttons, against the machine.
use nizam.Prelude.{
  ℕ, ◌+◌, ◌≡◌, refl, Bool, true, false, arith, ◌==◌, if◌then◌else◌, Option, none, some, not, ◌&&◌,
  ltb,
}
use nizam.Prelude.Int.{ℤ}
use nizam.Dock.State.{
  App, World, Call, call, context_menu, launch_cmd, cancel_hide_pending,
  lower_dock_for_external_popup,
}
use nizam.Dock.HitTest.{hit_test_launcher, hit_test_tray}
use nizam.Dock.Menu.{menu_hide, menu_show}
use nizam.Dock.Buttons.{
  Button, menu_click, close_menu, context_if, launch_at, launch_under, press_tray, press_window,
  handle_button_press, popup_if, release_menu, release_last, unless_acted, release_actions,
  release_tray, handle_button_release,
}
use nizam.Dock.Machine.{View, view, suppress, next}
use nizam.Dock.Machine.Keeps.{
  Reaches, view-lower, keep, keep_if, cancel-Reaches, menu_hide-Reaches, menu_show-Reaches,
}
use nizam.Dock.Machine.Handlers.{background-Reaches}

view-menu_click : (app : App) (y : ℤ) → view (menu_click app y) ≡ view app
unfolding menu_click
view-menu_click app y = ground arith

module _ (wd : World) (s : View) where
  close-Reaches : (app : App) → Reaches wd s app → Reaches wd s (close_menu wd app)
  unfolding close_menu
  close-Reaches app h = background-Reaches wd s (menu_hide wd app) (menu_hide-Reaches wd s app h)

  popup-Reaches :
      (d : ℕ) (k : Call) (app : App)
      → Reaches wd s app
      → Reaches wd s (call k (lower_dock_for_external_popup wd d app))
  popup-Reaches d k app =
      keep wd s app (call k (lower_dock_for_external_popup wd d app)) (view-lower wd d app)

  context-Reaches :
      (idx : ℕ) (p : App × Bool) → Reaches wd s p.0 → Reaches wd s (context_if wd idx p)
  unfolding context_if
  context-Reaches idx (app, true) h = h
  context-Reaches idx (app, false) h =
      keep_if wd s (wd.has_context idx) _ app (popup-Reaches 8000 (context_menu idx) app h) h

  launch-Reaches : (app : App) (o : Option ℕ) → Reaches wd s app → Reaches wd s (launch_at wd app o)
  unfolding launch_at
  launch-Reaches app none h = h
  launch-Reaches app (some i) h =
      keep_if wd s (ltb i wd.launcher_count) (call (launch_cmd i) app) app
        (keep wd s app (call (launch_cmd i) app) refl h) h

  under-Reaches : (app : App) (b : Button) → Reaches wd s app → Reaches wd s (launch_under wd app b)
  unfolding launch_under
  under-Reaches app b h = launch-Reaches app (hit_test_launcher app.geometry b.x b.y) h

  press_tray-Reaches :
      (app : App) (b : Button) (o : Option ℕ)
      → Reaches wd s app
      → Reaches wd s (press_tray wd app b o)
  unfolding press_tray
  press_tray-Reaches app b none h = under-Reaches app b h
  press_tray-Reaches app b (some i) h = context-Reaches i _ (menu_show-Reaches wd s app i _ _ h)

  suppress-Reaches :
      (app : App)
      → Reaches wd s app
      → Reaches wd s (record app { suppress_hide_until_ms = wd.now_ms + 250 })
  suppress-Reaches app h = next h (suppress refl)

  press_window-Reaches :
      (app : App) (b : Button) → Reaches wd s app → Reaches wd s (press_window wd app b)
  unfolding press_window
  press_window-Reaches app b h =
      let app' =
        if b.event == app.window
        then cancel_hide_pending (record app { suppress_hide_until_ms = wd.now_ms + 250 })
        else app in
      let k : Reaches wd s app' =
        keep_if wd s (b.event == app.window) _ app
          (cancel-Reaches wd s (record app { suppress_hide_until_ms = wd.now_ms + 250 })
            (suppress-Reaches app h))
          h in
      keep_if wd s (b.detail == 3) (press_tray wd app' b (hit_test_tray app'.geometry b.x b.y))
        (launch_under wd app' b) (press_tray-Reaches app' b (hit_test_tray app'.geometry b.x b.y) k)
        (under-Reaches app' b k)

  pub press-Reaches :
      (app : App) (b : Button) → Reaches wd s app → Reaches wd s (handle_button_press wd app b)
  unfolding handle_button_press
  press-Reaches app b h =
      let app' = if app.menu_visible then close_menu wd app else app in
      let k : Reaches wd s app' =
        keep_if wd s app.menu_visible (close_menu wd app) app (close-Reaches app h) h in
      let app'' = if b.detail == 3 && app'.menu_visible then close_menu wd app' else app' in
      let k' : Reaches wd s app'' =
        keep_if wd s (b.detail == 3 && app'.menu_visible) (close_menu wd app') app'
          (close-Reaches app' k) k in
      keep_if wd s (app.menu_visible && b.event == app.menu_window)
        (close_menu wd (menu_click app b.y)) (press_window wd app'' b)
        (close-Reaches (menu_click app b.y)
          (keep wd s app (menu_click app b.y) (view-menu_click app b.y) h))
        (press_window-Reaches app'' b k')

  popup_if-Reaches :
      (d : ℕ) (cond : Bool) (k : Call) (ok : Bool) (p : App × Bool)
      → Reaches wd s p.0
      → Reaches wd s (popup_if wd d cond k ok p).0
  unfolding popup_if
  popup_if-Reaches d true k ok (app, acted) h = popup-Reaches d k app h
  popup_if-Reaches d false k ok (app, acted) h = h

  release_menu-Reaches :
      (i : ℕ) (p : App × Bool) → Reaches wd s p.0 → Reaches wd s (release_menu wd i p)
  unfolding release_menu
  release_menu-Reaches i (app, true) h = h
  release_menu-Reaches i (app, false) h = popup-Reaches 8000 (context_menu i) app h

  release_last-Reaches :
      (i : ℕ) (ax ay : ℤ) (p : App × Bool)
      → Reaches wd s p.0
      → Reaches wd s (release_last wd i ax ay p)
  unfolding release_last
  release_last-Reaches i ax ay (app, true) h = h
  release_last-Reaches i ax ay (app, false) h =
      keep_if wd s (wd.is_menu i) (release_menu wd i (menu_show wd app i ax ay)) app
        (release_menu-Reaches i (menu_show wd app i ax ay) (menu_show-Reaches wd s app i ax ay h)) h

  unless-Reaches :
      (i : ℕ) (p : App × Bool) → Reaches wd s p.0 → Reaches wd s (unless_acted wd i p).0
  unfolding unless_acted
  unless-Reaches i (app, true) h = h
  unless-Reaches i (app, false) h = popup_if-Reaches _ _ _ _ (app, false) h

  actions-Reaches :
      (i : ℕ) (ax ay : ℤ) (p : App × Bool)
      → Reaches wd s p.0
      → Reaches wd s (release_actions wd i ax ay p)
  unfolding release_actions
  actions-Reaches i ax ay (app, true) h = h
  actions-Reaches i ax ay (app, false) h =
      release_last-Reaches i ax ay _
        (unless-Reaches i _ (popup_if-Reaches _ _ _ _ _ (popup_if-Reaches _ _ _ _ (app, false) h)))

  first_menu-Reaches :
      (t : Bool) (app : App) (i : ℕ) (ax ay : ℤ)
      → Reaches wd s app
      → Reaches wd s (if t then menu_show wd app i ax ay else (app, false)).0
  first_menu-Reaches true app i ax ay h = menu_show-Reaches wd s app i ax ay h
  first_menu-Reaches false app i ax ay h = h

  release_tray-Reaches :
      (app : App) (b : Button) (o : Option ℕ)
      → Reaches wd s app
      → Reaches wd s (release_tray wd app b o)
  unfolding release_tray
  release_tray-Reaches app b none h = h
  release_tray-Reaches app b (some i) h =
      actions-Reaches i _ _ _ (first_menu-Reaches (wd.has_menu i) app i _ _ h)

  pub release-Reaches :
      (app : App) (b : Button) → Reaches wd s app → Reaches wd s (handle_button_release wd app b)
  unfolding handle_button_release
  release-Reaches app b h =
      let outside = app.menu_visible && not (b.detail == 3) && not (b.event == app.menu_window) in
      let app' = if outside then close_menu wd app else app in
      let k : Reaches wd s app' =
        keep_if wd s outside (close_menu wd app) app (close-Reaches app h) h in
      let app'' =
        if b.event == app'.window
        then record app' { suppress_hide_until_ms = wd.now_ms + 250 }
        else app' in
      let k' : Reaches wd s app'' =
        keep_if wd s (b.event == app'.window)
          (record app' { suppress_hide_until_ms = wd.now_ms + 250 }) app' (suppress-Reaches app' k)
          k in
      keep_if wd s (b.detail == 1) (release_tray wd app'' b (hit_test_tray app''.geometry b.x b.y))
        app'' (release_tray-Reaches app'' b (hit_test_tray app''.geometry b.x b.y) k') k'
