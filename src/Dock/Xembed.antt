-- ===== src/Dock/Xembed.antt =====
-- The icons that the dock embeds, nizam-dock/src/xcb_app.c: an array of windows, here a list, with
-- a capacity that doubles.
pub mod Icons
pub mod Layout
use nizam.Prelude.{
  ℕ, zero, suc, ◌+◌, ◌*◌, Bool, true, false, ◌||◌, List, [], ◌∷◌, ◌++◌, ◌==◌, ltb, if◌then◌else◌,
  Option, none, some, length,
}
use nizam.Dock.State.{App, World, Call, map_window, embed, call}

-- `xembed_find` from index `i` on
unfoldable pub find_window : List ℕ → ℕ → ℕ → Option ℕ
find_window [] win i = none
find_window (w ∷ ws) win i =
    let rest = find_window ws win (i + 1) in if w == win then some i else rest

unfoldable pub xembed_find : App → ℕ → Option ℕ
xembed_find app win = find_window app.xembed_icons win 0

-- The `memmove` over index `i`.
unfoldable pub remove_at : List ℕ → ℕ → List ℕ
remove_at [] i = []
remove_at (w ∷ ws) zero = ws
remove_at (w ∷ ws) (suc i) = w ∷ remove_at ws i

unfoldable pub xembed_ensure_capacity : App → App
xembed_ensure_capacity app =
    if ltb (length app.xembed_icons) app.xembed_cap
    then app
    else record app { xembed_cap = if app.xembed_cap == 0 then 8 else app.xembed_cap * 2 }

remove_found : App → Option ℕ → App
remove_found app none = app
remove_found app (some i) = record app { xembed_icons = remove_at app.xembed_icons i }

unfoldable pub xembed_remove_client : App → ℕ → App
unfolding remove_found
xembed_remove_client app win = remove_found app (xembed_find app win)

-- What follows once the window is in the array.
unfoldable pub embed_client : World → App → ℕ → App
embed_client wd app win =
    if wd.reparent_ok
    then call (map_window win) (call (embed win) app)
    else xembed_remove_client app win

unfoldable pub add_absent : World → App → ℕ → Option ℕ → App
add_absent wd app win (some i) = app
add_absent wd app win none =
    let app' = xembed_ensure_capacity app in
    embed_client wd (record app' { xembed_icons = app'.xembed_icons ++ (win ∷ []) }) win

unfoldable pub xembed_add_client : World → App → ℕ → App
xembed_add_client wd app win =
    if win == 0 || app.xembed_window == 0 then app else add_absent wd app win (xembed_find app win)
