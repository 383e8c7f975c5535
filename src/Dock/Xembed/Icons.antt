-- ===== src/Dock/Xembed/Icons.antt =====
-- The array of embedded windows: what `xembed_find`, `xembed_add_client` and `xembed_remove_client`
-- do to it.
use nizam.Prelude.{
  ℕ, zero, suc, ◌+◌, ◌≤◌, ◌<◌, ◌≡◌, ◌∙◌, sym, refl, ap, false, arith, ◌==◌, if◌then◌else◌, none,
  some, List, [], ◌∷◌, ◌++◌, length, length-append, Bool-cases, Option-cases, inl, inr, ==_iff,
}
use nizam.Prelude.Members.{
  elem, remove, Distinct, remove_absent, elem-remove, Distinct-remove, elem-append_one,
  Distinct-append_one, remove-append_one,
}
use nizam.Dock.State.{App, World}
use nizam.Dock.Xembed.{
  find_window, xembed_find, remove_at, xembed_ensure_capacity, xembed_remove_client, embed_client,
  add_absent, xembed_add_client,
}

-- No window is there twice or is XCB_NONE, and there is room for all.
pub record AreEmbedded (ws : List ℕ) (cap : ℕ) : Type 0 where
  pub distinct : Distinct ws
  pub windows : elem 0 ws ≡ false
  pub room : length ws ≤ cap

abbrev pub IsEmbedding : App → Type 0
IsEmbedding app = AreEmbedded app.xembed_icons app.xembed_cap

pub find_window-none : (ws : List ℕ) (win i : ℕ) → find_window ws win i ≡ none → elem win ws ≡ false
unfolding find_window
find_window-none [] win i h = refl
find_window-none (w ∷ ws) win i h = ground (arith, find_window-none ws win (i + 1))

find_window_le : (ws : List ℕ) (win i j : ℕ) → find_window ws win i ≡ some j → i ≤ j
unfolding find_window
find_window_le [] win i j h = absurd (ground arith)
find_window_le (w ∷ ws) win i j h = elim (Bool-cases (w == win)) [
  | inl e ↦ ground arith
  | inr e ↦ omega (arith, find_window_le ws win (i + 1) j (ground arith))
]

-- Removal at the index that is found is removal of the window.
remove_found_eq :
    (ws : List ℕ) (win i d : ℕ)
    → Distinct ws
    → find_window ws win i ≡ some (i + d)
    → remove_at ws d ≡ remove win ws
unfolding find_window remove_at
remove_found_eq [] win i d u h = refl
remove_found_eq (w ∷ ws) win i zero u h = elim (Bool-cases (w == win)) [
  | inl e ↦ rw e (sym (remove_absent win ws (rw (sym ((==_iff w win).0 e)) u.0)))
  | inr e ↦ absurd (omega (arith, find_window_le ws win (i + 1) (i + 0) (ground arith)))
]
remove_found_eq (w ∷ ws) win i (suc d) u h = elim (Bool-cases (w == win)) [
  | inl e ↦ absurd (ground arith)
  | inr e ↦ rw e (ap (◌∷◌ w) (remove_found_eq ws win (i + 1) d u.1 (ground arith)))
]

pub icons-remove :
    (app : App) (win : ℕ)
    → IsEmbedding app
    → (xembed_remove_client app win).xembed_icons ≡ remove win app.xembed_icons
unfolding xembed_remove_client xembed_find
icons-remove app win h = elim (Option-cases (find_window app.xembed_icons win 0)) [
  | inl e ↦
      rw e (sym (remove_absent win app.xembed_icons (find_window-none app.xembed_icons win 0 e)))
  | inr (i, e) ↦
      rw e (remove_found_eq app.xembed_icons win 0 i h.distinct (e ∙ ap some (omega arith)))
]

-- The windows once `win` is added.
abbrev pub added : World → ℕ → List ℕ → List ℕ
added wd win ws = if wd.reparent_ok then ws ++ (win ∷ []) else ws

length-remove_le : (win : ℕ) (ws : List ℕ) → length (remove win ws) ≤ length ws
length-remove_le win [] = omega arith
length-remove_le win (w ∷ ws) = ground (arith, length-remove_le win ws)

cap-remove : (app : App) (win : ℕ) → (xembed_remove_client app win).xembed_cap ≡ app.xembed_cap
unfolding xembed_remove_client
cap-remove app win = ground arith

-- `xembed_remove_client` takes the window out, if it is there, and the others keep their order; no
-- window is left twice, and there is room.
pub xembed_remove_client_holds :
    (app : App) (win : ℕ)
    → IsEmbedding app
    → IsEmbedding (xembed_remove_client app win)
      × ((xembed_remove_client app win).xembed_icons ≡ remove win app.xembed_icons)
xembed_remove_client_holds app win h = (
  rw (icons-remove app win h, cap-remove app win)
      (record {
        distinct = Distinct-remove win app.xembed_icons h.distinct;
        windows = ground (arith, elem-remove win 0 app.xembed_icons, h.windows);
        room = omega (arith, length-remove_le win app.xembed_icons, h.room);
      }),
  icons-remove app win h,
)

grown : App → ℕ → App
grown app win = record (xembed_ensure_capacity app) {
  xembed_icons = (xembed_ensure_capacity app).xembed_icons ++ (win ∷ []);
}

icons-grown : (app : App) (win : ℕ) → (grown app win).xembed_icons ≡ app.xembed_icons ++ (win ∷ [])
unfolding grown xembed_ensure_capacity
icons-grown app win = ground arith

cap-grown :
    (app : App) (win : ℕ)
    → length app.xembed_icons ≤ app.xembed_cap
    → length app.xembed_icons < (grown app win).xembed_cap
unfolding grown xembed_ensure_capacity
cap-grown app win h = ground arith

module _ (wd : World) (app : App) (win : ℕ) where
  grown-IsEmbedding :
      IsEmbedding app
      → (win == 0) ≡ false
      → elem win app.xembed_icons ≡ false
      → IsEmbedding (grown app win)
  grown-IsEmbedding h w e = rw (icons-grown app win) (record {
    distinct = Distinct-append_one win app.xembed_icons h.distinct e;
    windows = ground (arith, elem-append_one 0 win app.xembed_icons, h.windows);
    room = omega (arith, length-append app.xembed_icons (win ∷ []), cap-grown app win h.room);
  })

  embed_holds :
      IsEmbedding (grown app win)
      → elem win app.xembed_icons ≡ false
      → IsEmbedding (embed_client wd (grown app win) win)
        × ((embed_client wd (grown app win) win).xembed_icons ≡ added wd win app.xembed_icons)
  unfolding embed_client
  embed_holds h e = elim (Bool-cases wd.reparent_ok) [
    | inl t ↦ rw (t, embed_client) (h, icons-grown app win)
    | inr t ↦
        let (k, l) = xembed_remove_client_holds (grown app win) win h in
        rw (t, embed_client)
          (k, l ∙ ap (remove win) (icons-grown app win) ∙ remove-append_one win app.xembed_icons e)
  ]

  -- `xembed_add_client` on a window that is not embedded yet puts it last, if the server lets it be
  -- embedded, and otherwise leaves the array as it was; no window is there twice, and there is room.
  pub xembed_add_client_holds :
      IsEmbedding app
      → (win == 0) ≡ false
      → (app.xembed_window == 0) ≡ false
      → xembed_find app win ≡ none
      → IsEmbedding (xembed_add_client wd app win)
        × ((xembed_add_client wd app win).xembed_icons ≡ added wd win app.xembed_icons)
  unfolding xembed_add_client add_absent grown xembed_find
  xembed_add_client_holds h w x e =
      let absent = find_window-none app.xembed_icons win 0 e in
      rw (w, x, e) (embed_holds (grown-IsEmbedding h w absent) absent)
