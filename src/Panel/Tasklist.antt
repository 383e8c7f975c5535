-- ===== src/Panel/Tasklist.antt =====
-- The list of windows on the panel, nizam-panel/src/tasklist.c. What the X server answers is a
-- record; a window is a number and None is 0.
pub mod Listed
pub mod Complete
use nizam.Prelude.{
  ℕ, ◌+◌, Bool, true, false, not, ◌&&◌, ◌||◌, List, [], ◌∷◌, ◌++◌, ◌==◌, leb, if◌then◌else◌, Option,
  none, some, length, map,
}
use nizam.Text.{Bytes, codes}

abbrev pub max_windows : ℕ
max_windows = 128

-- The answers of the server, of the three ways to find an icon among them.
pub record Server : Type 0 where
  pub client_list : Option (List ℕ)
  pub root_children : Option (List ℕ)
  pub active_window : Option ℕ
  pub children : ℕ → Option (List ℕ)
  pub wm_state : ℕ → Option ℕ
  pub override_redirect : ℕ → Option Bool
  pub is_dock : ℕ → Bool
  pub is_desktop : ℕ → Bool
  pub skip_taskbar : ℕ → Bool
  pub title : ℕ → Bytes
  pub window_icon : ℕ → Option ℕ
  pub hint_icon : ℕ → Option ℕ
  pub class_icon : ℕ → Option ℕ

pub record ClientItem : Type 0 where
  pub win : ℕ
  pub is_active : Bool
  pub skip_taskbar : Bool
  pub icon : Option ℕ
  pub title : Bytes

-- NormalState is 1 and IconicState is 3.
state_shown : Option ℕ → Bool
state_shown none = false
state_shown (some st) = st == 1 || st == 3

managed : Option Bool → Bool
managed none = false
managed (some redirect) = not redirect

unfoldable pub should_include_window : Server → ℕ → Bool
unfolding state_shown managed
should_include_window s w =
    managed (s.override_redirect w)
    && not (s.is_dock w || s.is_desktop w)
    && not (s.skip_taskbar w)
    && state_shown (s.wm_state w)

unfoldable pub has_client_window : List ClientItem → ℕ → Bool
has_client_window [] w = false
has_client_window (c ∷ cs) w = c.win == w || has_client_window cs w

-- The first window with a state.
unfoldable pub first_stated : Server → List ℕ → Option ℕ
first_stated s [] = none
first_stated s (w ∷ ws) = elim (s.wm_state w) [ none ↦ first_stated s ws | some st ↦ some w ]

-- A window without a state stands for the first of its children that has one.
unfoldable pub find_client_window : Server → ℕ → Option ℕ
find_client_window s w = elim (s.wm_state w) [
  | some st ↦ some w
  | none ↦ elim (s.children w) [ none ↦ none | some ws ↦ first_stated s ws ]
]

or_icon : Option ℕ → Option ℕ → Option ℕ
or_icon none o = o
or_icon (some i) o = some i

or_untitled : Bytes → Bytes
or_untitled [] = codes "(untitled)"
or_untitled (c ∷ t) = c ∷ t

unfoldable pub new_client : Server → ℕ → ClientItem
unfolding or_icon or_untitled
new_client s w = record {
  win = w;
  is_active = false;
  skip_taskbar = false;
  icon = or_icon (s.window_icon w) (or_icon (s.hint_icon w) (s.class_icon w));
  title = or_untitled (s.title w);
}

unfoldable pub add_found : Server → List ClientItem → Option ℕ → List ClientItem
add_found s cs none = cs
add_found s cs (some w) =
    if has_client_window cs w || not (should_include_window s w)
    then cs
    else cs ++ (new_client s w ∷ [])

unfoldable pub add_client : Server → List ClientItem → ℕ → List ClientItem
add_client s cs w =
    if leb max_windows (length cs) then cs else add_found s cs (find_client_window s w)

-- The loops over windows, which end where the list is full.
unfoldable pub add_clients : Server → List ClientItem → List ℕ → List ClientItem
add_clients s cs [] = cs
add_clients s cs (w ∷ ws) =
    let rest = add_clients s (add_client s cs w) ws in
    if leb max_windows (length cs) then cs else rest

unfoldable pub add_children : Server → List ClientItem → Option (List ℕ) → List ClientItem
add_children s cs none = cs
add_children s cs (some ws) = add_clients s cs ws

unfoldable pub append_clients_from_tree : Server → List ClientItem → List ClientItem
append_clients_from_tree s cs = add_children s cs s.root_children

mark_window : ℕ → ClientItem → ClientItem
mark_window w c = if c.win == w then record c { is_active = true } else c

-- The clients of the active window, if there is one, are marked.
unfoldable pub mark_active : Option ℕ → List ClientItem → List ClientItem
unfolding mark_window
mark_active none cs = cs
mark_active (some w) cs = if w == 0 then cs else map (mark_window w) cs

unfoldable pub collect_clients : Server → List ℕ → List ClientItem
collect_clients s ws = append_clients_from_tree s (add_clients s [] ws)

unfoldable pub update_listed : Server → Option (List ℕ) → List ClientItem
update_listed s none = []
update_listed s (some ws) = mark_active s.active_window (collect_clients s ws)

unfoldable pub tasklist_update_clients : Server → List ClientItem
tasklist_update_clients s = update_listed s s.client_list

unmark : ClientItem → ClientItem
unmark c = record c { is_active = false }

unfoldable pub tasklist_update_active : Server → List ClientItem → List ClientItem
unfolding unmark
tasklist_update_active s cs = mark_active s.active_window (map unmark cs)
