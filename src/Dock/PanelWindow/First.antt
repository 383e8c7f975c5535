-- ===== src/Dock/PanelWindow/First.antt =====
-- The panel's window that the dock finds, nizam-dock/src/xcb_app.c.
use nizam.Prelude.{
  ℕ, not, ◌&&◌, if◌then◌else◌, ◌≡◌, ◌≢◌, ◌≤◌, ◌<◌, ◌*◌, ◌/◌, ◌^◌, ◌||◌, ==_refl, ◌⊎◌, refl, Bool,
  true, false, List, [], ◌∷◌, ◌==◌, arith, Option, none, some, Bool-cases, inl, inr,
}
use nizam.Prelude.Members.{elem}
use nizam.Dock.PanelWindow.{
  some_nonzero, nonzero_reply, has_atom, typed_reply, window_has_nonzero_cardinals, window_has_type,
  has_strut, is_dock_type, panelish, Server, Atoms, is_panel_candidate, first_candidate,
  candidate_under, or_window, second_level, panel_among, find_panel_window, Notice, redraw_message,
  expose_event, notify_panel_redraw,
}

-- No window was found, or one that passes the test.
abbrev pub FoundOrNone : (ℕ → Bool) → ℕ → Type 0
FoundOrNone test w = (w ≡ 0) ⊎ (test w ≡ true)

module _ (test : ℕ → Bool) where
  first_candidate-FoundOrNone : (ws : List ℕ) → FoundOrNone test (first_candidate test ws)
  unfolding first_candidate
  first_candidate-FoundOrNone [] = inl refl
  first_candidate-FoundOrNone (w ∷ ws) = elim (Bool-cases (test w)) [
    | inl e ↦ rw e (inr e)
    | inr e ↦ rw e (first_candidate-FoundOrNone ws)
  ]

  or_window-FoundOrNone :
      (a b : ℕ) → FoundOrNone test a → FoundOrNone test b → FoundOrNone test (or_window a b)
  or_window-FoundOrNone a b h k = elim (Bool-cases (a == 0)) [ inl e ↦ rw e k | inr e ↦ rw e h ]

  under-FoundOrNone : (ws : Option (List ℕ)) → FoundOrNone test (candidate_under test ws)
  under-FoundOrNone none = inl refl
  under-FoundOrNone (some ws) = first_candidate-FoundOrNone ws

  second_level-FoundOrNone : (s : Server) (ws : List ℕ) → FoundOrNone test (second_level s test ws)
  unfolding second_level
  second_level-FoundOrNone s [] = inl refl
  second_level-FoundOrNone s (p ∷ ws) =
      let rest = second_level-FoundOrNone s ws in
      elim (Bool-cases (p == 0)) [
        | inl e ↦ rw e rest
        | inr e ↦ rw e (
            or_window-FoundOrNone (candidate_under test (s.children p)) (second_level s test ws)
              (under-FoundOrNone (s.children p)) rest)
      ]

  panel_among-FoundOrNone :
      (s : Server) (ws : Option (List ℕ)) → FoundOrNone test (panel_among s test ws)
  panel_among-FoundOrNone s none = inl refl
  panel_among-FoundOrNone s (some ws) =
      or_window-FoundOrNone (first_candidate test ws) (second_level s test ws)
        (first_candidate-FoundOrNone ws) (second_level-FoundOrNone s ws)

abbrev pub receiver : Notice → ℕ
receiver (redraw_message w atom) = w
receiver (expose_event w width) = w

-- One of the values of a property is not 0.
abbrev pub SomeNonzero : Server → ℕ → ℕ → Type 0
SomeNonzero s w atom =
    (vals : List ℕ) × (v : ℕ) × (s.cardinals w atom ≡ some vals) × (elem v vals ≡ true) × (v ≢ 0)

-- The window reserves a strut, by one of the two properties whose atom is known.
abbrev pub ReservesStrut : Server → Atoms → ℕ → Type 0
ReservesStrut s a w =
    ((a.net_wm_strut_partial ≢ 0) × SomeNonzero s w a.net_wm_strut_partial)
    ⊎ ((a.net_wm_strut ≢ 0) × SomeNonzero s w a.net_wm_strut)

-- The window is a dock by its type, unless one of the atoms of the type is not known.
abbrev pub IsDockType : Server → Atoms → ℕ → Type 0
IsDockType s a w =
    (a.net_wm_window_type ≡ 0)
    ⊎ ((a.net_wm_window_type_dock ≡ 0)
        ⊎ ((types : List ℕ) × (s.types w a.net_wm_window_type ≡ some types)
            × (elem a.net_wm_window_type_dock types ≡ true)))

-- The window is between 1 and 128 high, and at least three quarters as wide as the screen.
abbrev pub HasPanelSize : Server → ℕ → Type 0
HasPanelSize s w =
    (width : ℕ) × (height : ℕ) × (s.geometry w ≡ some (width, height))
    × (0 < height)
    × (height ≤ 128)
    × (s.screen_w * 3 / 4 ≤ width)

-- A notice goes to a panel that is not the dock's own window.
abbrev pub GoesToPanel : Server → Atoms → ℕ → Option Notice → Type 0
GoesToPanel s a own none = Unit
GoesToPanel s a own (some n) =
    (receiver n ≢ own)
    × ReservesStrut s a (receiver n)
    × IsDockType s a (receiver n)
    × HasPanelSize s (receiver n)

nonzero_found :
    (vals : List ℕ) → some_nonzero vals ≡ true → (v : ℕ) × (elem v vals ≡ true) × (v ≢ 0)
nonzero_found [] h = absurd (ground arith)
nonzero_found (v ∷ vals) h = elim (Bool-cases (v == 0)) [
  | inl e ↦ let (u, inside, apart) = nonzero_found vals (rw e at h) in (u, ground arith, apart)
  | inr e ↦ (v, rw (==_refl v) refl, ground arith)
]

false-true : false ≡ true → ⊥
false-true h = cc

and_parts : (a b : Bool) → (a && b) ≡ true → (a ≡ true) × (b ≡ true)
and_parts true b h = (refl, h)
and_parts false b h = absurd (false-true h)

-- What holds on the branch that is taken.
unless : (a b : Bool) → (if a then false else b) ≡ true → (a ≡ false) × (b ≡ true)
unless true b h = absurd (false-true h)
unless false b h = (refl, h)

replied :
    (s : Server) (w atom : ℕ) (r : Option (List ℕ))
    → s.cardinals w atom ≡ r
    → nonzero_reply r ≡ true
    → SomeNonzero s w atom
replied s w atom none e h = absurd (false-true h)
replied s w atom (some vals) e h =
    let (v, inside, apart) = nonzero_found vals h in (vals, v, e, inside, apart)

strut_found :
    (s : Server) (w atom : ℕ) → window_has_nonzero_cardinals s w atom ≡ true → SomeNonzero s w atom
unfolding window_has_nonzero_cardinals
strut_found s w atom h =
    replied s w atom (s.cardinals w atom) refl
      (unless (w == 0 || atom == 0) (nonzero_reply (s.cardinals w atom)) h).1

has_strut-ReservesStrut :
    (s : Server) (a : Atoms) (w : ℕ) → has_strut s a w ≡ true → ReservesStrut s a w
unfolding has_strut
has_strut-ReservesStrut s a w h =
    let partial =
      not (a.net_wm_strut_partial == 0)
      && window_has_nonzero_cardinals s w a.net_wm_strut_partial in
    elim (Bool-cases partial) [
      | inl e ↦
          let (known, found) =
            and_parts (not (a.net_wm_strut_partial == 0))
              (window_has_nonzero_cardinals s w a.net_wm_strut_partial) e in
          inl (ground arith, strut_found s w a.net_wm_strut_partial found)
      | inr e ↦
          let (known, found) =
            and_parts (not (a.net_wm_strut == 0)) (window_has_nonzero_cardinals s w a.net_wm_strut)
              (rw e at h) in
          inr (ground arith, strut_found s w a.net_wm_strut found)
    ]

atom_listed :
    (desired : ℕ) (atoms : List ℕ) → has_atom desired atoms ≡ true → elem desired atoms ≡ true
atom_listed desired [] h = h
atom_listed desired (a ∷ atoms) h = elim (Bool-cases (a == desired)) [
  | inl e ↦ rw e refl
  | inr e ↦ rw e (atom_listed desired atoms (rw e at h))
]

typed :
    (s : Server) (w atom desired : ℕ) (r : Option (List ℕ))
    → s.types w atom ≡ r
    → typed_reply desired r ≡ true
    → (types : List ℕ) × (s.types w atom ≡ some types) × (elem desired types ≡ true)
typed s w atom desired none e h = absurd (false-true h)
typed s w atom desired (some atoms) e h = (atoms, e, atom_listed desired atoms h)

type_found :
    (s : Server) (w atom desired : ℕ)
    → window_has_type s w atom desired ≡ true
    → (types : List ℕ) × (s.types w atom ≡ some types) × (elem desired types ≡ true)
unfolding window_has_type
type_found s w atom desired h =
    typed s w atom desired (s.types w atom) refl
      (unless (w == 0 || atom == 0 || desired == 0) (typed_reply desired (s.types w atom)) h).1

where_known : (k t : Bool) → k ≡ true → (if k then t else true) ≡ true → t ≡ true
where_known true t e h = h
where_known false t e h = absurd (false-true e)

is_dock_type-IsDockType :
    (s : Server) (a : Atoms) (w : ℕ) → is_dock_type s a w ≡ true → IsDockType s a w
unfolding is_dock_type
is_dock_type-IsDockType s a w h = elim (Bool-cases (a.net_wm_window_type == 0)) [
  | inl e ↦ inl (ground arith)
  | inr e ↦ elim (Bool-cases (a.net_wm_window_type_dock == 0)) [
    | inl f ↦ inr (inl (ground arith))
    | inr f ↦
        let known : (not (a.net_wm_window_type == 0) && not (a.net_wm_window_type_dock == 0))
            ≡ true =
          rw (e, f) refl in
        inr (
          inr (
            type_found s w a.net_wm_window_type a.net_wm_window_type_dock (
              where_known (not (a.net_wm_window_type == 0) && not (a.net_wm_window_type_dock == 0))
                (window_has_type s w a.net_wm_window_type a.net_wm_window_type_dock) known h)))
  ]
]

sized :
    (s : Server) (w : ℕ) (g : Option (ℕ × ℕ))
    → s.screen_w < 2 ^ 16
    → s.geometry w ≡ g
    → panelish s.screen_w g ≡ true
    → HasPanelSize s w
sized s w none wide e h = absurd (false-true h)
sized s w (some (width, height)) wide e h =
    let bound : s.screen_w * 3 / 4 < 65536 = omega arith in
    (width, height, e, ground arith, ground arith, ground arith)

candidate_is_panel :
    (s : Server) (a : Atoms) (own w : ℕ)
    → s.screen_w < 2 ^ 16
    → is_panel_candidate s a own w ≡ true
    → (w ≢ own) × ReservesStrut s a w × IsDockType s a w × HasPanelSize s w
unfolding is_panel_candidate
candidate_is_panel s a own w wide h =
    let (apart, h') =
      unless (w == 0 || w == own)
        (has_strut s a w && is_dock_type s a w && panelish s.screen_w (s.geometry w)) h in
    let (front, size) =
      and_parts (has_strut s a w && is_dock_type s a w) (panelish s.screen_w (s.geometry w)) h' in
    let (strut, kind) = and_parts (has_strut s a w) (is_dock_type s a w) front in
    (
      ground arith,
      has_strut-ReservesStrut s a w strut,
      is_dock_type-IsDockType s a w kind,
      sized s w (s.geometry w) wide refl size,
    )

-- What the dock sends for a redraw of the panel goes to a window, not its own, that has a value
-- other than 0 in a strut property, is a dock by its type where both atoms of the type are known,
-- and has a panel's size; else nothing is sent. The width of the screen is a number of 16 bits.
pub notify_panel_redraw-GoesToPanel :
    (s : Server) (a : Atoms) (own redraw_atom : ℕ)
    → s.screen_w < 2 ^ 16
    → GoesToPanel s a own (notify_panel_redraw s a own redraw_atom)
unfolding notify_panel_redraw find_panel_window
notify_panel_redraw-GoesToPanel s a own redraw_atom wide =
    let test = is_panel_candidate s a own in
    let panel = panel_among s test (s.children s.root) in
    elim (Bool-cases (panel == 0)) [
      | inl e ↦ rw e tt
      | inr e ↦
          let found : is_panel_candidate s a own panel ≡ true =
            elim (panel_among-FoundOrNone test s (s.children s.root)) [
              | inl z ↦ absurd (ground arith)
              | inr t ↦ t
            ] in
          rw e (elim (Bool-cases (redraw_atom == 0)) [
            | inl f ↦ rw f (candidate_is_panel s a own panel wide found)
            | inr f ↦ rw f (candidate_is_panel s a own panel wide found)
          ])
    ]
