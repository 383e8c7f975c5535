-- ===== src/Panel/Tasklist/Listed.antt =====
-- What the list of windows holds.
use mathlib.Core.Path.{subst}
use nizam.Prelude.{
  ℕ, ◌≤◌, ◌≡◌, ◌∙◌, sym, refl, ap, Bool, true, false, not, ◌&&◌, ◌||◌, List, [], ◌∷◌, ◌++◌, arith,
  ◌==◌, leb, Option, none, some, length, length-append, map, Bool-cases, inl, inr, ==_iff,
}
use nizam.Prelude.Members.{elem, Distinct, elem-append_one, Distinct-append_one}
use nizam.Panel.Tasklist.{
  max_windows, Server, ClientItem, should_include_window, has_client_window, find_client_window,
  new_client, add_found, add_client, add_clients, append_clients_from_tree, add_children,
  update_listed, mark_window, mark_active, collect_clients, tasklist_update_clients,
}

-- The windows of a list of clients.
unfoldable pub wins : List ClientItem → List ℕ
wins [] = []
wins (c ∷ cs) = c.win ∷ wins cs

pub has_client_window-elem :
    (cs : List ClientItem) (w : ℕ) → has_client_window cs w ≡ elem w (wins cs)
unfolding has_client_window wins
has_client_window-elem [] w = refl
has_client_window-elem (c ∷ cs) w = ground (arith, has_client_window-elem cs w)

pub wins-append_one :
    (s : Server) (cs : List ClientItem) (w : ℕ)
    → wins (cs ++ (new_client s w ∷ [])) ≡ wins cs ++ (w ∷ [])
unfolding wins new_client
wins-append_one s [] w = refl
wins-append_one s (c ∷ cs) w = ap (◌∷◌ c.win) (wins-append_one s cs w)

abbrev pub AreUnmarked : List ClientItem → Type 0
AreUnmarked [] = Unit
AreUnmarked (c ∷ cs) = (c.is_active ≡ false) × AreUnmarked cs

unmarked-append_one :
    (s : Server) (cs : List ClientItem) (w : ℕ)
    → AreUnmarked cs
    → AreUnmarked (cs ++ (new_client s w ∷ []))
unfolding new_client
unmarked-append_one s [] w h = (refl, tt)
unmarked-append_one s (c ∷ cs) w h = (h.0, unmarked-append_one s cs w h.1)

-- At most 128 windows, none twice, and each is one to be shown; none is
-- marked yet.
pub record AreListed (s : Server) (cs : List ClientItem) : Type 0 where
  pub few : length cs ≤ max_windows
  pub distinct : Distinct (wins cs)
  pub shown : (w : ℕ) → elem w (wins cs) ≡ true → should_include_window s w ≡ true
  pub unmarked : AreUnmarked cs

module _ (s : Server) where
  same_of :
      (v w : ℕ) (cs : List ClientItem)
      → elem v (wins cs) ≡ false
      → elem v (wins (cs ++ (new_client s w ∷ []))) ≡ true
      → w ≡ v
  same_of v w cs m e = (==_iff w v).0 (
      sym (rw m)
      ∙ sym (elem-append_one v w (wins cs))
      ∙ ap (elem v) (sym (wins-append_one s cs w))
      ∙ e)

  appended-AreListed :
      (cs : List ClientItem) (w : ℕ)
      → AreListed s cs
      → leb max_windows (length cs) ≡ false
      → has_client_window cs w ≡ false
      → should_include_window s w ≡ true
      → AreListed s (cs ++ (new_client s w ∷ []))
  appended-AreListed cs w h l a i = record {
    few = ground (arith, length-append cs (new_client s w ∷ []));
    distinct =
        rw (wins-append_one s cs w)
          (Distinct-append_one w (wins cs) h.distinct (sym (has_client_window-elem cs w) ∙ a));
    shown = λ v e. elim (Bool-cases (elem v (wins cs))) [
      | inl m ↦ h.shown v m
      | inr m ↦ subst (λ t. should_include_window s t ≡ true) (same_of v w cs m e) i
    ];
    unmarked = unmarked-append_one s cs w h.unmarked;
  }

  add_found-AreListed :
      (cs : List ClientItem) (o : Option ℕ)
      → AreListed s cs
      → leb max_windows (length cs) ≡ false
      → AreListed s (add_found s cs o)
  unfolding add_found
  add_found-AreListed cs none h l = h
  add_found-AreListed cs (some w) h l =
      elim (Bool-cases (has_client_window cs w || not (should_include_window s w))) [
        | inl e ↦ rw e h
        | inr e ↦ rw e (appended-AreListed cs w h l (ground arith) (ground arith))
      ]

  pub add_client-AreListed :
      (cs : List ClientItem) (w : ℕ) → AreListed s cs → AreListed s (add_client s cs w)
  unfolding add_client
  add_client-AreListed cs w h = elim (Bool-cases (leb max_windows (length cs))) [
    | inl e ↦ rw e h
    | inr e ↦ rw e (add_found-AreListed cs (find_client_window s w) h e)
  ]

  pub add_clients-AreListed :
      (ws : List ℕ) (cs : List ClientItem) → AreListed s cs → AreListed s (add_clients s cs ws)
  unfolding add_clients
  add_clients-AreListed [] cs h = h
  add_clients-AreListed (w ∷ ws) cs h = elim (Bool-cases (leb max_windows (length cs))) [
    | inl e ↦ rw e h
    | inr e ↦ rw e (add_clients-AreListed ws (add_client s cs w) (add_client-AreListed cs w h))
  ]

  nothing-AreListed : AreListed s []
  unfolding wins
  nothing-AreListed = record {
    few = omega arith;
    distinct = tt;
    shown = λ w e. absurd (ground arith);
    unmarked = tt;
  }

  children-AreListed :
      (cs : List ClientItem) (o : Option (List ℕ))
      → AreListed s cs
      → AreListed s (add_children s cs o)
  unfolding add_children
  children-AreListed cs none h = h
  children-AreListed cs (some ws) h = add_clients-AreListed ws cs h

  pub collect-AreListed : (ws : List ℕ) → AreListed s (collect_clients s ws)
  unfolding collect_clients append_clients_from_tree
  collect-AreListed ws =
      children-AreListed (add_clients s [] ws) s.root_children
        (add_clients-AreListed ws [] nothing-AreListed)

-- Every client is marked as active or not, as it is the active window or not.
abbrev pub is_window : Option ℕ → ℕ → Bool
is_window none w = false
is_window (some a) w = not (a == 0) && w == a

abbrev pub AreMarked : Option ℕ → List ClientItem → Type 0
AreMarked o [] = Unit
AreMarked o (c ∷ cs) = (c.is_active ≡ is_window o c.win) × AreMarked o cs

unmarked_zero :
    (cs : List ClientItem) (a : ℕ) → (a == 0) ≡ true → AreUnmarked cs → AreMarked (some a) cs
unmarked_zero [] a e h = tt
unmarked_zero (c ∷ cs) a e h = (h.0 ∙ rw e refl, unmarked_zero cs a e h.1)

unmarked_none : (cs : List ClientItem) → AreUnmarked cs → AreMarked none cs
unmarked_none [] h = tt
unmarked_none (c ∷ cs) h = (h.0, unmarked_none cs h.1)

pub wins-mark_active : (o : Option ℕ) (cs : List ClientItem) → wins (mark_active o cs) ≡ wins cs
unfolding wins mark_active
wins-mark_active none cs = refl
wins-mark_active (some a) [] = ground arith
wins-mark_active (some a) (c ∷ cs) = ground (arith, wins-mark_active (some a) cs)

pub length-mark_active :
    (o : Option ℕ) (cs : List ClientItem) → length (mark_active o cs) ≡ length cs
unfolding mark_active
length-mark_active none cs = refl
length-mark_active (some a) [] = ground arith
length-mark_active (some a) (c ∷ cs) = ground (arith, length-mark_active (some a) cs)

map-AreMarked :
    (a : ℕ) (cs : List ClientItem)
    → (a == 0) ≡ false
    → AreUnmarked cs
    → AreMarked (some a) (map (mark_window a) cs)
unfolding mark_window
map-AreMarked a [] z h = tt
map-AreMarked a (c ∷ cs) z h = (ground (arith, h.0), map-AreMarked a cs z h.1)

mark_active-AreMarked :
    (o : Option ℕ) (cs : List ClientItem) → AreUnmarked cs → AreMarked o (mark_active o cs)
unfolding mark_active
mark_active-AreMarked none cs h = unmarked_none cs h
mark_active-AreMarked (some a) cs h = elim (Bool-cases (a == 0)) [
  | inl e ↦ rw (e, mark_active) (unmarked_zero cs a e h)
  | inr e ↦ rw (e, mark_active) (map-AreMarked a cs e h)
]

-- The list of windows as the panel shows it.
pub record IsTasklist (s : Server) (cs : List ClientItem) : Type 0 where
  pub few : length cs ≤ max_windows
  pub distinct : Distinct (wins cs)
  pub shown : (w : ℕ) → elem w (wins cs) ≡ true → should_include_window s w ≡ true

marked-IsTasklist :
    (s : Server) (o : Option ℕ) (cs : List ClientItem)
    → AreListed s cs
    → IsTasklist s (mark_active o cs)
marked-IsTasklist s o cs h = (record {
  few = omega (arith, length-mark_active o cs, h.few);
  distinct = rw (wins-mark_active o cs) h.distinct;
  shown = λ w e. h.shown w (sym (ap (elem w) (wins-mark_active o cs)) ∙ e);
})

listed_holds :
    (s : Server) (o : Option (List ℕ))
    → IsTasklist s (update_listed s o) × AreMarked s.active_window (update_listed s o)
unfolding update_listed wins
listed_holds s none =
    (record { few = omega arith; distinct = tt; shown = λ w e. absurd (ground arith) }, tt)
listed_holds s (some ws) = (
  marked-IsTasklist s s.active_window (collect_clients s ws) (collect-AreListed s ws),
  mark_active-AreMarked s.active_window (collect_clients s ws) (collect-AreListed s ws).unmarked,
)

-- Whatever the server answers, `tasklist_update_clients` lists at most 128 windows, none twice, all
-- of them windows to be shown, and marks the active window and no other.
pub tasklist_update_clients_holds :
    (s : Server)
    → IsTasklist s (tasklist_update_clients s)
      × AreMarked s.active_window (tasklist_update_clients s)
unfolding tasklist_update_clients
tasklist_update_clients_holds s = listed_holds s s.client_list
