-- ===== src/Panel/Tasklist/Complete.antt =====
-- No window that is to be shown is left out while there is room.
use mathlib.Core.Path.{subst}
use nizam.Prelude.{
  ℕ, ◌≡◌, refl, Bool, true, not, ◌||◌, List, [], ◌∷◌, arith, ◌==◌, leb, Option, none, some, length,
  length-append, Bool-cases, inl, inr, ==_iff,
}
use nizam.Prelude.Members.{elem, elem-append_one}
use nizam.Panel.Tasklist.{
  max_windows, Server, ClientItem, should_include_window, find_client_window, new_client, add_found,
  add_client, add_clients, mark_active, add_children, append_clients_from_tree, collect_clients,
  update_listed, tasklist_update_clients,
}
use nizam.Panel.Tasklist.Listed.{
  wins, has_client_window-elem, wins-append_one, wins-mark_active, length-mark_active,
}

-- The list is full, or has the window, or the window is not to be shown.
abbrev pub is_settled : Server → List ClientItem → Option ℕ → Bool
is_settled s cs none = true
is_settled s cs (some w) =
    leb max_windows (length cs) || elem w (wins cs) || not (should_include_window s w)

module _ (s : Server) where
  stays_settled :
      (cs : List ClientItem) (o p : Option ℕ)
      → is_settled s cs p ≡ true
      → is_settled s (add_found s cs o) p ≡ true
  unfolding add_found
  stays_settled cs none p h = h
  stays_settled cs (some w) none h = refl
  stays_settled cs (some w) (some v) h = ground (
    arith,
    elem-append_one v w (wins cs),
    wins-append_one s cs w,
    length-append cs (new_client s w ∷ []),
  )

  gets_settled : (cs : List ClientItem) (o : Option ℕ) → is_settled s (add_found s cs o) o ≡ true
  unfolding add_found
  gets_settled cs none = refl
  gets_settled cs (some w) =
      ground
        (arith, elem-append_one w w (wins cs), wins-append_one s cs w, has_client_window-elem cs w)

  full_settled :
      (cs : List ClientItem) (o : Option ℕ)
      → leb max_windows (length cs) ≡ true
      → is_settled s cs o ≡ true
  full_settled cs none h = refl
  full_settled cs (some w) h = rw h refl

  add_client_keeps :
      (cs : List ClientItem) (w : ℕ) (p : Option ℕ)
      → is_settled s cs p ≡ true
      → is_settled s (add_client s cs w) p ≡ true
  unfolding add_client
  add_client_keeps cs w p h = elim (Bool-cases (leb max_windows (length cs))) [
    | inl e ↦ rw (e, add_client) h
    | inr e ↦ rw (e, add_client) (stays_settled cs (find_client_window s w) p h)
  ]

  add_client_settles :
      (cs : List ClientItem) (w : ℕ)
      → is_settled s (add_client s cs w) (find_client_window s w) ≡ true
  unfolding add_client
  add_client_settles cs w = elim (Bool-cases (leb max_windows (length cs))) [
    | inl e ↦ rw (e, add_client) (full_settled cs (find_client_window s w) e)
    | inr e ↦ rw (e, add_client) (gets_settled cs (find_client_window s w))
  ]

  add_clients_keep :
      (ws : List ℕ) (cs : List ClientItem) (p : Option ℕ)
      → is_settled s cs p ≡ true
      → is_settled s (add_clients s cs ws) p ≡ true
  unfolding add_clients
  add_clients_keep [] cs p h = h
  add_clients_keep (w ∷ ws) cs p h = elim (Bool-cases (leb max_windows (length cs))) [
    | inl e ↦ rw (e, add_clients) h
    | inr e ↦
        rw (e, add_clients) (add_clients_keep ws (add_client s cs w) p (add_client_keeps cs w p h))
  ]

  add_clients_settle :
      (ws : List ℕ) (cs : List ClientItem) (w : ℕ)
      → elem w ws ≡ true
      → is_settled s (add_clients s cs ws) (find_client_window s w) ≡ true
  unfolding add_clients
  add_clients_settle [] cs w h = absurd (ground arith)
  add_clients_settle (v ∷ vs) cs w h = elim (Bool-cases (leb max_windows (length cs))) [
    | inl e ↦ rw (e, add_clients) (full_settled cs (find_client_window s w) e)
    | inr e ↦ elim (Bool-cases (v == w)) [
      | inl f ↦
          rw (e, add_clients)
            (add_clients_keep vs (add_client s cs v) (find_client_window s w) (
              subst (λ t. is_settled s (add_client s cs v) (find_client_window s t) ≡ true)
                ((==_iff v w).0 f) (add_client_settles cs v)))
      | inr f ↦ rw (e, add_clients) (add_clients_settle vs (add_client s cs v) w (rw f at h))
    ]
  ]

  children_keep :
      (cs : List ClientItem) (o : Option (List ℕ)) (p : Option ℕ)
      → is_settled s cs p ≡ true
      → is_settled s (add_children s cs o) p ≡ true
  unfolding add_children
  children_keep cs none p h = h
  children_keep cs (some ws) p h = add_clients_keep ws cs p h

  marked_settled :
      (cs : List ClientItem) (o p : Option ℕ)
      → is_settled s cs p ≡ true
      → is_settled s (mark_active o cs) p ≡ true
  marked_settled cs o none h = refl
  marked_settled cs o (some w) h = rw (wins-mark_active o cs, length-mark_active o cs) h

  -- A window of the server's client list is on the panel, by the window that it stands for, unless
  -- the panel has 128 windows already or the window is not to be shown.
  pub tasklist_update_clients_complete :
      (ws : List ℕ) (w : ℕ)
      → s.client_list ≡ some ws
      → elem w ws ≡ true
      → is_settled s (tasklist_update_clients s) (find_client_window s w) ≡ true
  unfolding tasklist_update_clients update_listed collect_clients append_clients_from_tree
  tasklist_update_clients_complete ws w e h = simp e (
      marked_settled (collect_clients s ws) s.active_window (find_client_window s w) (
        children_keep (add_clients s [] ws) s.root_children (find_client_window s w)
          (add_clients_settle ws [] w h)))
