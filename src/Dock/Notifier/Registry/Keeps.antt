-- ===== src/Dock/Notifier/Registry/Keeps.antt =====
-- The list of status notifier items: what every message keeps, and what a registration and the loss
-- of an owner do.
use mathlib.Core.List.{Mem, Perm, Nodup, Nodup-cons, perm_middle}
use mathlib.Core.List.Perm
use mathlib.Core.Path.{subst}
use nizam.Prelude.{
  ℕ, suc, ◌-◌, ◌≤◌, ◌≡◌, ◌∙◌, refl, sym, ap, Bool, true, false, List, [], ◌∷◌, ◌++◌, append-nil,
  arith, Option, none, some, length, length-append, length-set, length-take, get_or, set,
  Bool-cases, Option-cases, inl, inr,
}
use nizam.Text.{Bytes, fit, str_eq}
use nizam.Dock.Notifier.Item.{Item, zero_item, Bus}
use nizam.Dock.Notifier.Refresh.{Desk, refresh_item}
use nizam.Dock.Notifier.Registry.{
  Sni, set_dirty, ensure_capacity, find_by_owner, find_by_service, remove_at, remove_by_owner,
  owner_of, registered_name, mark_if, refresh_at, register_at, register_item, Message, register,
  name_owner_changed, item_changed, query, refresh_found, owner_changed, handle_message, dispatch,
}
use nizam.Dock.Notifier.Registry.Names.{refresh_item-SameName}
use nizam.Dock.Notifier.Registry.Services.{
  services, IsRegistry, IsFirst, find_item-IsFirst, absent, services-set, set-append_last,
  services-append,
}
use nizam.Dock.Notifier.Registry.Removal.{remove_at-perm}

items-mark : (b : Bool) (s : Sni) → (mark_if b s).items ≡ s.items
unfolding set_dirty
items-mark true s = refl
items-mark false s = refl

cap-mark : (b : Bool) (s : Sni) → (mark_if b s).cap ≡ s.cap
unfolding set_dirty
cap-mark true s = refl
cap-mark false s = refl

module _ (d : Desk) (bus : Bus) where
  pub items-refresh :
      (s : Sni) (k : ℕ) (x : Item)
      → (refresh_at d bus s k x).items ≡ set s.items k (refresh_item d bus x).0
  unfolding refresh_at
  items-refresh s k x =
      items-mark (refresh_item d bus x).1
        (record s { items = set s.items k (refresh_item d bus x).0 })

  cap-refresh : (s : Sni) (k : ℕ) (x : Item) → (refresh_at d bus s k x).cap ≡ s.cap
  unfolding refresh_at
  cap-refresh s k x =
      cap-mark (refresh_item d bus x).1
        (record s { items = set s.items k (refresh_item d bus x).0 })

  refresh-IsRegistry :
      (s : Sni) (k : ℕ) (x : Item)
      → IsRegistry s
      → (get_or s.items k zero_item).service ≡ x.service
      → IsRegistry (refresh_at d bus s k x)
  refresh-IsRegistry s k x v e =
      let y = (refresh_item d bus x).0 in
      let same : (get_or s.items k zero_item).service ≡ y.service =
        e ∙ sym (refresh_item-SameName d bus x).0 in
      record {
        within =
            rw (items-refresh s k x, cap-refresh s k x)
              (omega (arith, length-set s.items k y, v.within));
        distinct =
            subst Nodup (sym (ap services (items-refresh s k x) ∙ services-set s.items k y same))
              v.distinct;
      }

  pub appended_services :
      (s : Sni) (x : Item)
      → services
          (refresh_at d bus
            (record s { items = s.items ++ zero_item ∷ [] })
            (length s.items)
            x).items
        ≡ services s.items ++ x.service ∷ []
  appended_services s x =
      let y = (refresh_item d bus x).0 in
      ap services (
        items-refresh (record s { items = s.items ++ zero_item ∷ [] }) (length s.items) x
        ∙ set-append_last s.items zero_item y)
      ∙ services-append s.items y
      ∙ ap (λ t. services s.items ++ t ∷ []) (refresh_item-SameName d bus x).0

  append-IsRegistry :
      (s : Sni) (x : Item)
      → Nodup (services s.items)
      → suc (length s.items) ≤ s.cap
      → ¬ Mem x.service (services s.items)
      → IsRegistry
          (refresh_at d bus (record s { items = s.items ++ zero_item ∷ [] }) (length s.items) x)
  append-IsRegistry s x v room_given new =
      let s' = record s { items = s.items ++ zero_item ∷ [] } in
      let y = (refresh_item d bus x).0 in
      let last_first : Perm (x.service ∷ services s.items) (services s.items ++ x.service ∷ []) =
        Perm.trans
          (subst (λ t. Perm (x.service ∷ services s.items) (x.service ∷ t))
            (sym (append-nil (services s.items))) (Perm.refl (x.service ∷ services s.items)))
          (Perm.symm (perm_middle (services s.items) [])) in
      record {
        within =
            rw (items-refresh s' (length s.items) x, cap-refresh s' (length s.items) x)
              (omega (
                arith,
                length-set s'.items (length s.items) y,
                length-append s.items (zero_item ∷ []),
                room_given,
              ));
        distinct =
            subst Nodup (sym (appended_services s x))
              (Perm.nodup last_first (Nodup-cons.1 (new, v)));
      }

  -- `sni_ensure_capacity` gives room for one more item where it succeeds.
  ensured :
      (grows : Bool) (s : Sni)
      → length s.items ≤ s.cap
      → (ensure_capacity grows s).1 ≡ true
      → (suc (length s.items) ≤ (ensure_capacity grows s).0.cap)
        × ((ensure_capacity grows s).0.items ≡ s.items)
  unfolding ensure_capacity
  ensured grows s b e = (ground arith, ground arith)

  not_ensured :
      (grows : Bool) (s : Sni)
      → (ensure_capacity grows s).1 ≡ false
      → (ensure_capacity grows s).0 ≡ s
  unfolding ensure_capacity
  not_ensured grows s e = ground arith

  register_new :
      (grows : Bool) (s : Sni) (service owner path : Bytes)
      → IsRegistry s
      → find_by_service s.items service ≡ none
      → IsRegistry (register_at d bus grows s service owner path none)
  unfolding register_at
  register_new grows s service owner path v e = elim (Bool-cases (ensure_capacity grows s).1) [
    | inl f ↦
        let s' = (ensure_capacity grows s).0 in
        let (more, same) = ensured grows s v.within f in
        rw f (
          append-IsRegistry s'
            (record zero_item { service = service; owner = owner; path = fit 256 path })
            (subst (λ l. Nodup (services l)) (sym same) v.distinct) (rw same more)
            (subst (λ l. ¬ Mem service (services l)) (sym same) (absent service s.items e)))
    | inr f ↦ rw f (subst IsRegistry (sym (not_ensured grows s f)) v)
  ]

  register_at-IsRegistry :
      (grows : Bool) (s : Sni) (service owner path : Bytes)
      → IsRegistry s
      → IsRegistry (register_at d bus grows s service owner path (find_by_service s.items service))
  register_at-IsRegistry grows s service owner path v =
      elim (Option-cases (find_by_service s.items service)) [
        | inl e ↦ rw e (register_new grows s service owner path v e)
        | inr (i, e) ↦ rw e (
            unfold register_at in
            refresh-IsRegistry s i
              (record (get_or s.items i zero_item) { owner = owner; path = fit 256 path }) v refl)
      ]

  register_item-IsRegistry :
      (grows : Bool) (s : Sni) (sender arg : Bytes)
      → IsRegistry s
      → IsRegistry (register_item d bus grows s sender arg)
  unfolding register_item
  register_item-IsRegistry grows s sender arg v =
      let (service, path) = registered_name sender arg in
      register_at-IsRegistry grows s service (owner_of bus service sender) path v

  refresh_found-IsRegistry :
      (s : Sni) (o : Option ℕ) → IsRegistry s → IsRegistry (refresh_found d bus s o)
  refresh_found-IsRegistry s none v = v
  refresh_found-IsRegistry s (some i) v = refresh-IsRegistry s i (get_or s.items i zero_item) v refl

length-remove_at : (l : List Item) (i : ℕ) → length (remove_at l i) ≤ length l
unfolding remove_at
length-remove_at l i =
    let v = get_or l (length l - 1) zero_item in
    omega (arith, length-take (length l - 1) (set l i v), length-set l i v)

-- The items that are left are, in some order, all items but one: the first that has the owner. The
-- list is dirty then.
pub remove_by_owner-perm :
    (s : Sni) (owner : Bytes) (i : ℕ)
    → find_by_owner s.items owner ≡ some i
    → (v : Item) × IsFirst (λ j. str_eq j.owner owner) s.items v
      × Perm (v ∷ (remove_by_owner s owner).items) s.items
      × ((remove_by_owner s owner).dirty ≡ true)
unfolding remove_by_owner find_by_owner set_dirty
remove_by_owner-perm s owner i e =
    let (v, at, first) = find_item-IsFirst (λ j. str_eq j.owner owner) s.items i e in
    (v, first, rw e (remove_at-perm s.items i v at), rw e refl)

remove_by_owner-IsRegistry :
    (s : Sni) (owner : Bytes) → IsRegistry s → IsRegistry (remove_by_owner s owner)
remove_by_owner-IsRegistry s owner v = elim (Option-cases (find_by_owner s.items owner)) [
  | inl e ↦ subst IsRegistry (sym (nothing_removed e)) v
  | inr (i, e) ↦
      let (x, t, p, dirty) = remove_by_owner-perm s owner i e in
      record {
        within = within_removed i e;
        distinct =
            (Nodup-cons.0
              (Perm.nodup (Perm.symm (Perm.map (λ (j : Item). j.service) p)) v.distinct)).1;
      }
]
  where
    nothing_removed : find_by_owner s.items owner ≡ none → remove_by_owner s owner ≡ s
    nothing_removed e = unfold remove_by_owner in rw e

    within_removed :
        (i : ℕ)
        → find_by_owner s.items owner ≡ some i
        → length (remove_by_owner s owner).items ≤ (remove_by_owner s owner).cap
    within_removed i e =
        unfold remove_by_owner set_dirty in
        rw e (omega (arith, length-remove_at s.items i, v.within))

owner_changed-IsRegistry :
    (s : Sni) (old_owner new_owner : Bytes)
    → IsRegistry s
    → IsRegistry (owner_changed s old_owner new_owner)
unfolding owner_changed
owner_changed-IsRegistry s [] new_owner v = v
owner_changed-IsRegistry s (c ∷ old_owner) [] v = remove_by_owner-IsRegistry s (c ∷ old_owner) v
owner_changed-IsRegistry s (c ∷ old_owner) (x ∷ new_owner) v = v

pub handle_message-IsRegistry :
    (d : Desk) (bus : Bus) (grows : Bool) (s : Sni) (m : Message)
    → IsRegistry s
    → IsRegistry (handle_message d bus grows s m)
unfolding handle_message
handle_message-IsRegistry d bus grows s (register sender arg) v =
    register_item-IsRegistry d bus grows s sender arg v
handle_message-IsRegistry d bus grows s (name_owner_changed name old_owner new_owner) v =
    owner_changed-IsRegistry s old_owner new_owner v
handle_message-IsRegistry d bus grows s (item_changed sender) v =
    refresh_found-IsRegistry d bus s (find_by_owner s.items sender) v
handle_message-IsRegistry d bus grows s query v = v

-- Whatever messages come and whatever the bus and `realloc` answer, no service is listed twice, and
-- the items fit the memory that is counted for them.
pub dispatch-IsRegistry :
    (d : Desk) (s : Sni) (messages : List (Bus × Bool × Message))
    → IsRegistry s
    → IsRegistry (dispatch d s messages)
unfolding dispatch
dispatch-IsRegistry d s [] v = v
dispatch-IsRegistry d s ((bus, grows, m) ∷ messages) v =
    dispatch-IsRegistry d (handle_message d bus grows s m) messages
      (handle_message-IsRegistry d bus grows s m v)
