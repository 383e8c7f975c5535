-- ===== src/Dock/Notifier/Registry/Lists.antt =====
-- What a registration does to the services that are listed.
use mathlib.Core.List.{Mem, mem-cons_self, mem-cons_of_mem}
use mathlib.Core.Path.{subst}
use nizam.Prelude.{
  refl, ◌≢◌, ◌==◌, ==_iff, Bool-cases, take, ℕ, zero, suc, ◌≡◌, ◌∙◌, sym, ap, true, List, [], ◌∷◌,
  ◌++◌, arith, none, some, get_elem?, get_or, Option-cases, inl, inr, ◌⊎◌,
}
use nizam.Text.{Bytes, fit, str_eq}
use nizam.Text.Equal.{eq_of_str_eq}
use nizam.Dock.Notifier.Item.{Item, zero_item, Bus}
use nizam.Dock.Notifier.Refresh.{Desk, refresh_item}
use nizam.Dock.Notifier.Registry.{
  Sni, ensure_capacity, find_by_service, owner_of, registered_name, register_at, register_item,
}
use nizam.Dock.Notifier.Registry.Names.{refresh_item-SameName}
use nizam.Dock.Notifier.Registry.Keeps.{items-refresh, appended_services}
use nizam.Dock.Notifier.Registry.Services.{services, find_item-some, absent, services-set}

listed : (l : List Item) (i : ℕ) (v : Item) → get_elem? l i ≡ some v → Mem v.service (services l)
listed [] i v e = absurd (ground arith)
listed (x ∷ l) zero v e =
    let same : x ≡ v = ground arith in
    subst (λ t. Mem t (services (x ∷ l))) (ap (λ (j : Item). j.service) same) mem-cons_self
listed (x ∷ l) (suc i) v e = mem-cons_of_mem x.service (listed l i v e)

-- Either the service is new and comes last, or it is listed and all services stay.
abbrev pub IsListed : Bytes → List Item → List Item → Type 0
IsListed service l l' =
    ((¬ Mem service (services l)) × (services l' ≡ services l ++ service ∷ []))
    ⊎ (Mem service (services l) × (services l' ≡ services l))

grown :
    (s : Sni) → ((ensure_capacity true s).1 ≡ true) × ((ensure_capacity true s).0.items ≡ s.items)
unfolding ensure_capacity
grown s = (ground arith, ground arith)

module _ (d : Desk) (bus : Bus) (s : Sni) (service owner path : Bytes) where
  new_listed :
      services (register_at d bus true s service owner path none).items
      ≡ services s.items ++ service ∷ []
  unfolding register_at
  new_listed =
      let (room_given, same) = grown s in
      let x = record zero_item { service = service; owner = owner; path = fit 256 path } in
      rw room_given (
        appended_services d bus (ensure_capacity true s).0 x
        ∙ ap (λ l. services l ++ service ∷ []) same)

  old_listed :
      (i : ℕ)
      → services (register_at d bus true s service owner path (some i)).items ≡ services s.items
  unfolding register_at
  old_listed i =
      let x = record (get_or s.items i zero_item) { owner = owner; path = fit 256 path } in
      ap services (items-refresh d bus s i x)
      ∙ services-set s.items i (refresh_item d bus x).0 (sym (refresh_item-SameName d bus x).0)

  register_at-IsListed :
      IsListed service s.items
        (register_at d bus true s service owner path (find_by_service s.items service)).items
  register_at-IsListed = elim (Option-cases (find_by_service s.items service)) [
    | inl e ↦ inl (absent service s.items e, rw e new_listed)
    | inr (i, e) ↦ inr (known i e, rw e (old_listed i))
  ]
    where
      known : (i : ℕ) → find_by_service s.items service ≡ some i → Mem service (services s.items)
      known i e =
          let (v, at, t) =
            find_item-some (λ j. str_eq j.service service) s.items i
              (unfold find_by_service in e) in
          subst (λ t. Mem t (services s.items)) (eq_of_str_eq v.service service t)
            (listed s.items i v at)

-- The service that an application registers: the argument, or the sender where the argument is a
-- path or is missing.
abbrev pub Registered : Bytes → Bytes → Bytes → Type 0
Registered sender arg service =
    (((arg ≡ []) ⊎ ((rest : Bytes) × (arg ≡ b'/' ∷ rest))) × (service ≡ take 127 sender))
    ⊎ ((c : ℕ) × (rest : Bytes) × (arg ≡ c ∷ rest) × (c ≢ b'/') × (service ≡ take 127 arg))

registered : (sender arg : Bytes) → Registered sender arg (registered_name sender arg).0
unfolding registered_name
registered sender [] = inl (inl refl, refl)
registered sender (c ∷ arg) = elim (Bool-cases (c == b'/')) [
  | inl e ↦
      let slash : c ≡ b'/' = (==_iff c b'/').0 e in
      rw e (inl (inr (arg, ap (λ t. t ∷ arg) slash), refl))
  | inr e ↦ rw e (inr (c, arg, refl, ground arith, refl))
]

-- Where memory is given, a registration is one of a service, cut to 127 bytes: of the sender where
-- the argument is a path or is missing, else of the argument. A service that is listed stays where
-- it is with all others, another one is listed behind the others.
pub register_item-IsListed :
    (d : Desk) (bus : Bus) (s : Sni) (sender arg : Bytes)
    → (service : Bytes) × Registered sender arg service
      × IsListed service s.items (register_item d bus true s sender arg).items
unfolding register_item
register_item-IsListed d bus s sender arg =
    let (service, path) = registered_name sender arg in
    (
      service,
      registered sender arg,
      register_at-IsListed d bus s service (owner_of bus service sender) path,
    )
