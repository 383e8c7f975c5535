-- ===== src/Dock/Surfaces/Refine/Get.antt =====
-- A lookup in the icon cache of the dock is a lookup in a list of icons.
use nizam.Prelude.{
  ℕ, ◌+◌, ◌<◌, ◌≡◌, ◌≢◌, ◌∙◌, refl, ap, true, List, [], ◌∷◌, Option, none, some, length,
  Option-cases, inl, inr,
}
use nizam.Prelude.Int.{ℤ}
use nizam.Prelude.Members.{elem, remove}
use nizam.Text.{Bytes}
use nizam.Dock.Surfaces.{u64, IconKey, HashTable}
use nizam.Dock.Surfaces.Name.{icon_normalize}
use nizam.Dock.Surfaces.Get.{
  Memory, Cache, key_of, load_icon_surface_fixed, make_room, store_surface, cache_loaded,
  after_lookup, get_normalized, icon_cache_get,
}
use nizam.Dock.Surfaces.Lru.{Cached, room, spec_store, spec_get}
use nizam.Dock.Surfaces.Valid.{IsValid, view}
use nizam.Dock.Surfaces.Refine.Hit.{
  key_of_found, no_key_of_missing, find-view, drop_key-view, find-view-none, touch-IsValid,
  view-touch,
}
use nizam.Dock.Surfaces.Refine.Evict.{make_room-HasRoom}
use nizam.Dock.Surfaces.Refine.Add.{add-IsValid, view-add}
use nizam.Dock.Surfaces.Refine.Counters.{
  IsFresh, hits-IsValid, misses-IsValid, loaded-IsValid, fresh_absent,
}

-- The cache holds the list, and the answer is the same.
abbrev pub Holds : (H : HashTable) → List Cached × Option ℕ → Cache H × Option ℕ → Type 0
Holds H (l, r) (c, r') = ((order : List ℕ) × IsValid H c order × (view c.heap order ≡ l)) × (r' ≡ r)

module _ (H : HashTable) (c : Cache H) (order : List ℕ) (v : IsValid H c order) where
  -- What is found moves to the front.
  hit-Holds :
      (m : Memory) (k : IconKey) (load : Option ℕ) (i : ℕ)
      → H.lookup k c.table ≡ some i
      → Holds H
          (spec_get c.capacity k load (view c.heap order))
          (after_lookup H m c k load (some i))
  unfolding spec_get after_lookup
  hit-Holds m k load i e =
      let c' = record c { hits = u64 (c.hits + 1) } in
      let inside = (v.only k i e).0 in
      let same = λ (j : ℕ) (g : elem j order ≡ true). key_of_found H c order v k i j e g in
      rw (find-view c.heap k i order same inside, drop_key-view c.heap k i order same)
        (
          (
            i ∷ remove i order,
            touch-IsValid H c' order (hits-IsValid H c order v (u64 (c.hits + 1))) i inside,
            view-touch H c' order (hits-IsValid H c order v (u64 (c.hits + 1))) i inside,
          ),
          refl,
        )

  -- What is missing is loaded, and stored in front where there is room for it.
  stored-Holds :
      (m : Memory) (k : IconKey) (surface p : ℕ)
      → m.key_room ≡ true
      → m.entry_at ≡ some p
      → IsFresh H (some p) c.table
      → H.lookup k c.table ≡ none
      → Holds H
          (spec_store c.capacity k (some surface) (view c.heap order))
          (store_surface H m (make_room H c) k surface)
  unfolding store_surface
  stored-Holds m k surface p room_given at f missing =
      let (order', r) = make_room-HasRoom H c order v in
      let absent = r.free p (fresh_absent H c order v p f) in
      let left : length order' < room (make_room H c).capacity = rw r.same_capacity r.room_left in
      rw (room_given, at)
        (
          (
            p ∷ order',
            add-IsValid H (make_room H c) k surface p order' r.valid absent left
                (r.missing k missing),
            view-add H (make_room H c) k surface p order' r.valid absent
                ∙ ap (λ t. record { key = k; surface = some surface } ∷ t) r.kept,
          ),
          refl,
        )

module _ (H : HashTable) (m : Memory) (c : Cache H) (order : List ℕ) (v : IsValid H c order)
    (k : IconKey) where
  loaded-Holds :
      (load : Option ℕ) (p : ℕ)
      → m.key_room ≡ true
      → m.entry_at ≡ some p
      → IsFresh H (some p) c.table
      → H.lookup k c.table ≡ none
      → Holds H (spec_store c.capacity k load (view c.heap order)) (cache_loaded H m c k load)
  loaded-Holds none p room_given at f missing = ((order, v, refl), refl)
  loaded-Holds (some surface) p room_given at f missing =
      stored-Holds H (record c { loaded = surface ∷ c.loaded }) order
        (loaded-IsValid H c order v (surface ∷ c.loaded)) m k surface p room_given at f missing

module _ (H : HashTable) (m : Memory) (c : Cache H) (order : List ℕ) (v : IsValid H c order)
    (k : IconKey) (load : Option ℕ) where
  missed-Holds :
      (p : ℕ)
      → m.key_room ≡ true
      → m.entry_at ≡ some p
      → IsFresh H (some p) c.table
      → H.lookup k c.table ≡ none
      → Holds H (spec_get c.capacity k load (view c.heap order)) (after_lookup H m c k load none)
  unfolding after_lookup spec_get
  missed-Holds p room_given at f e =
      rw (find-view-none c.heap k order (λ j g. no_key_of_missing H c order v k j e g)) (
        loaded-Holds H m (record c { misses = u64 (c.misses + 1) }) order
          (misses-IsValid H c order v (u64 (c.misses + 1))) k load p room_given at f e)

  -- Both branches of the lookup.
  after_lookup-Holds :
      (p : ℕ)
      → m.key_room ≡ true
      → m.entry_at ≡ some p
      → IsFresh H (some p) c.table
      → Holds H
          (spec_get c.capacity k load (view c.heap order))
          (after_lookup H m c k load (H.lookup k c.table))
  after_lookup-Holds p room_given at f = elim (Option-cases (H.lookup k c.table)) [
    | inr (i, e) ↦ rw e (hit-Holds H c order v m k load i e)
    | inl e ↦ rw e (missed-Holds p room_given at f e)
  ]

module _ (H : HashTable) (m : Memory) (resolve : Bytes → Option Bytes)
    (decode : Bytes → ℤ → Option ℕ) (c : Cache H) (name : Bytes) (order : List ℕ)
    (v : IsValid H c order) where
  normalized-Holds :
      (load : Option ℕ) (norm : Bytes) (p : ℕ)
      → norm ≢ []
      → m.key_room ≡ true
      → m.entry_at ≡ some p
      → IsFresh H (some p) c.table
      → Holds H
          (spec_get c.capacity (key_of H c norm) load (view c.heap order))
          (get_normalized H m c load norm)
  normalized-Holds load [] p named room_given at f = absurd (named refl)
  normalized-Holds load (x ∷ norm) p named room_given at f =
      after_lookup-Holds H m c order v (key_of H c (x ∷ norm)) load p room_given at f

  -- For a name that is not normalized to the empty string, and where memory is given that the table
  -- does not map to, `nizam_dock_icon_cache_get` does on the list of icons, most recently used
  -- first, what the specification does: what is cached under the key is returned and moves to the
  -- front, what is not is loaded, and if that succeeds comes first, with as many of the others
  -- behind it as the capacity lets. The cache that is left is valid for the new list.
  pub icon_cache_get_refines :
      (p : ℕ)
      → icon_normalize name 256 ≢ []
      → m.key_room ≡ true
      → m.entry_at ≡ some p
      → IsFresh H (some p) c.table
      → Holds H
          (spec_get c.capacity
            (key_of H c (icon_normalize name 256))
            (load_icon_surface_fixed resolve decode name c.icon_px c.scale)
            (view c.heap order))
          (icon_cache_get H m resolve decode c name)
  unfolding icon_cache_get
  icon_cache_get_refines p named room_given at f =
      normalized-Holds (load_icon_surface_fixed resolve decode name c.icon_px c.scale)
        (icon_normalize name 256) p named room_given at f
