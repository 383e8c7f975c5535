-- ===== src/Dock/Surfaces/Refine/Kept.antt =====
-- Every outcome of a lookup in the icon cache of the dock, the failed ones included, leaves the cache
-- valid and its surfaces accounted for.
use nizam.Prelude.{
  ℕ, ◌+◌, ◌<◌, ◌≡◌, ◌∙◌, refl, arith, List, [], ◌∷◌, Option, none, some, length, Bool-cases,
  Option-cases, inl, inr,
}
use nizam.Prelude.Int.{ℤ}
use nizam.Prelude.Members.{remove}
use nizam.Text.{Bytes}
use nizam.Dock.Surfaces.{u64, IconKey, HashTable, SurfaceCache}
use nizam.Dock.Surfaces.Name.{icon_normalize}
use nizam.Dock.Surfaces.Get.{
  Memory, Cache, key_of, load_icon_surface_fixed, make_room, give_up, store_surface, after_lookup,
  get_normalized, icon_cache_get,
}
use nizam.Dock.Surfaces.Lru.{room}
use nizam.Dock.Surfaces.Counts.{shows, times, times_shown, IsAccounted}
use nizam.Dock.Surfaces.Valid.{IsValid, view}
use nizam.Dock.Surfaces.Refine.Hit.{touch-IsValid, capacity-touch, touch-IsAccounted}
use nizam.Dock.Surfaces.Refine.Evict.{HasRoom, make_room-HasRoom}
use nizam.Dock.Surfaces.Refine.Add.{add-IsValid, view-add, capacity-add, loaded-add, destroyed-add}
use nizam.Dock.Surfaces.Refine.Counters.{
  IsFresh, hits-IsValid, misses-IsValid, loaded-IsValid, destroyed-IsValid, fresh_absent,
}

-- A valid cache of the same capacity, whose surfaces are accounted for, and what was answered.
abbrev pub IsKept : (H : HashTable) → Cache H → Cache H × Option ℕ → Type 0
IsKept H c (c', r) =
    ((order : List ℕ) × IsValid H c' order × IsAccounted c' order) × (c'.capacity ≡ c.capacity)

-- A surface was loaded that is neither in an entry nor destroyed; all others are accounted for.
abbrev IsPending : {T : Type 0} → SurfaceCache T → List ℕ → ℕ → Type 0
IsPending c order surface =
    (s : ℕ)
    → times s c.loaded
      ≡ shows s (some surface) + (times_shown s (view c.heap order) + times s c.destroyed)

module _ (H : HashTable) (m : Memory) (c : Cache H) (order : List ℕ) (v : IsValid H c order)
    (k : IconKey) where
  -- A surface that was loaded and is in no entry yet is put into one, or destroyed.
  store_surface-IsKept :
      (surface : ℕ)
      → IsPending c order surface
      → IsFresh H m.entry_at c.table
      → H.lookup k c.table ≡ none
      → IsKept H c (store_surface H m (make_room H c) k surface)
  unfolding store_surface
  store_surface-IsKept surface pending f missing =
      let (order', r) = make_room-HasRoom H c order v in
      elim (Bool-cases m.key_room) [
        | inr no_room ↦ rw no_room (given_up order' r)
        | inl room_given ↦ elim (Option-cases m.entry_at) [
          | inl nowhere ↦ rw (room_given, nowhere) (given_up order' r)
          | inr (p, at) ↦
              let left : length order' < room (make_room H c).capacity =
                rw r.same_capacity r.room_left in
              rw (room_given, at)
                (
                  (
                    p ∷ order',
                    add-IsValid H (make_room H c) k surface p order' r.valid
                        (r.free p (fresh_absent H c order v p (rw at at f))) left
                        (r.missing k missing),
                    λ s.
                        rw
                          (
                            loaded-add H (make_room H c) k surface p,
                            destroyed-add H (make_room H c) k surface p,
                            view-add H (make_room H c) k surface p order' r.valid
                                (r.free p (fresh_absent H c order v p (rw at at f))),
                            r.same_loaded,
                          )
                          (omega (arith, r.accounted s, pending s)),
                  ),
                  capacity-add H (make_room H c) k surface p ∙ r.same_capacity,
                )
        ]
      ]
    where
      given_up :
          (order' : List ℕ)
          → HasRoom H c (make_room H c) order order'
          → IsKept H c (give_up H (make_room H c) surface, none)
      given_up order' r = (
        (
          order',
          destroyed-IsValid H (make_room H c) order' r.valid (surface ∷ (make_room H c).destroyed),
          λ s. rw r.same_loaded (omega (arith, r.accounted s, pending s)),
        ),
        r.same_capacity,
      )

module _ (H : HashTable) (m : Memory) (c : Cache H) (order : List ℕ) (v : IsValid H c order)
    (a : IsAccounted c order) (k : IconKey) (f : IsFresh H m.entry_at c.table) where
  missed-IsKept :
      (load : Option ℕ) → H.lookup k c.table ≡ none → IsKept H c (after_lookup H m c k load none)
  unfolding after_lookup
  missed-IsKept none e = ((order, misses-IsValid H c order v (u64 (c.misses + 1)), a), refl)
  missed-IsKept (some surface) e =
      let c' = record c { misses = u64 (c.misses + 1) } in
      store_surface-IsKept H m (record c' { loaded = surface ∷ c.loaded }) order
        (loaded-IsValid H c' order (misses-IsValid H c order v (u64 (c.misses + 1)))
          (surface ∷ c.loaded))
        k surface (λ s. omega (arith, a s)) f e

  found-IsKept :
      (load : Option ℕ) (i : ℕ)
      → H.lookup k c.table ≡ some i
      → IsKept H c (after_lookup H m c k load (some i))
  unfolding after_lookup
  found-IsKept load i e = (
    (
      i ∷ remove i order,
      touch-IsValid H (record c { hits = u64 (c.hits + 1) }) order
          (hits-IsValid H c order v (u64 (c.hits + 1))) i (v.only k i e).0,
      touch-IsAccounted H (record c { hits = u64 (c.hits + 1) }) order
          (hits-IsValid H c order v (u64 (c.hits + 1))) i (v.only k i e).0 a,
    ),
    capacity-touch H (record c { hits = u64 (c.hits + 1) }) i,
  )

  after_lookup-IsKept :
      (load : Option ℕ) → IsKept H c (after_lookup H m c k load (H.lookup k c.table))
  after_lookup-IsKept load = elim (Option-cases (H.lookup k c.table)) [
    | inl e ↦ rw e (missed-IsKept load e)
    | inr (i, e) ↦ rw e (found-IsKept load i e)
  ]

module _ (H : HashTable) (m : Memory) (resolve : Bytes → Option Bytes)
    (decode : Bytes → ℤ → Option ℕ) (c : Cache H) (name : Bytes) (order : List ℕ)
    (v : IsValid H c order) where
  normalized-IsKept :
      (load : Option ℕ) (norm : Bytes)
      → IsAccounted c order
      → IsFresh H m.entry_at c.table
      → IsKept H c (get_normalized H m c load norm)
  normalized-IsKept load [] a f = ((order, v, a), refl)
  normalized-IsKept load (x ∷ norm) a f =
      after_lookup-IsKept H m c order v a (key_of H c (x ∷ norm)) f load

  -- Whatever the name is, whether the icon can be loaded, and whether memory is given for the key
  -- and for the entry, `nizam_dock_icon_cache_get` leaves a valid cache of the same capacity, in
  -- which no key is mapped without its entry, and in which each surface was loaded as often as it is
  -- in an entry or was destroyed, where that held before: also a failure behind an eviction destroys
  -- the surface that was loaded, and the one that was evicted. Memory that is given is not that of
  -- an entry the table maps to.
  pub icon_cache_get-IsKept :
      IsAccounted c order
      → IsFresh H m.entry_at c.table
      → IsKept H c (icon_cache_get H m resolve decode c name)
  unfolding icon_cache_get
  icon_cache_get-IsKept a f =
      normalized-IsKept (load_icon_surface_fixed resolve decode name c.icon_px c.scale)
        (icon_normalize name 256) a f
