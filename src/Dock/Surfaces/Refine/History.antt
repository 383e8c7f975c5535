-- ===== src/Dock/Surfaces/Refine/History.antt =====
-- Every icon cache that the dock can have: its size and its surfaces, and that clearing it ends.
use mathlib.Core.Path.{subst}
use mathlib.Core.Option.{some-injective}
use nizam.Prelude.{
  ℕ, zero, suc, ◌≤◌, ◌≡◌, ◌∙◌, refl, sym, ap, true, List, [], ◌∷◌, arith, Option, none, some,
  length, ==_refl,
}
use nizam.Prelude.Int.{ℤ}
use nizam.Prelude.Members.{elem}
use nizam.Text.{Bytes}
use nizam.Panel.IconCache.Links.{first, Nexts}
use nizam.Dock.Surfaces.{u64, IconKey, HashTable, SurfaceCache, clear_loop, icon_entry_destroy}
use nizam.Dock.Surfaces.Get.{Memory, Cache, icon_cache_new, icon_cache_clear, icon_cache_get}
use nizam.Dock.Surfaces.Links.{place}
use nizam.Dock.Surfaces.Lru.{room}
use nizam.Dock.Surfaces.Counts.{times, IsAccounted, destroy_all, times-destroy_all}
use nizam.Dock.Surfaces.Valid.{IsValid, view}
use nizam.Dock.Surfaces.Refine.Counters.{IsFresh}
use nizam.Dock.Surfaces.Refine.Kept.{icon_cache_get-IsKept}

-- The caches that calls from the creation on can lead to.
pub data Reach (H : HashTable) : Cache H → Type 0 where
  created :
      (capacity icon_px scale : ℤ) {c : Cache H}
      → c ≡ icon_cache_new H capacity icon_px scale
      → Reach H c
  asked :
      (m : Memory) (resolve : Bytes → Option Bytes) (decode : Bytes → ℤ → Option ℕ) (name : Bytes)
      {b c : Cache H}
      → Reach H b
      → IsFresh H m.entry_at b.table
      → c ≡ (icon_cache_get H m resolve decode b name).0
      → Reach H c
  cleared : {b c : Cache H} → Reach H b → icon_cache_clear H b ≡ some c → Reach H c

pub new-IsValid :
    (H : HashTable) (capacity icon_px scale : ℤ)
    → IsValid H (icon_cache_new H capacity icon_px scale) []
unfolding icon_cache_new
new-IsValid H capacity icon_px scale = record {
  linked = record { distinct = tt; nexts = tt; prevs = tt; head_is = refl; tail_is = refl };
  size_is = refl;
  alive_is = refl;
  bounded = omega arith;
  mapped = λ p e. absurd (ground arith);
  only = λ k p e. absurd (ground (arith, H.lookup-empty k));
  shown = λ p e. absurd (ground arith);
}

pub new-IsAccounted :
    (H : HashTable) (capacity icon_px scale : ℤ)
    → IsAccounted (icon_cache_new H capacity icon_px scale) []
unfolding icon_cache_new view
new-IsAccounted H capacity icon_px scale s = refl

-- The walk along the links destroys every surface.
clear_loop_lem :
    {T : Type 0} (l : List ℕ) (fuel : ℕ) (c : SurfaceCache T)
    → length l ≤ fuel
    → Nexts (λ p. place (c.heap p)) l
    → ((p : ℕ) → elem p l ≡ true → (s : ℕ) × ((c.heap p).surface ≡ some s))
    → c.alive_surfaces ≡ u64 (length l)
    → clear_loop fuel (first l) c
      ≡ some (record c { alive_surfaces = 0; destroyed = destroy_all c.heap l c.destroyed })
unfolding clear_loop icon_entry_destroy
clear_loop_lem [] zero c b n s a = λ i. some (record c { alive_surfaces = a i })
clear_loop_lem [] (suc fuel) c b n s a = λ i. some (record c { alive_surfaces = a i })
clear_loop_lem (p ∷ l) zero c b n s a = absurd (omega arith)
clear_loop_lem (p ∷ l) (suc fuel) c b n s a =
    let (surface, e) = s p (rw (==_refl p)) in
    let fewer : (icon_entry_destroy c p).alive_surfaces ≡ u64 (length l) =
      rw (e, a) (omega arith) in
    rw n.0 (
      clear_loop_lem l fuel (icon_entry_destroy c p) (omega arith) n.1 (λ q f. s q (ground arith))
        fewer)

module _ (H : HashTable) where
  -- What clearing leaves of a cache with these entries.
  abbrev emptied : Cache H → List ℕ → Cache H
  emptied c order = record c {
    alive_surfaces = 0;
    head = none;
    tail = none;
    size = 0;
    table = H.empty;
    destroyed = destroy_all c.heap order c.destroyed;
  }

  cleared-IsValid : (c : Cache H) (order : List ℕ) → IsValid H (emptied c order) []
  cleared-IsValid c order = record {
    linked = record { distinct = tt; nexts = tt; prevs = tt; head_is = refl; tail_is = refl };
    size_is = refl;
    alive_is = refl;
    bounded = omega arith;
    mapped = λ p e. absurd (ground arith);
    only = λ k p e. absurd (ground (arith, H.lookup-empty k));
    shown = λ p e. absurd (ground arith);
  }

  clear_lem :
      (c : Cache H) (order : List ℕ)
      → IsValid H c order
      → icon_cache_clear H c ≡ some (emptied c order)
  unfolding icon_cache_clear
  clear_lem c order v =
      let gone = record c {
        alive_surfaces = 0;
        destroyed = destroy_all c.heap order c.destroyed;
      } in
      let walked : clear_loop c.size c.head c ≡ some gone =
        subst (λ o. clear_loop c.size o c ≡ some gone) (sym v.linked.head_is)
          (clear_loop_lem order c.size c (omega (arith, v.size_is)) v.linked.nexts v.shown
            v.alive_is) in
      rw walked refl

  -- Every surface of the entries is destroyed.
  cleared-IsAccounted :
      (c : Cache H) (order : List ℕ) → IsAccounted c order → IsAccounted (emptied c order) []
  unfolding view
  cleared-IsAccounted c order a s = omega (arith, a s, times-destroy_all s c.heap order c.destroyed)

  pub Reach-IsValid :
      {c : Cache H} → Reach H c → (order : List ℕ) × IsValid H c order × IsAccounted c order
  Reach-IsValid (created capacity icon_px scale e) =
      subst (λ c. (order : List ℕ) × IsValid H c order × IsAccounted c order) (sym e)
        ([], new-IsValid H capacity icon_px scale, new-IsAccounted H capacity icon_px scale)
  Reach-IsValid (asked m resolve decode name {b} r f e) =
      let (order, v, a) = Reach-IsValid r in
      subst (λ c. (order : List ℕ) × IsValid H c order × IsAccounted c order) (sym e)
        (icon_cache_get-IsKept H m resolve decode b name order v a f).0
  Reach-IsValid (cleared {b} {c} r e) =
      let (order, v, a) = Reach-IsValid r in
      let same : emptied b order ≡ c =
        some-injective (emptied b order) c (sym (clear_lem b order v) ∙ e) in
      subst (λ c. (order : List ℕ) × IsValid H c order × IsAccounted c order) same
        ([], cleared-IsValid b order, cleared-IsAccounted b order a)

  -- In every cache that calls can lead to, `size` is at most the capacity, or 1 where the capacity
  -- is lower, the surfaces that are counted as alive are as many as the entries, and, for the valid
  -- order of the entries, each surface was given by the loader as often as it is in an entry or was
  -- passed to `cairo_surface_destroy`: none is lost, and none is destroyed while an entry has it or
  -- more often than it was given.
  pub Reach-bounded :
      {c : Cache H}
      → Reach H c
      → (c.size ≤ room c.capacity)
        × (c.alive_surfaces ≡ u64 c.size)
        × (order : List ℕ) × IsValid H c order
        × IsAccounted c order
  Reach-bounded r =
      let (order, v, a) = Reach-IsValid r in
      (omega (arith, v.size_is, v.bounded), v.alive_is ∙ ap u64 (sym v.size_is), order, v, a)

  -- Clearing a cache that calls can lead to ends, within as many rounds as `size` counts, and leaves
  -- no entry, no surface alive and a table that maps no key; each surface that the loader ever gave
  -- was then destroyed as often as it was given.
  pub icon_cache_clear_ends :
      {c : Cache H}
      → Reach H c
      → (c' : Cache H) × (icon_cache_clear H c ≡ some c')
        × (c'.size ≡ 0)
        × (c'.alive_surfaces ≡ 0)
        × ((k : IconKey) → H.lookup k c'.table ≡ none)
        × ((s : ℕ) → times s c'.loaded ≡ times s c'.destroyed)
  icon_cache_clear_ends {c} r =
      let (order, v, a) = Reach-IsValid r in
      (
        emptied c order,
        clear_lem c order v,
        refl,
        refl,
        λ k. H.lookup-empty k,
        λ s. omega (arith, a s, times-destroy_all s c.heap order c.destroyed),
      )
