-- ===== src/Panel/IconCache/History.antt =====
-- The icon cache over the whole life of the panel: any number of icons loaded from its start on.
use nizam.Prelude.{
  ℕ, ◌≤◌, ◌≡◌, ◌∙◌, refl, ap, true, List, [], ◌∷◌, if◌then◌else◌, Option, none, some, length,
  Bool-cases, inl, inr,
}
use nizam.Text.{Bytes}
use nizam.Panel.IconCache.{cap, IconCache, icon_cache_init}
use nizam.Panel.IconCache.Search.{
  uncached_name, icon_cache_lookup, icon_cache_insert, insert_loaded, after_lookup,
  load_icon_from_name,
}
use nizam.Panel.IconCache.Lru.{Item}
use nizam.Panel.IconCache.Slots.{length-le_of_range}
use nizam.Panel.IconCache.Refine.{IsValid, view}
use nizam.Panel.IconCache.Load.{icon_key, init-IsValid, spec_load, load_icon_from_name_refines}

-- The cache after the icons of some names have been loaded.
unfoldable pub run_loads : (Bytes → ℕ → Option ℕ) → IconCache → List Bytes → IconCache
run_loads load c [] = c
run_loads load c (name ∷ names) = run_loads load (load_icon_from_name load c name).0 names

-- The list of icons after it; a path or an empty name is not cached.
unfoldable pub spec_run : (Bytes → ℕ → Option ℕ) → List Item → List Bytes → List Item
spec_run load l [] = l
spec_run load l (name ∷ names) =
    spec_run load (if uncached_name name then l else (spec_load l (icon_key name) (load name 16)).0)
      names

uncached_insert :
    (c : IconCache) (name : Bytes) (fresh : Option ℕ)
    → uncached_name name ≡ true
    → insert_loaded c name fresh ≡ (c, fresh)
unfolding insert_loaded icon_cache_insert
uncached_insert c name none u = refl
uncached_insert c name (some surf) u = rw u refl

uncached_load :
    (load : Bytes → ℕ → Option ℕ) (c : IconCache) (name : Bytes)
    → uncached_name name ≡ true
    → load_icon_from_name load c name ≡ (c, load name 16)
unfolding load_icon_from_name icon_cache_lookup after_lookup
uncached_load load c name u = rw u (uncached_insert c name (load name 16) u)

-- The cache holds the list, of at most 64 icons.
pub record HoldsList (l : List Item) (c : IconCache) : Type 0 where
  pub order : List ℕ
  pub valid : IsValid c order
  pub shows : view c.entries order ≡ l
  pub bounded : length order ≤ cap

holds_list :
    (l : List Item) (c : IconCache) (order : List ℕ)
    → IsValid c order
    → view c.entries order ≡ l
    → HoldsList l c
holds_list l c order v e = record {
  order = order;
  valid = v;
  shows = e;
  bounded = length-le_of_range cap order v.linked.distinct v.in_range;
}

load-HoldsList :
    (load : Bytes → ℕ → Option ℕ) (l : List Item) (c : IconCache) (name : Bytes)
    → HoldsList l c
    → HoldsList
        (if uncached_name name then l else (spec_load l (icon_key name) (load name 16)).0)
        (load_icon_from_name load c name).0
load-HoldsList load l c name h = elim (Bool-cases (uncached_name name)) [
  | inl u ↦ rw (u, uncached_load load c name u) h
  | inr u ↦
      let ((order, v, e), r) = load_icon_from_name_refines load c h.order name u h.valid in
      rw u (
        holds_list (spec_load l (icon_key name) (load name 16)).0
          (load_icon_from_name load c name).0 order v
          (e ∙ ap (λ t. (spec_load t (icon_key name) (load name 16)).0) h.shows))
]

run-HoldsList :
    (load : Bytes → ℕ → Option ℕ) (names : List Bytes) (l : List Item) (c : IconCache)
    → HoldsList l c
    → HoldsList (spec_run load l names) (run_loads load c names)
unfolding run_loads spec_run
run-HoldsList load [] l c h = h
run-HoldsList load (name ∷ names) l c h =
    run-HoldsList load names
      (if uncached_name name then l else (spec_load l (icon_key name) (load name 16)).0)
      (load_icon_from_name load c name).0 (load-HoldsList load l c name h)

-- Whatever icons are loaded from the start on, the cache stays valid, never holds more than 64 icons,
-- and holds the list that the most recently used icons form.
pub run_loads-HoldsList :
    (load : Bytes → ℕ → Option ℕ) (names : List Bytes)
    → HoldsList (spec_run load [] names) (run_loads load icon_cache_init names)
unfolding view
run_loads-HoldsList load names =
    run-HoldsList load names [] icon_cache_init (holds_list [] icon_cache_init [] init-IsValid refl)
