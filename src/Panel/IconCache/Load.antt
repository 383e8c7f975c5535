-- ===== src/Panel/IconCache/Load.antt =====
-- Loading icons through the cache.
use nizam.Prelude.{
  ℕ, ◌≡◌, ◌∙◌, refl, false, List, [], arith, Option, none, some, Option-cases, inl, inr, ◌+◌,
}
use nizam.Text.{Bytes}
use nizam.Panel.IconCache.{u64, IconCache, icon_cache_init}
use nizam.Panel.IconCache.Search.{
  Key, uncached_name, key_of, matches, find_key, lookup_found, lookup_key, icon_cache_lookup,
  icon_cache_insert, insert_loaded, after_lookup, load_icon_from_name,
}
use nizam.Panel.IconCache.Lru.{Item, touch, get, insert}
use nizam.Panel.IconCache.Refine.{IsValid, view, misses-IsValid}
use nizam.Panel.IconCache.Refine.Lookup.{lookup_key_refines, find_key_of_get}
use nizam.Panel.IconCache.Refine.Insert.{insert_key_refines}

-- The key under which a name is cached.
abbrev pub icon_key : Bytes → Key
icon_key name = key_of name 16 1 0

pub init-IsValid : IsValid icon_cache_init []
unfolding icon_cache_init matches
init-IsValid = record {
  linked = record { distinct = tt; nexts = tt; prevs = tt; head_is = refl; tail_is = refl };
  in_range = λ i e. absurd (ground arith);
  marks = λ i b. refl;
  used_is = refl;
  unique = λ k i j bi bj mi mj. absurd (ground arith);
  shown = λ i b u. absurd (ground arith);
}

-- `load_icon_from_name` on the list of icons: what is cached is moved to the front, what is not is
-- loaded and put in front.
abbrev pub spec_insert : List Item → Key → Option ℕ → List Item × Option ℕ
spec_insert l k none = (l, none)
spec_insert l k (some surf) = (insert k surf l, some surf)

abbrev pub spec_found : List Item → Key → Option ℕ → Option ℕ → List Item × Option ℕ
spec_found l k (some surf) fresh = (touch k l, some surf)
spec_found l k none fresh = spec_insert l k fresh

pub spec_load : List Item → Key → Option ℕ → List Item × Option ℕ
spec_load l k fresh = spec_found l k (get k l) fresh

-- A cache that holds the list, beside the surface that is returned.
abbrev pub Holds : List Item × Option ℕ → IconCache × Option ℕ → Type 0
Holds (l, r) (c, r') = ((order : List ℕ) × IsValid c order × (view c.entries order ≡ l)) × (r' ≡ r)

insert_loaded-Holds :
    (c : IconCache) (order : List ℕ) (name : Bytes) (fresh : Option ℕ)
    → uncached_name name ≡ false
    → IsValid c order
    → find_key c (icon_key name) ≡ none
    → Holds (spec_insert (view c.entries order) (icon_key name) fresh) (insert_loaded c name fresh)
unfolding insert_loaded icon_cache_insert
insert_loaded-Holds c order name none u v e = ((order, v, refl), refl)
insert_loaded-Holds c order name (some surf) u v e =
    rw u ((insert_key_refines c order (icon_key name) surf v e).1, refl)

after_hit :
    (load : Bytes → ℕ → Option ℕ) (name : Bytes) (p : IconCache × Option ℕ) (surf : ℕ)
    → p.1 ≡ some surf
    → after_lookup load name p ≡ p
unfolding after_lookup
after_hit load name (c, none) surf h = absurd (ground arith)
after_hit load name (c, some t) surf h = refl

module _ (load : Bytes → ℕ → Option ℕ) (c : IconCache) (order : List ℕ) (name : Bytes) where
  load_hit :
      (surf : ℕ)
      → IsValid c order
      → get (icon_key name) (view c.entries order) ≡ some surf
      → Holds
          (spec_load (view c.entries order) (icon_key name) (load name 16))
          (after_lookup load name (lookup_key c (icon_key name)))
  unfolding spec_load
  load_hit surf v g =
      let (order', v', shown, r) = lookup_key_refines c order (icon_key name) v in
      rw (g, after_hit load name (lookup_key c (icon_key name)) surf (r ∙ g))
        ((order', v', shown), r ∙ g)

  load_miss :
      uncached_name name ≡ false
      → IsValid c order
      → get (icon_key name) (view c.entries order) ≡ none
      → Holds
          (spec_load (view c.entries order) (icon_key name) (load name 16))
          (after_lookup load name (lookup_key c (icon_key name)))
  unfolding spec_load lookup_key lookup_found after_lookup find_key
  load_miss u v g =
      let e = find_key_of_get c order (icon_key name) v g in
      rw (g, e)
        (insert_loaded-Holds (record c { misses = u64 (c.misses + 1) }) order name (load name 16) u
          (misses-IsValid c order v (u64 (c.misses + 1))) e)

  -- In a valid cache, `load_icon_from_name` on a name that may be cached returns the cached surface,
  -- and moves it to the front, or else loads the icon and, if that succeeds, puts it in front of
  -- the 63 most recent others; the cache stays valid.
  pub load_icon_from_name_refines :
      uncached_name name ≡ false
      → IsValid c order
      → Holds
          (spec_load (view c.entries order) (icon_key name) (load name 16))
          (load_icon_from_name load c name)
  unfolding load_icon_from_name icon_cache_lookup
  load_icon_from_name_refines u v =
      elim (Option-cases (get (icon_key name) (view c.entries order))) [
        | inl g ↦ rw u (load_miss u v g)
        | inr (surf, g) ↦ rw u (load_hit surf v g)
      ]
