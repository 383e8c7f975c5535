-- ===== src/Panel/IconCache/Search.antt =====
-- What the icon cache looks up and puts in, nizam-panel/src/main.c: the names of icons, the search
-- loops, lookup, insertion and the load of an icon.
use nizam.Prelude.{
  ℕ, zero, suc, ◌+◌, Bool, true, false, not, ◌&&◌, [], ◌∷◌, ◌==◌, if◌then◌else◌, Option, none, some,
}
use nizam.Text.{Bytes, str_eq, has_char}
use nizam.Panel.IconCache.{
  cap, u64, Entry, IconCache, sanitize_scale, normalize_icon_name, icon_cache_touch,
  icon_cache_link_head, icon_cache_evict_tail, alter,
}

-- The first index from `i` on, of the `rounds` that are left, that passes the test.
unfoldable pub find_from : (ℕ → Bool) → ℕ → ℕ → Option ℕ
find_from test zero i = none
find_from test (suc rounds) i =
    let rest = find_from test rounds (suc i) in if test i then some i else rest

-- What an icon is looked up by, its name normalized.
pub record Key : Type 0 where
  pub name : Bytes
  pub size : ℕ
  pub scale : ℕ
  pub variant : ℕ

abbrev pub name_is : Option Bytes → Bytes → Bool
name_is none norm = false
name_is (some n) norm = str_eq n norm

unfoldable pub matches : Key → Entry → Bool
matches k e =
    e.in_use
    && (e.size == k.size && e.scale == k.scale && e.variant == k.variant)
    && name_is e.name k.name

-- `!name || !*name || strchr(name, '/')`: such a name is never cached
unfoldable pub uncached_name : Bytes → Bool
uncached_name [] = true
uncached_name (c ∷ s) = has_char b'/' (c ∷ s)

unfoldable pub key_of : Bytes → ℕ → ℕ → ℕ → Key
key_of name size scale variant = record {
  name = normalize_icon_name name;
  size = size;
  scale = sanitize_scale scale;
  variant = variant;
}

-- The loop of `icon_cache_lookup`.
unfoldable pub find_key : IconCache → Key → Option ℕ
find_key c k = find_from (λ i. matches k (c.entries i)) cap 0

unfoldable pub lookup_found : IconCache → Option ℕ → IconCache × Option ℕ
lookup_found c none = (record c { misses = u64 (c.misses + 1) }, none)
lookup_found c (some i) =
    (icon_cache_touch (record c { hits = u64 (c.hits + 1) }) i, (c.entries i).surface)

unfoldable pub lookup_key : IconCache → Key → IconCache × Option ℕ
lookup_key c k = lookup_found c (find_key c k)

unfoldable pub icon_cache_lookup : IconCache → Bytes → ℕ → ℕ → ℕ → IconCache × Option ℕ
icon_cache_lookup c name size scale variant =
    if uncached_name name then (c, none) else lookup_key c (key_of name size scale variant)

unfoldable pub find_free : IconCache → Option ℕ
find_free c = find_from (λ i. not (c.entries i).in_use) cap 0

-- The entry at `free_idx` is filled and becomes the most recent.
unfoldable pub fill_index : IconCache → Key → ℕ → ℕ → IconCache
fill_index c k surf idx =
    let c' =
      icon_cache_link_head
        (record c {
          entries = alter c.entries idx (λ e. record e {
            name = some k.name;
            in_use = true;
            size = k.size;
            scale = k.scale;
            variant = k.variant;
            surface = some surf;
            prev = none;
            next = none;
          });
        })
        idx in
    record c' { used = c'.used + 1 }

unfoldable pub fill_found : IconCache → Key → ℕ → Option ℕ → IconCache × Bool
fill_found c k surf none = (c, false)
fill_found c k surf (some idx) = (fill_index c k surf idx, true)

-- A free entry, or the one that is freed by an eviction.
unfoldable pub insert_at : IconCache → Key → ℕ → Option ℕ → IconCache × Bool
insert_at c k surf (some idx) = fill_found c k surf (some idx)
insert_at c k surf none = let c' = icon_cache_evict_tail c in fill_found c' k surf (find_free c')

unfoldable pub insert_key : IconCache → Key → ℕ → IconCache × Bool
insert_key c k surf = insert_at c k surf (find_free c)

unfoldable pub icon_cache_insert : IconCache → Bytes → ℕ → ℕ → ℕ → Option ℕ → IconCache × Bool
icon_cache_insert c name size scale variant none = (c, false)
icon_cache_insert c name size scale variant (some surf) =
    if uncached_name name then (c, false) else insert_key c (key_of name size scale variant) surf

-- What `load_icon_from_name` does with an icon that is loaded.
unfoldable pub insert_loaded : IconCache → Bytes → Option ℕ → IconCache × Option ℕ
insert_loaded c name none = (c, none)
insert_loaded c name (some surf) = ((icon_cache_insert c name 16 1 0 (some surf)).0, some surf)

unfoldable pub after_lookup :
    (Bytes → ℕ → Option ℕ) → Bytes → IconCache × Option ℕ → IconCache × Option ℕ
after_lookup load name (c, some surf) = (c, some surf)
after_lookup load name (c, none) = insert_loaded c name (load name 16)

-- `load_icon_from_name`; `load` is `load_icon_from_name_uncached`.
unfoldable pub load_icon_from_name :
    (Bytes → ℕ → Option ℕ) → IconCache → Bytes → IconCache × Option ℕ
load_icon_from_name load c name = after_lookup load name (icon_cache_lookup c name 16 1 0)
