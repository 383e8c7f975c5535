-- ===== src/Dock/Surfaces/Get.antt =====
-- Looking icons up, loading them and giving them up: nizam-dock/src/icon_surface_cache.c.
use nizam.Prelude.{ℕ, ◌+◌, ◌-◌, Bool, true, false, [], ◌∷◌, if◌then◌else◌, Option, none, some}
use nizam.Prelude.Int.{ℤ, pos, leb_ℤ, ltb_ℤ, ◌*ℤ◌}
use nizam.Text.{Bytes, has_char}
use nizam.Dock.Surfaces.{
  u64, IconKey, IconEntry, HashTable, SurfaceCache, alter, icon_entry_unlink, icon_entry_link_head,
  icon_entry_touch, icon_entry_destroy, clear_loop,
}
use nizam.Dock.Surfaces.Name.{icon_normalize}

-- `load_icon_surface_fixed`: an icon that is no path is resolved, and the file is loaded at
-- `target` pixels. `resolve` is `nizam_dock_resolve_icon_path`, `decode` is
-- `gdk_pixbuf_new_from_file_at_scale` with `surface_from_pixbuf`.
abbrev pub or_path : Option Bytes → Bytes → Bytes
or_path none name = name
or_path (some found) name = found

unfoldable pub use_path : (Bytes → Option Bytes) → Bytes → Bytes
use_path resolve name = if has_char b'/' name then name else or_path (resolve name) name

unfoldable pub target_px : ℤ → ℤ → ℤ
target_px icon_px scale = if ltb_ℤ (icon_px *ℤ scale) (pos 1) then icon_px else icon_px *ℤ scale

unfoldable pub load_icon_surface_fixed :
    (Bytes → Option Bytes) → (Bytes → ℤ → Option ℕ) → Bytes → ℤ → ℤ → Option ℕ
unfolding use_path target_px
load_icon_surface_fixed resolve decode [] icon_px scale = none
load_icon_surface_fixed resolve decode (c ∷ s) icon_px scale =
    decode (use_path resolve (c ∷ s)) (target_px icon_px scale)

-- What `calloc` answers: whether there is room for the key, and where the entry is.
pub record Memory : Type 0 where
  pub key_room : Bool
  pub entry_at : Option ℕ

abbrev pub blank_entry : IconEntry
blank_entry = record {
  key = record { name = []; size_px = pos 0; scale = pos 0 };
  surface = none;
  prev = none;
  next = none;
}

module _ (H : HashTable) where
  open H use {Table, empty, lookup, insert, remove}

  abbrev pub Cache : Type 0
  Cache = SurfaceCache Table

  unfoldable pub icon_cache_new : ℤ → ℤ → ℤ → Cache
  icon_cache_new capacity icon_px scale = record {
    table = empty;
    heap = λ p. blank_entry;
    head = none;
    tail = none;
    size = 0;
    capacity = capacity;
    icon_px = icon_px;
    scale = scale;
    hits = 0;
    misses = 0;
    evictions = 0;
    alive_surfaces = 0;
    loaded = [];
    destroyed = [];
  }

  abbrev pub cleared : Option Cache → Option Cache
  cleared none = none
  cleared (some c) = some (record c { head = none; tail = none; size = 0; table = empty })

  -- Every entry is destroyed, and every entry is counted by `size`.
  unfoldable pub icon_cache_clear : Cache → Option Cache
  unfolding clear_loop
  icon_cache_clear c = cleared (clear_loop c.size c.head c)

  -- The least recent entry is given up. `size` is not 0 where there is a tail.
  unfoldable pub evict_entry : Cache → ℕ → Cache
  unfolding icon_entry_destroy icon_entry_unlink
  evict_entry c victim =
      let c' = icon_entry_unlink c victim in
      icon_entry_destroy
        (record c' {
          table = remove (c'.heap victim).key c'.table;
          evictions = u64 (c'.evictions + 1);
          size = c'.size - 1;
        })
        victim

  abbrev pub evict_tail : Cache → Option ℕ → Cache
  evict_tail c none = c
  evict_tail c (some victim) = evict_entry c victim

  unfoldable pub make_room : Cache → Cache
  unfolding evict_entry
  make_room c = if leb_ℤ c.capacity (pos c.size) then evict_tail c c.tail else c

  unfoldable pub add_entry : Cache → IconKey → ℕ → ℕ → Cache
  unfolding icon_entry_link_head
  add_entry c key surface entry =
      let c' =
        icon_entry_link_head
          (record c {
            heap =
                alter c.heap entry
                  (λ _. record { key = key; surface = some surface; prev = none; next = none });
            alive_surfaces = u64 (c.alive_surfaces + 1);
          })
          entry in
      record c' { table = insert key entry c'.table; size = c'.size + 1 }

  -- `cairo_surface_destroy(surface)`, of a surface that no entry has
  abbrev pub give_up : Cache → ℕ → Cache
  give_up c surface = record c { destroyed = surface ∷ c.destroyed }

  -- A surface without room for its key or its entry is destroyed.
  unfoldable pub store_surface : Memory → Cache → IconKey → ℕ → Cache × Option ℕ
  unfolding add_entry
  store_surface m c key surface = elim m.key_room [
    | false ↦ (give_up c surface, none)
    | true ↦ elim m.entry_at [
      | none ↦ (give_up c surface, none)
      | some entry ↦ (add_entry c key surface entry, some surface)
    ]
  ]

  abbrev pub cache_loaded : Memory → Cache → IconKey → Option ℕ → Cache × Option ℕ
  cache_loaded m c key none = (c, none)
  cache_loaded m c key (some surface) =
      store_surface m (make_room (record c { loaded = surface ∷ c.loaded })) key surface

  -- `load` is `load_icon_surface_fixed` of the name that was asked for.
  unfoldable pub after_lookup : Memory → Cache → IconKey → Option ℕ → Option ℕ → Cache × Option ℕ
  unfolding icon_entry_touch make_room store_surface
  after_lookup m c key load (some entry) =
      (icon_entry_touch (record c { hits = u64 (c.hits + 1) }) entry, (c.heap entry).surface)
  after_lookup m c key load none =
      cache_loaded m (record c { misses = u64 (c.misses + 1) }) key load

  abbrev pub key_of : Cache → Bytes → IconKey
  key_of c norm = record { name = norm; size_px = c.icon_px; scale = c.scale }

  abbrev pub get_normalized : Memory → Cache → Option ℕ → Bytes → Cache × Option ℕ
  get_normalized m c load [] = (c, none)
  get_normalized m c load (x ∷ norm) =
      after_lookup m c (key_of c (x ∷ norm)) load (lookup (key_of c (x ∷ norm)) c.table)

  -- `nizam_dock_icon_cache_get`; an empty name is normalized to the empty string.
  unfoldable pub icon_cache_get :
      Memory → (Bytes → Option Bytes) → (Bytes → ℤ → Option ℕ) → Cache → Bytes → Cache × Option ℕ
  unfolding after_lookup icon_normalize load_icon_surface_fixed
  icon_cache_get m resolve decode c name =
      get_normalized m c (load_icon_surface_fixed resolve decode name c.icon_px c.scale)
        (icon_normalize name 256)
