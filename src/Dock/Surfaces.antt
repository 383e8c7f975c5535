-- ===== src/Dock/Surfaces.antt =====
-- The icon cache of the dock, nizam-dock/src/icon_surface_cache.c: entries on the heap, linked by
-- pointers from the most to the least recently used, and found by a hash table. A pointer is a
-- number, NULL is `none`; a surface is a number that names it.
pub mod Name
pub mod Get
pub mod Links
pub mod Lru
pub mod Valid
pub mod Counts
pub mod Refine
use nizam.Prelude.{
  ℕ, zero, suc, ◌+◌, ◌-◌, ◌*◌, ◌%◌, ◌^◌, ◌≡◌, Bool, true, false, ◌&&◌, List, [], ◌∷◌, ◌==◌,
  if◌then◌else◌, Option, none, some,
}
use nizam.Prelude.Int.{ℤ, pos, eqb_ℤ, leb_ℤ, ltb_ℤ, ◌*ℤ◌}
use nizam.Text.{Bytes, str_eq}

-- `uint64_t` arithmetic
abbrev pub u64 : ℕ → ℕ
u64 n = n % 2 ^ 64

pub record IconKey : Type 0 where
  pub name : Bytes
  pub size_px : ℤ
  pub scale : ℤ

unfoldable pub icon_key_equal : IconKey → IconKey → Bool
icon_key_equal a b = (eqb_ℤ a.size_px b.size_px && eqb_ℤ a.scale b.scale) && str_eq a.name b.name

pub record IconEntry : Type 0 where
  pub key : IconKey
  pub surface : Option ℕ
  pub prev : Option ℕ
  pub next : Option ℕ

-- GLib's hash table, from keys to pointers, with `icon_key_equal` for its equality.
pub record HashTable : Type 1 where
  pub Table : Type 0
  pub empty : Table
  pub lookup : IconKey → Table → Option ℕ
  pub insert : IconKey → ℕ → Table → Table
  pub remove : IconKey → Table → Table
  pub lookup-empty : (k : IconKey) → lookup k empty ≡ none
  pub lookup-insert :
      (k j : IconKey) (p : ℕ) (t : Table)
      → lookup j (insert k p t) ≡ (if icon_key_equal k j then some p else lookup j t)
  pub lookup-remove :
      (k j : IconKey) (t : Table)
      → lookup j (remove k t) ≡ (if icon_key_equal k j then none else lookup j t)

-- `heap` is the memory that holds the entries. `loaded` and `destroyed` are no fields of the C
-- struct: they list the surfaces that the loader gave and those that `cairo_surface_destroy` was
-- called for, the latest first.
pub record SurfaceCache (T : Type 0) : Type 0 where
  pub table : T
  pub heap : ℕ → IconEntry
  pub head : Option ℕ
  pub tail : Option ℕ
  pub size : ℕ
  pub capacity : ℤ
  pub icon_px : ℤ
  pub scale : ℤ
  pub hits : ℕ
  pub misses : ℕ
  pub evictions : ℕ
  pub alive_surfaces : ℕ
  pub loaded : List ℕ
  pub destroyed : List ℕ

abbrev pub alter : (ℕ → IconEntry) → ℕ → (IconEntry → IconEntry) → ℕ → IconEntry
alter h i f j = if j == i then f (h j) else h j

-- `if (p) p->next = v;`
abbrev pub write_next : (ℕ → IconEntry) → Option ℕ → Option ℕ → ℕ → IconEntry
write_next h none v = h
write_next h (some p) v = alter h p (λ e. record e { next = v })

-- `if (p) p->prev = v;`
abbrev pub write_prev : (ℕ → IconEntry) → Option ℕ → Option ℕ → ℕ → IconEntry
write_prev h none v = h
write_prev h (some p) v = alter h p (λ e. record e { prev = v })

-- `if (!p) end = v;`
abbrev pub end_or : Option ℕ → Option ℕ → Option ℕ → Option ℕ
end_or none last v = v
end_or (some p) last v = last

abbrev pub is_pointer : Option ℕ → ℕ → Bool
is_pointer none entry = false
is_pointer (some p) entry = p == entry

-- What `icon_entry_destroy` leaves in the cache: one surface less, where the entry had one.
abbrev pub destroy_surface : ℕ → Option ℕ → ℕ
destroy_surface alive none = alive
destroy_surface alive (some s) = u64 (alive + 2 ^ 64 - 1)

-- `if (s) cairo_surface_destroy(s);`
abbrev pub destroy_call : List ℕ → Option ℕ → List ℕ
destroy_call l none = l
destroy_call l (some s) = s ∷ l

module _ {T : Type 0} where
  unfoldable pub icon_entry_unlink : SurfaceCache T → ℕ → SurfaceCache T
  icon_entry_unlink c entry =
      let h = write_next c.heap (c.heap entry).prev (c.heap entry).next in
      let h' = write_prev h (h entry).next (h entry).prev in
      record c {
        heap = alter h' entry (λ e. record e { prev = none; next = none });
        head = end_or (c.heap entry).prev c.head (c.heap entry).next;
        tail = end_or (h entry).next c.tail (h entry).prev;
      }

  unfoldable pub icon_entry_link_head : SurfaceCache T → ℕ → SurfaceCache T
  icon_entry_link_head c entry =
      let h = alter c.heap entry (λ e. record e { prev = none; next = c.head }) in
      record c {
        heap = write_prev h c.head (some entry);
        head = some entry;
        tail = end_or c.head c.tail (some entry);
      }

  unfoldable pub icon_entry_touch : SurfaceCache T → ℕ → SurfaceCache T
  icon_entry_touch c entry =
      if is_pointer c.head entry then c else icon_entry_link_head (icon_entry_unlink c entry) entry

  unfoldable pub icon_entry_destroy : SurfaceCache T → ℕ → SurfaceCache T
  icon_entry_destroy c entry = record c {
    alive_surfaces = destroy_surface c.alive_surfaces (c.heap entry).surface;
    destroyed = destroy_call c.destroyed (c.heap entry).surface;
  }

  -- The loop of `nizam_dock_icon_cache_clear`; `none` where the fuel runs out.
  unfoldable pub clear_loop : ℕ → Option ℕ → SurfaceCache T → Option (SurfaceCache T)
  unfolding icon_entry_destroy
  clear_loop fuel none c = some c
  clear_loop zero (some entry) c = none
  clear_loop (suc fuel) (some entry) c =
      clear_loop fuel (c.heap entry).next (icon_entry_destroy c entry)
