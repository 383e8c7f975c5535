-- ===== src/Tests/Surfaces.antt =====
-- The icon cache of the dock at concrete inputs.
use nizam.Prelude.{
  ℕ, ◌≡◌, ◌≢◌, refl, Bool, true, List, [], ◌∷◌, ◌++◌, arith, Option, none, some, if◌then◌else◌, ◌≤◌,
  ◌*◌, ◌+◌, length, All,
}
use nizam.Prelude.Int.{ℤ, pos}
use nizam.Text.{Bytes, codes, last_index}
use nizam.Dock.Surfaces.{u64, IconKey, icon_key_equal, HashTable}
use nizam.Dock.Surfaces.Name.{is_blank, icon_normalize}
use nizam.Dock.Surfaces.Name.Base.{icon_normalize_base}
use nizam.Dock.Surfaces.Get.{
  Memory, Cache, key_of, load_icon_surface_fixed, icon_cache_new, icon_cache_clear, icon_cache_get,
}
use nizam.Dock.Surfaces.Lru.{room, spec_get}
use nizam.Dock.Surfaces.Valid.{IsValid, view}
use nizam.Dock.Surfaces.Counts.{times, IsAccounted}
use nizam.Dock.Surfaces.Refine.Get.{Holds, icon_cache_get_refines}
use nizam.Dock.Surfaces.Refine.Kept.{IsKept, icon_cache_get-IsKept}
use nizam.Dock.Surfaces.Refine.History.{
  Reach, created, asked, new-IsValid, new-IsAccounted, Reach-bounded, icon_cache_clear_ends,
}
use nizam.Dock.Pixels.Pixmap.{
  Offer, Pixmap, nothing, best_pixmap, checked_pixmap, alpha_is_byte3, pixmap_pixel, pixmap_surface,
  fetch_icon_pixmap,
}
use nizam.Dock.Pixels.Pixmap.Premultiplied.{fetch_icon_pixmap-IsPremultiplied}
use nizam.Dock.Pixels.Pixmap.Inside.{pixel_at, pixmap_surface-inside}
use nizam.Dock.Pixels.{Pixel, IsPremultiplied}

-- A table as a function from keys.
abbrev key_table : HashTable
key_table = record {
  Table = IconKey → Option ℕ;
  empty = λ k. none;
  lookup = λ k t. t k;
  insert = λ k p t j. if icon_key_equal k j then some p else t j;
  remove = λ k t j. if icon_key_equal k j then none else t j;
  lookup-empty = λ k. refl;
  lookup-insert = λ k j p t. refl;
  lookup-remove = λ k j t. refl;
}

abbrev new_cache : Cache key_table
new_cache = icon_cache_new key_table (pos 2) (pos 32) (pos 1)

abbrev memory : Memory
memory = record { key_room = true; entry_at = some 7 }

abbrev no_memory : Memory
no_memory = record { key_room = true; entry_at = none }

abbrev resolve : Bytes → Option Bytes
resolve name = none

abbrev decode : Bytes → ℤ → Option ℕ
decode path size = some 3

abbrev firefox : Bytes
firefox = codes " Firefox.png"

firefox_name : icon_normalize firefox 256 ≡ codes "firefox"
unfolding icon_normalize
firefox_name = refl

named : icon_normalize firefox 256 ≢ []
unfolding icon_normalize
named h = ground arith

nothing_mapped : (k : IconKey) → new_cache.table k ≢ some 7
unfolding icon_cache_new
nothing_mapped k h = ground arith

icon_cache_get_example :
    Holds key_table
      (spec_get new_cache.capacity
        (key_of key_table new_cache (icon_normalize firefox 256))
        (load_icon_surface_fixed resolve decode firefox new_cache.icon_px new_cache.scale)
        (view new_cache.heap []))
      (icon_cache_get key_table memory resolve decode new_cache firefox)
icon_cache_get_example =
    icon_cache_get_refines key_table memory resolve decode new_cache firefox []
      (new-IsValid key_table (pos 2) (pos 32) (pos 1)) 7 named refl refl nothing_mapped

icon_cache_no_memory_example :
    IsKept key_table new_cache (icon_cache_get key_table no_memory resolve decode new_cache firefox)
icon_cache_no_memory_example =
    icon_cache_get-IsKept key_table no_memory resolve decode new_cache firefox []
      (new-IsValid key_table (pos 2) (pos 32) (pos 1))
      (new-IsAccounted key_table (pos 2) (pos 32) (pos 1)) tt

-- The surface that was loaded is destroyed where there is no memory for its entry.
no_memory_destroys :
    (icon_cache_get key_table no_memory resolve decode new_cache firefox).0.destroyed ≡ 3 ∷ []
unfolding icon_cache_get icon_cache_new icon_key_equal
no_memory_destroys = refl

-- The cache behind one request.
abbrev one_icon : Cache key_table
one_icon = (icon_cache_get key_table memory resolve decode new_cache firefox).0

one_icon_reached : Reach key_table one_icon
one_icon_reached =
    asked memory resolve decode firefox (created (pos 2) (pos 32) (pos 1) refl) nothing_mapped refl

Reach-bounded_example :
    (one_icon.size ≤ room one_icon.capacity)
    × (one_icon.alive_surfaces ≡ u64 one_icon.size)
    × (order : List ℕ) × IsValid key_table one_icon order
    × IsAccounted one_icon order
Reach-bounded_example = Reach-bounded key_table one_icon_reached

icon_cache_clear_example :
    (c' : Cache key_table) × (icon_cache_clear key_table one_icon ≡ some c')
    × (c'.size ≡ 0)
    × (c'.alive_surfaces ≡ 0)
    × ((k : IconKey) → c'.table k ≡ none)
    × ((s : ℕ) → times s c'.loaded ≡ times s c'.destroyed)
icon_cache_clear_example = icon_cache_clear_ends key_table one_icon_reached

one_icon_counted : one_icon.size ≡ 1
unfolding icon_cache_get icon_cache_new icon_key_equal
one_icon_counted = refl

icon_normalize_example :
    icon_normalize (codes "/usr/share/pixmaps" ++ 47 ∷ codes "xterm.png") 256
    ≡ icon_normalize (codes "xterm.png") 256
icon_normalize_example =
    icon_normalize_base (codes "/usr/share/pixmaps") (codes "xterm.png") 256 (ground arith)
      (unfold is_blank in refl) (unfold is_blank in refl) (unfold last_index in refl)

abbrev offers : List Offer
offers =
    record { w = pos 1; h = pos 1; bytes = 9 ∷ 9 ∷ 9 ∷ 9 ∷ [] }
    ∷ record { w = pos 2; h = pos 1; bytes = 128 ∷ 255 ∷ 0 ∷ 0 ∷ 255 ∷ 1 ∷ 2 ∷ 3 ∷ [] }
    ∷ []

abbrev larger : Pixmap
larger = record { w = 2; h = 1; bytes = 128 ∷ 255 ∷ 0 ∷ 0 ∷ 255 ∷ 1 ∷ 2 ∷ 3 ∷ [] }

abbrev larger_pixels : List (List Pixel)
larger_pixels =
    (record { blue = 0; green = 0; red = 128; alpha = 128 }
      ∷ record { blue = 3; green = 2; red = 1; alpha = 255 }
      ∷ [])
    ∷ []

offers_fetched : fetch_icon_pixmap offers ≡ some larger_pixels
unfolding fetch_icon_pixmap
offers_fetched = refl

larger_checked : checked_pixmap larger ≡ some larger
unfolding checked_pixmap
larger_checked = refl

fetch_icon_pixmap_example :
    All
      (λ row. All IsPremultiplied row × (length row ≡ (best_pixmap nothing offers).w))
      larger_pixels
    × (length larger_pixels ≡ (best_pixmap nothing offers).h)
fetch_icon_pixmap_example =
    fetch_icon_pixmap-IsPremultiplied offers larger_pixels (omega arith) offers_fetched

pixmap_surface_example :
    (last : Bool) × (alpha_is_byte3 larger ≡ some last)
    × (rows : List (List Pixel)) × (pixmap_surface (some larger) ≡ some rows)
    × (px : Pixel) × (pixel_at rows 1 0 ≡ some px)
    × (pixmap_pixel larger.bytes last ((0 * larger.w + 1) * 4) ≡ some px)
pixmap_surface_example =
    pixmap_surface-inside larger larger 1 0 larger_checked (omega arith) (omega arith)

-- The product of the sides of the first offer wraps around to 0.
abbrev huge_first : List Offer
huge_first =
    record { w = pos 65536; h = pos 65536; bytes = 1 ∷ 2 ∷ 3 ∷ 4 ∷ [] }
    ∷ record { w = pos 1; h = pos 1; bytes = 255 ∷ 3 ∷ 2 ∷ 1 ∷ [] }
    ∷ []

huge_passed_over :
    fetch_icon_pixmap huge_first
    ≡ some ((record { blue = 1; green = 2; red = 3; alpha = 255 } ∷ []) ∷ [])
unfolding fetch_icon_pixmap
huge_passed_over = refl
