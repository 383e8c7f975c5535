-- ===== src/Panel/IconCache.antt =====
-- The icon cache of the panel, nizam-panel/src/main.c: 64 entries in an array, linked by index from
-- the most to the least recently used. An index of -1 is `none`; a surface is a number that names
-- it. Allocation does not fail.
pub mod Search
pub mod Links
pub mod Unlink
pub mod Valid
pub mod Lru
pub mod Slots
pub mod Refine
pub mod Load
pub mod History
use nizam.Prelude.{
  ℕ, zero, suc, ◌+◌, ◌-◌, ◌%◌, ◌^◌, Bool, true, false, not, ◌&&◌, ◌||◌, List, [], ◌∷◌, ◌==◌, ltb,
  if◌then◌else◌, Option, none, some, length, take, drop, map,
}
use nizam.Text.{Bytes, codes, lower, str_eq, has_char, skip_while, cut_right}

abbrev pub cap : ℕ
cap = 64

-- `uint64_t` arithmetic
abbrev pub u64 : ℕ → ℕ
u64 n = n % 2 ^ 64

pub record Entry : Type 0 where
  pub in_use : Bool
  pub name : Option Bytes
  pub size : ℕ
  pub scale : ℕ
  pub variant : ℕ
  pub surface : Option ℕ
  pub prev : Option ℕ
  pub next : Option ℕ

pub record IconCache : Type 0 where
  pub entries : ℕ → Entry
  pub head : Option ℕ
  pub tail : Option ℕ
  pub used : ℕ
  pub hits : ℕ
  pub misses : ℕ
  pub evictions : ℕ

-- `sanitize_scale`: NIZAM_PANEL_ICON_SCALE, whatever is asked for
unfoldable pub sanitize_scale : ℕ → ℕ
sanitize_scale scale = 1

is_white : ℕ → Bool
is_white c = c == b' ' || c == 9 || c == 10 || c == 13

-- `.png`, `.xpm` or `.svg` at the end of a name of more than four bytes
unfoldable pub strip_extension : Bytes → Bytes
strip_extension out =
    let ln = length out in
    let tail = drop (ln - 4) out in
    if ltb 4 ln
      && (str_eq tail (codes ".png") || str_eq tail (codes ".xpm") || str_eq tail (codes ".svg"))
    then take (ln - 4) out
    else out

unfoldable pub normalize_icon_name : Bytes → Bytes
unfolding is_white
normalize_icon_name s =
    let out = map lower (cut_right is_white (skip_while is_white s)) in
    if has_char b'/' out then out else strip_extension out

abbrev pub empty_entry : Entry
empty_entry = record {
  in_use = false;
  name = none;
  size = 0;
  scale = 0;
  variant = 0;
  surface = none;
  prev = none;
  next = none;
}

unfoldable pub icon_cache_init : IconCache
icon_cache_init = record {
  entries = λ i. empty_entry;
  head = none;
  tail = none;
  used = 0;
  hits = 0;
  misses = 0;
  evictions = 0;
}

-- A write to one entry of the array.
abbrev pub alter : (ℕ → Entry) → ℕ → (Entry → Entry) → ℕ → Entry
alter es i f j = if j == i then f (es j) else es j

-- `if (i != -1) entries[i].next = v;`
abbrev pub write_next : (ℕ → Entry) → Option ℕ → Option ℕ → ℕ → Entry
write_next es none v = es
write_next es (some i) v = alter es i (λ e. record e { next = v })

-- `if (i != -1) entries[i].prev = v;`
abbrev pub write_prev : (ℕ → Entry) → Option ℕ → Option ℕ → ℕ → Entry
write_prev es none v = es
write_prev es (some i) v = alter es i (λ e. record e { prev = v })

-- `o == idx`
abbrev pub is_index : Option ℕ → ℕ → Bool
is_index none idx = false
is_index (some i) idx = i == idx

unfoldable pub icon_cache_unlink : IconCache → ℕ → IconCache
icon_cache_unlink c idx =
    let es = write_next c.entries (c.entries idx).prev (c.entries idx).next in
    let es' = write_prev es (es idx).next (es idx).prev in
    record c {
      entries = alter es' idx (λ e. record e { prev = none; next = none });
      head = if is_index c.head idx then (es' idx).next else c.head;
      tail = if is_index c.tail idx then (es' idx).prev else c.tail;
    }

abbrev pub or_index : Option ℕ → ℕ → ℕ
or_index none idx = idx
or_index (some i) idx = i

unfoldable pub icon_cache_link_head : IconCache → ℕ → IconCache
icon_cache_link_head c idx =
    let es = alter c.entries idx (λ e. record e { prev = none; next = c.head }) in
    record c {
      entries = write_prev es c.head (some idx);
      head = some idx;
      tail = some (or_index c.tail idx);
    }

unfoldable pub icon_cache_touch : IconCache → ℕ → IconCache
icon_cache_touch c idx =
    if is_index c.head idx then c else icon_cache_link_head (icon_cache_unlink c idx) idx

-- `used--` runs only on a list that is not empty, and then `used` is not 0.
unfoldable pub evict_index : IconCache → ℕ → IconCache
evict_index c idx =
    let c' = icon_cache_unlink c idx in
    record c' {
      entries =
          alter c'.entries idx
            (λ e. record e { surface = none; name = none; size = 0; scale = 0; in_use = false });
      used = c'.used - 1;
      evictions = u64 (c'.evictions + 1);
    }

unfoldable pub icon_cache_evict_tail : IconCache → IconCache
icon_cache_evict_tail c = elim c.tail [ none ↦ c | some idx ↦ evict_index c idx ]

-- The fields that `icon_cache_destroy_all` leaves alone are the links and the counters.
unfoldable pub icon_cache_destroy_all : IconCache → IconCache
icon_cache_destroy_all c = record c {
  entries = λ i.
      let e = c.entries i in
      if e.in_use then record e { name = none; surface = none; in_use = false } else e;
  head = none;
  tail = none;
  used = 0;
}
