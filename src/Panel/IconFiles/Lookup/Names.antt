-- ===== src/Panel/IconFiles/Lookup/Names.antt =====
-- The extension of an icon's name does not matter, nizam-panel/src/main.c.
use nizam.Prelude.{
  ℕ, ◌+◌, ◌-◌, ◌<◌, ◌≡◌, refl, true, false, [], ◌∷◌, ◌++◌, arith, ltb, ◌==◌, length, length-append,
  drop, lt→ltb,
}
use nizam.Text.{Bytes, codes, has_char}
use nizam.Text.Last.{take-length}
use nizam.Panel.IconFiles.{Disk, ends_with}
use nizam.Panel.IconFiles.Roots.{icon_roots}
use nizam.Panel.IconFiles.Lookup.{
  has_icon_ext, lookup_name, load_lookup, load_icon_from_name_uncached,
}

drop-length : (s t : Bytes) → drop (length s) (s ++ t) ≡ t
drop-length [] t = refl
drop-length (c ∷ s) t = drop-length s t

back : (name ext : Bytes) → length ext ≡ 4 → length (name ++ ext) - 4 ≡ length name
back name ext h = omega (arith, length-append name ext)

ends_with-append :
    (name ext suffix : Bytes)
    → length ext ≡ 4
    → length suffix ≡ 4
    → ends_with (name ++ ext) suffix ≡ ends_with ext suffix
unfolding ends_with
ends_with-append name ext suffix h k =
    let long : ltb (length (name ++ ext)) 4 ≡ false = ground (arith, length-append name ext) in
    rw (k, h, long, back name ext h, drop-length name ext) refl

has_icon_ext-append :
    (name ext : Bytes) → length ext ≡ 4 → has_icon_ext (name ++ ext) ≡ has_icon_ext ext
unfolding has_icon_ext
has_icon_ext-append name ext h =
    rw
      (
        ends_with-append name ext (codes ".png") h refl,
        ends_with-append name ext (codes ".xpm") h refl,
        ends_with-append name ext (codes ".svg") h refl,
      )
      refl

has_char-append :
    (c : ℕ) (s t : Bytes)
    → has_char c s ≡ false
    → has_char c t ≡ false
    → has_char c (s ++ t) ≡ false
unfolding has_char
has_char-append c [] t h k = k
has_char-append c (x ∷ s) t h k =
    let head : (x == c) ≡ false = ground arith in
    rw (head, has_char-append c s t (ground arith) k) refl

lookup_name-append :
    (name ext : Bytes)
    → 0 < length name
    → length name + 4 < 512
    → length ext ≡ 4
    → has_icon_ext ext ≡ true
    → lookup_name (name ++ ext) ≡ name
unfolding lookup_name
lookup_name-append name ext pos short h k =
    let l : length (name ++ ext) ≡ length name + 4 = omega (arith, length-append name ext) in
    let back4 : length name + 4 - 4 ≡ length name = omega arith in
    rw
      (
        has_icon_ext-append name ext h,
        k,
        l,
        lt→ltb 4 (length name + 4) (omega arith),
        lt→ltb (length name + 4) 512 short,
        back4,
      )
      (take-length name ext)

lookup_name_bare : (name : Bytes) → has_icon_ext name ≡ false → lookup_name name ≡ name
unfolding lookup_name
lookup_name_bare name h = rw h refl

load_plain :
    (d : Disk) (name : Bytes) (size : ℕ)
    → 0 < length name
    → has_char b'/' name ≡ false
    → load_icon_from_name_uncached d name size
      ≡ load_lookup d (icon_roots d) (lookup_name name) size
unfolding load_icon_from_name_uncached
load_plain d [] size pos flat = absurd (omega arith)
load_plain d (c ∷ name) size pos flat = rw flat refl

-- A name without a slash finds the same icon with one of the extensions .png, .xpm and .svg as
-- without, unless it has an extension of its own or does not fit its buffer.
pub load_icon_from_name_uncached-append :
    (d : Disk) (name ext : Bytes) (size : ℕ)
    → 0 < length name
    → length name + 4 < 512
    → has_char b'/' name ≡ false
    → has_icon_ext name ≡ false
    → length ext ≡ 4
    → has_char b'/' ext ≡ false
    → has_icon_ext ext ≡ true
    → load_icon_from_name_uncached d (name ++ ext) size ≡ load_icon_from_name_uncached d name size
load_icon_from_name_uncached-append d name ext size pos short flat bare h flat' k =
    let own : lookup_name name ≡ name = lookup_name_bare name bare in
    let long : 0 < length (name ++ ext) = omega (arith, length-append name ext) in
    rw
      (
        load_plain d (name ++ ext) size long (has_char-append b'/' name ext flat flat'),
        load_plain d name size pos flat,
        lookup_name-append name ext pos short h k,
        own,
      )
      refl
