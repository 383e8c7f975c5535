-- ===== src/Dock/Pixels/Pixmap.antt =====
-- The pixmaps of a status notifier item, `sni_fetch_icon_pixmap_prop` of nizam-dock/src/sni.c: the
-- largest one is chosen, checked against its length, and turned into the pixels of a surface.
-- Allocation does not fail.
pub mod Premultiplied
pub mod Inside
use mathlib.Core.Path.{subst}
use nizam.Prelude.{
  ℕ, zero, suc, ◌+◌, ◌*◌, ◌/◌, ◌≤◌, ◌<◌, ◌≡◌, refl, sym, Bool, true, false, ◌&&◌, List, [], ◌∷◌,
  arith, ltb, leb, ◌==◌, if◌then◌else◌, length, get_elem?, ◌-◌, ◌%◌, ◌^◌, All, min, Option, none,
  some, Bool-cases, inl, inr, ◌⊎◌, ap,
}
use nizam.Prelude.Int.{ℤ, pos, ltb_ℤ, pos_part, ◌-ℤ◌}
use nizam.Text.{Bytes}
use nizam.Dock.Pixels.{Pixel, IsPremultiplied, premultiply, premultiply-le}

-- An entry of the array that the item answers.
pub record Offer : Type 0 where
  pub w : ℤ
  pub h : ℤ
  pub bytes : Bytes

pub record Pixmap : Type 0 where
  pub w : ℕ
  pub h : ℕ
  pub bytes : Bytes

abbrev pub nothing : Pixmap
nothing = record { w = 0; h = 0; bytes = [] }

-- `data && len > 0 && w > 0 && h > 0`
unfoldable pub is_usable : Offer → Bool
is_usable o = ltb 0 (length o.bytes) && ltb_ℤ (pos 0) o.w && ltb_ℤ (pos 0) o.h

-- An `int` of 32 bits that a product is cut to. C leaves the overflow undefined; it wraps around, as
-- the machine multiplies.
unfoldable pub int_product : ℕ → ℕ → ℤ
unfolding ◌-ℤ◌
int_product a b = let n = a * b % 2 ^ 32 in if ltb n (2 ^ 31) then pos n else pos n -ℤ pos (2 ^ 32)

-- The larger of the best so far and the one that is offered, by the products of their sides.
unfoldable pub better : Pixmap → Offer → Pixmap
unfolding is_usable int_product
better best o =
    if is_usable o && ltb_ℤ (int_product best.w best.h) (int_product (pos_part o.w) (pos_part o.h))
    then record { w = pos_part o.w; h = pos_part o.h; bytes = o.bytes }
    else best

unfoldable pub best_pixmap : Pixmap → List Offer → Pixmap
unfolding better
best_pixmap best [] = best
best_pixmap best (o ∷ offers) = best_pixmap (better best o) offers

-- The byte at a place; a read outside is `none`.
abbrev pub read : Bytes → ℕ → Option ℕ
read bytes at = get_elem? bytes at

abbrev pub count_byte : Option ℕ → Option ℕ → Option ℕ
count_byte none n = none
count_byte (some b) none = none
count_byte (some b) (some n) = if b == 0 then some n else some (n + 1)

-- How many of the pixels from `i` on have a byte at `offset` that is not 0.
unfoldable pub count_nonzero : Bytes → ℕ → ℕ → ℕ → Option ℕ
count_nonzero bytes offset zero i = some 0
count_nonzero bytes offset (suc left) i =
    count_byte (read bytes (i * 4 + offset)) (count_nonzero bytes offset left (i + 1))

abbrev pub hardly_set : Option ℕ → Option ℕ → Option Bool
hardly_set none n = none
hardly_set (some m) none = none
hardly_set (some m) (some n) = some (ltb m (n / 4))

-- The alpha is taken for the last byte where it is hardly ever set in the first.
unfoldable pub alpha_is_byte3 : Pixmap → Option Bool
unfolding count_nonzero
alpha_is_byte3 p =
    let sample = min (p.w * p.h) 1024 in
    hardly_set (count_nonzero p.bytes 0 sample 0) (count_nonzero p.bytes 3 sample 0)

abbrev pub scaled : ℕ → ℕ → ℕ
scaled c a = if a == 255 then c else premultiply c a

abbrev pub argb : ℕ → ℕ → ℕ → ℕ → Pixel
argb a r g b = record { blue = scaled b a; green = scaled g a; red = scaled r a; alpha = a }

abbrev pub pixel_of : Bool → Option ℕ → Option ℕ → Option ℕ → Option ℕ → Option Pixel
pixel_of last (some a) (some b) (some c) (some d) =
    some (if last then argb d a b c else argb a b c d)
pixel_of last _ _ _ _ = none

unfoldable pub pixmap_pixel : Bytes → Bool → ℕ → Option Pixel
unfolding premultiply
pixmap_pixel bytes last at =
    pixel_of last (read bytes (at + 0)) (read bytes (at + 1)) (read bytes (at + 2))
      (read bytes (at + 3))

abbrev pub cons_if {ℓ} : {A : Type ℓ} → Option A → Option (List A) → Option (List A)
cons_if none l = none
cons_if (some a) none = none
cons_if (some a) (some l) = some (a ∷ l)

unfoldable pub pixmap_row : Bytes → Bool → ℕ → ℕ → ℕ → Option (List Pixel)
unfolding pixmap_pixel
pixmap_row bytes last row zero x = some []
pixmap_row bytes last row (suc left) x =
    cons_if (pixmap_pixel bytes last (row + x * 4)) (pixmap_row bytes last row left (x + 1))

unfoldable pub pixmap_rows : Bytes → Bool → ℕ → ℕ → ℕ → Option (List (List Pixel))
unfolding pixmap_row
pixmap_rows bytes last w zero y = some []
pixmap_rows bytes last w (suc left) y =
    cons_if (pixmap_row bytes last (y * (w * 4)) w 0) (pixmap_rows bytes last w left (y + 1))

-- `none` where the item keeps the icon it has.
unfoldable pub checked_pixmap : Pixmap → Option Pixmap
checked_pixmap p =
    if leb p.w 0
    then none
    else if leb p.h 0
    then none
    else if ltb (length p.bytes) (p.w * p.h * 4)
    then none
    else some p

abbrev pub rows_of : Pixmap → Option Bool → Option (List (List Pixel))
rows_of p none = none
rows_of p (some last) = pixmap_rows p.bytes last p.w p.h 0

-- No surface where the item keeps its icon, or where a read is outside the bytes.
unfoldable pub pixmap_surface : Option Pixmap → Option (List (List Pixel))
unfolding pixmap_rows alpha_is_byte3
pixmap_surface none = none
pixmap_surface (some p) = rows_of p (alpha_is_byte3 p)

unfoldable pub fetch_icon_pixmap : List Offer → Option (List (List Pixel))
unfolding best_pixmap checked_pixmap pixmap_surface
fetch_icon_pixmap offers = pixmap_surface (checked_pixmap (best_pixmap nothing offers))
