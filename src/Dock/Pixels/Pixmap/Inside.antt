-- ===== src/Dock/Pixels/Pixmap/Inside.antt =====
-- The pixels of pixmaps, `sni_fetch_icon_pixmap_prop` of nizam-dock/src/sni.c, are read from their
-- places, inside the bytes.
use nizam.Prelude.{
  ℕ, zero, suc, ◌+◌, ◌*◌, ◌/◌, ◌≤◌, ◌<◌, ◌≡◌, ◌∙◌, refl, ap, Bool, List, [], ◌∷◌, arith, min, ltb,
  ◌==◌, if◌then◌else◌, length, get_elem?, Option, none, some, Bool-cases, inl, inr,
}
use mathlib.Core.Path.{subst}
use nizam.Text.{Bytes}
use nizam.Dock.Pixels.{Pixel}
use nizam.Dock.Pixels.Pixmap.{
  Pixmap, read, count_nonzero, alpha_is_byte3, argb, pixel_of, pixmap_pixel, pixmap_row,
  pixmap_rows, checked_pixmap, pixmap_surface,
}

read-some : (bytes : Bytes) (i : ℕ) → i < length bytes → (b : ℕ) × (read bytes i ≡ some b)
read-some [] i h = absurd (omega arith)
read-some (x ∷ bytes) zero h = (x, refl)
read-some (x ∷ bytes) (suc i) h = read-some bytes i (omega arith)

counted :
    (bytes : Bytes) (offset left i : ℕ)
    → offset < 4
    → (i + left) * 4 ≤ length bytes
    → (n : ℕ) × (count_nonzero bytes offset left i ≡ some n)
unfolding count_nonzero
counted bytes offset zero i o h = (0, refl)
counted bytes offset (suc left) i o h =
    let (b, e) = read-some bytes (i * 4 + offset) (omega arith) in
    let (n, f) = counted bytes offset left (i + 1) o (omega arith) in
    rw (e, f) (elim (Bool-cases (b == 0)) [ inl g ↦ (n, rw g refl) | inr g ↦ (n + 1, rw g refl) ])

pixel_of-some :
    (last : Bool) (a b c d : Option ℕ) (i j k l : ℕ)
    → a ≡ some i
    → b ≡ some j
    → c ≡ some k
    → d ≡ some l
    → (p : Pixel) × (pixel_of last a b c d ≡ some p)
pixel_of-some last a b c d i j k l ea eb ec ed =
    (if last then argb l i j k else argb i j k l, rw (ea, eb, ec, ed) refl)

pixel-some :
    (bytes : Bytes) (last : Bool) (at : ℕ)
    → at + 3 < length bytes
    → (p : Pixel) × (pixmap_pixel bytes last at ≡ some p)
unfolding pixmap_pixel
pixel-some bytes last at h =
    let (a, ea) = read-some bytes (at + 0) (omega arith) in
    let (b, eb) = read-some bytes (at + 1) (omega arith) in
    let (c, ec) = read-some bytes (at + 2) (omega arith) in
    let (d, ed) = read-some bytes (at + 3) (omega arith) in
    pixel_of-some last (read bytes (at + 0)) (read bytes (at + 1)) (read bytes (at + 2))
      (read bytes (at + 3)) a b c d ea eb ec ed

-- A row of pixels, each from its own four bytes.
abbrev ReadsPixels : Bytes → Bool → ℕ → ℕ → ℕ → List Pixel → Type 0
ReadsPixels bytes last row left x l =
    (k : ℕ)
    → k < left
    → (p : Pixel) × (get_elem? l k ≡ some p)
      × (pixmap_pixel bytes last (row + (x + k) * 4) ≡ some p)

row-some :
    (bytes : Bytes) (last : Bool) (row left x : ℕ)
    → row + (x + left) * 4 ≤ length bytes
    → (l : List Pixel) × (pixmap_row bytes last row left x ≡ some l)
      × ReadsPixels bytes last row left x l
unfolding pixmap_row
row-some bytes last row zero x h = ([], refl, λ k b. absurd (omega arith))
row-some bytes last row (suc left) x h =
    let (p, e) = pixel-some bytes last (row + x * 4) (omega arith) in
    let (l, f, at) = row-some bytes last row left (x + 1) (omega arith) in
    (p ∷ l, rw (e, f) refl, each p e l at)
  where
    each :
        (p : Pixel)
        → pixmap_pixel bytes last (row + x * 4) ≡ some p
        → (l : List Pixel) → ReadsPixels bytes last row left (x + 1) l
        → ReadsPixels bytes last row (suc left) x (p ∷ l)
    each p e l at zero b =
        let here : x + 0 ≡ x = omega arith in
        (p, refl, ap (λ n. pixmap_pixel bytes last (row + n * 4)) here ∙ e)
    each p e l at (suc k) b =
        let (q, f, g) = at k (omega arith) in
        let here : x + suc k ≡ x + 1 + k = omega arith in
        (q, f, ap (λ n. pixmap_pixel bytes last (row + n * 4)) here ∙ g)

-- The next row and the rows behind it are inside the bytes.
row_inside : (y left w n : ℕ) → (y + suc left) * (w * 4) ≤ n → y * (w * 4) + (0 + w) * 4 ≤ n
row_inside y left w n h =
    let one : suc y * (w * 4) ≤ (y + suc left) * (w * 4) = grind arith in grind arith

abbrev ReadsRows : Bytes → Bool → ℕ → ℕ → ℕ → List (List Pixel) → Type 0
ReadsRows bytes last w left y rows =
    (k : ℕ)
    → k < left
    → (l : List Pixel) × (get_elem? rows k ≡ some l)
      × ReadsPixels bytes last ((y + k) * (w * 4)) w 0 l

rows-some :
    (bytes : Bytes) (last : Bool) (w left y : ℕ)
    → (y + left) * (w * 4) ≤ length bytes
    → (rows : List (List Pixel)) × (pixmap_rows bytes last w left y ≡ some rows)
      × ReadsRows bytes last w left y rows
unfolding pixmap_rows
rows-some bytes last w zero y h = ([], refl, λ k b. absurd (omega arith))
rows-some bytes last w (suc left) y h =
    let moved : y + suc left ≡ y + 1 + left = omega arith in
    let (l, e, in_row) =
      row-some bytes last (y * (w * 4)) w 0 (row_inside y left w (length bytes) h) in
    let (rows, f, at) =
      rows-some bytes last w left (y + 1) (subst (λ n. n * (w * 4) ≤ length bytes) moved h) in
    (l ∷ rows, rw (e, f) refl, each l in_row rows at)
  where
    each :
        (l : List Pixel)
        → ReadsPixels bytes last (y * (w * 4)) w 0 l
        → (rows : List (List Pixel)) → ReadsRows bytes last w left (y + 1) rows
        → ReadsRows bytes last w (suc left) y (l ∷ rows)
    each l r rows at zero b =
        let here : y ≡ y + 0 = omega arith in
        (l, refl, subst (λ n. ReadsPixels bytes last (n * (w * 4)) w 0 l) here r)
    each l r rows at (suc k) b =
        let (m, f, g) = at k (omega arith) in
        let here : y + 1 + k ≡ y + suc k = omega arith in
        (m, f, subst (λ n. ReadsPixels bytes last (n * (w * 4)) w 0 m) here g)

checked_long : (p q : Pixmap) → checked_pixmap p ≡ some q → q.w * q.h * 4 ≤ length q.bytes
unfolding checked_pixmap
checked_long p q e = let same : p ≡ q = ground arith in ground arith

alpha-some :
    (p : Pixmap) → p.w * p.h * 4 ≤ length p.bytes → (last : Bool) × (alpha_is_byte3 p ≡ some last)
unfolding alpha_is_byte3
alpha-some p h =
    let sample = min (p.w * p.h) 1024 in
    let (m, e) = counted p.bytes 0 sample 0 (omega arith) (omega arith) in
    let (n, f) = counted p.bytes 3 sample 0 (omega arith) (omega arith) in
    (ltb m (n / 4), rw (e, f) refl)

abbrev pub pixel_at : List (List Pixel) → ℕ → ℕ → Option Pixel
pixel_at rows x y = elim (get_elem? rows y) [ none ↦ none | some row ↦ get_elem? row x ]

-- The surface of a pixmap that passed the check exists, so that no read for it is outside the bytes,
-- and each of its pixels, at any place inside the width and the height, is the one of the four bytes
-- at that place, with the alpha in the byte that was chosen for the whole pixmap.
pub pixmap_surface-inside :
    (p q : Pixmap) (x y : ℕ)
    → checked_pixmap p ≡ some q
    → x < q.w
    → y < q.h
    → (last : Bool) × (alpha_is_byte3 q ≡ some last)
      × (rows : List (List Pixel)) × (pixmap_surface (some q) ≡ some rows)
      × (px : Pixel) × (pixel_at rows x y ≡ some px)
      × (pixmap_pixel q.bytes last ((y * q.w + x) * 4) ≡ some px)
unfolding pixmap_surface
pixmap_surface-inside p q x y e hx hy =
    let long = checked_long p q e in
    let (last, f) = alpha-some q long in
    let fits : (0 + q.h) * (q.w * 4) ≤ length q.bytes = grind arith in
    let (rows, g, at) = rows-some q.bytes last q.w q.h 0 fits in
    let (row, r, in_row) = at y hy in
    let (px, i, j) = in_row x hx in
    let place : (0 + y) * (q.w * 4) + (0 + x) * 4 ≡ (y * q.w + x) * 4 = grind arith in
    (
      last,
      f,
      rows,
      rw f g,
      px,
      rw (pixel_at, r) i,
      subst (λ n. pixmap_pixel q.bytes last n ≡ some px) place j,
    )
