-- ===== src/Dock/Pixels/Pixmap/Premultiplied.antt =====
-- The surfaces of pixmaps, `sni_fetch_icon_pixmap_prop` of nizam-dock/src/sni.c, are premultiplied.
use mathlib.Core.Path.{subst}
use nizam.Prelude.{
  ℕ, zero, suc, ◌+◌, ◌*◌, ◌≤◌, ◌<◌, ◌≡◌, ◌∙◌, refl, ap, Bool, true, false, ◌&&◌, List, [], ◌∷◌,
  arith, length, All, Option, none, some, Bool-cases, inl, inr,
}
use nizam.Prelude.Int.{ltb_ℤ, pos_part}
use nizam.Text.{Bytes}
use nizam.Dock.Pixels.{Pixel, IsPremultiplied, premultiply-le}
use nizam.Dock.Pixels.Pixmap.{
  Offer, Pixmap, nothing, is_usable, int_product, better, best_pixmap, read, alpha_is_byte3, scaled,
  argb, pixel_of, pixmap_pixel, cons_if, pixmap_row, pixmap_rows, checked_pixmap, rows_of,
  pixmap_surface, fetch_icon_pixmap,
}

-- Pixels of bytes are premultiplied.
scaled-le : (c a : ℕ) → c < 256 → a < 256 → scaled c a ≤ a
scaled-le c a hc ha = ground (arith, premultiply-le c a hc ha)

argb-IsPremultiplied :
    (a r g b : ℕ) → a < 256 → r < 256 → g < 256 → b < 256 → IsPremultiplied (argb a r g b)
argb-IsPremultiplied a r g b ha hr hg hb = record {
  blue_le = scaled-le b a hb ha;
  green_le = scaled-le g a hg ha;
  red_le = scaled-le r a hr ha;
  byte = ha;
}

abbrev pub IsByte : ℕ → Type 0
IsByte b = b < 256

abbrev pub IsByteOr : Option ℕ → Type 0
IsByteOr none = Unit
IsByteOr (some b) = b < 256

read-IsByteOr : (bytes : Bytes) (i : ℕ) → All IsByte bytes → IsByteOr (read bytes i)
read-IsByteOr [] i h = tt
read-IsByteOr (x ∷ bytes) zero h = h.0
read-IsByteOr (x ∷ bytes) (suc i) h = read-IsByteOr bytes i h.1

-- A pixel that is read is premultiplied.
abbrev pub IsPixel : Option Pixel → Type 0
IsPixel none = Unit
IsPixel (some p) = IsPremultiplied p

pixel_of-IsPixel :
    (last : Bool) (a b c d : Option ℕ)
    → IsByteOr a
    → IsByteOr b
    → IsByteOr c
    → IsByteOr d
    → IsPixel (pixel_of last a b c d)
pixel_of-IsPixel true (some a) (some b) (some c) (some d) ha hb hc hd =
    argb-IsPremultiplied d a b c hd ha hb hc
pixel_of-IsPixel false (some a) (some b) (some c) (some d) ha hb hc hd =
    argb-IsPremultiplied a b c d ha hb hc hd
pixel_of-IsPixel last none b c d ha hb hc hd = tt
pixel_of-IsPixel last (some a) none c d ha hb hc hd = tt
pixel_of-IsPixel last (some a) (some b) none d ha hb hc hd = tt
pixel_of-IsPixel last (some a) (some b) (some c) none ha hb hc hd = tt

-- What holds of the first and of the rest holds of the list, as far as both are read.
abbrev pub HasLength {ℓ} : {A : Type ℓ} → (A → Type 0) → ℕ → Option (List A) → Type 0
HasLength P n none = Unit
HasLength P n (some l) = All P l × (length l ≡ n)

abbrev pub Read {ℓ} : {A : Type ℓ} → (A → Type 0) → Option A → Type 0
Read P none = Unit
Read P (some a) = P a

cons_if-HasLength {ℓ} :
    {A : Type ℓ} (P : A → Type 0) (n : ℕ) (a : Option A) (l : Option (List A))
    → Read P a
    → HasLength P n l
    → HasLength P (suc n) (cons_if a l)
cons_if-HasLength P n none l h k = tt
cons_if-HasLength P n (some a) none h k = tt
cons_if-HasLength P n (some a) (some l) h k = ((h, k.0), ap suc k.1)

module _ (bytes : Bytes) (h : All IsByte bytes) (last : Bool) where
  pixel-IsPixel : (at : ℕ) → Read IsPremultiplied (pixmap_pixel bytes last at)
  unfolding pixmap_pixel
  pixel-IsPixel at =
      read_of
        (pixel_of last (read bytes (at + 0)) (read bytes (at + 1)) (read bytes (at + 2))
          (read bytes (at + 3)))
        (pixel_of-IsPixel last (read bytes (at + 0)) (read bytes (at + 1)) (read bytes (at + 2))
          (read bytes (at + 3)) (read-IsByteOr bytes (at + 0) h) (read-IsByteOr bytes (at + 1) h)
          (read-IsByteOr bytes (at + 2) h) (read-IsByteOr bytes (at + 3) h))
    where
      read_of : (p : Option Pixel) → IsPixel p → Read IsPremultiplied p
      read_of none k = tt
      read_of (some p) k = k

  row-HasLength :
      (row left x : ℕ) → HasLength IsPremultiplied left (pixmap_row bytes last row left x)
  unfolding pixmap_row
  row-HasLength row zero x = (tt, refl)
  row-HasLength row (suc left) x =
      cons_if-HasLength IsPremultiplied left (pixmap_pixel bytes last (row + x * 4))
        (pixmap_row bytes last row left (x + 1)) (pixel-IsPixel (row + x * 4))
        (row-HasLength row left (x + 1))

  abbrev FullRow : ℕ → List Pixel → Type 0
  FullRow w row = All IsPremultiplied row × (length row ≡ w)

  rows-HasLength : (w left y : ℕ) → HasLength (FullRow w) left (pixmap_rows bytes last w left y)
  unfolding pixmap_rows
  rows-HasLength w zero y = (tt, refl)
  rows-HasLength w (suc left) y =
      cons_if-HasLength (FullRow w) left (pixmap_row bytes last (y * (w * 4)) w 0)
        (pixmap_rows bytes last w left (y + 1))
        (as_read (pixmap_row bytes last (y * (w * 4)) w 0) (row-HasLength (y * (w * 4)) w 0))
        (rows-HasLength w left (y + 1))
    where
      as_read : (r : Option (List Pixel)) → HasLength IsPremultiplied w r → Read (FullRow w) r
      as_read none k = tt
      as_read (some r) k = k

checked_same : (p q : Pixmap) → checked_pixmap p ≡ some q → p ≡ q
unfolding checked_pixmap
checked_same p q e = ground arith

better-bytes :
    (best : Pixmap) (o : Offer)
    → All IsByte best.bytes
    → All IsByte o.bytes
    → All IsByte (better best o).bytes
unfolding better
better-bytes best o hb ho =
    elim (Bool-cases (
      is_usable o
      && ltb_ℤ (int_product best.w best.h) (int_product (pos_part o.w) (pos_part o.h)))) [
        | inl e ↦ rw e ho
        | inr e ↦ rw e hb
      ]

best-bytes :
    (best : Pixmap) (offers : List Offer)
    → All IsByte best.bytes
    → All (λ o. All IsByte o.bytes) offers
    → All IsByte (best_pixmap best offers).bytes
unfolding best_pixmap
best-bytes best [] hb h = hb
best-bytes best (o ∷ offers) hb h =
    best-bytes (better best o) offers (better-bytes best o hb h.0) h.1

surface-HasLength :
    (p : Pixmap) (last : Option Bool)
    → All IsByte p.bytes
    → HasLength (λ row. All IsPremultiplied row × (length row ≡ p.w)) p.h (rows_of p last)
surface-HasLength p none h = tt
surface-HasLength p (some last) h = rows-HasLength p.bytes h last p.w p.h 0

of_rows :
    (w h : ℕ) (r : Option (List (List Pixel))) (rows : List (List Pixel))
    → r ≡ some rows
    → HasLength (λ row. All IsPremultiplied row × (length row ≡ w)) h r
    → All (λ row. All IsPremultiplied row × (length row ≡ w)) rows × (length rows ≡ h)
of_rows w h r rows e k =
    subst (λ t. HasLength (λ row. All IsPremultiplied row × (length row ≡ w)) h t) e k

made-IsPremultiplied :
    (p : Pixmap) (o : Option Pixmap) (rows : List (List Pixel))
    → All IsByte p.bytes
    → ((q : Pixmap) → o ≡ some q → p ≡ q)
    → pixmap_surface o ≡ some rows
    → All (λ row. All IsPremultiplied row × (length row ≡ p.w)) rows × (length rows ≡ p.h)
unfolding pixmap_surface
made-IsPremultiplied p none rows hb f e = absurd (ground arith)
made-IsPremultiplied p (some q) rows hb f e =
    of_rows p.w p.h (rows_of p (alpha_is_byte3 p)) rows
      (ap (λ t. rows_of t (alpha_is_byte3 t)) (f q refl) ∙ e)
      (surface-HasLength p (alpha_is_byte3 p) hb)

-- The surface that `sni_fetch_icon_pixmap_prop` makes from an answer of bytes has a row for each
-- unit of the height of the chosen pixmap and a pixel for each of its width, and is premultiplied as
-- cairo wants it.
pub fetch_icon_pixmap-IsPremultiplied :
    (offers : List Offer) (rows : List (List Pixel))
    → All (λ o. All IsByte o.bytes) offers
    → fetch_icon_pixmap offers ≡ some rows
    → All (λ row. All IsPremultiplied row × (length row ≡ (best_pixmap nothing offers).w)) rows
      × (length rows ≡ (best_pixmap nothing offers).h)
unfolding fetch_icon_pixmap
fetch_icon_pixmap-IsPremultiplied offers rows h e =
    made-IsPremultiplied (best_pixmap nothing offers) (checked_pixmap (best_pixmap nothing offers))
      rows (best-bytes nothing offers tt h) (λ q f. checked_same (best_pixmap nothing offers) q f) e
