-- ===== src/Dock/Pixels.antt =====
-- The pixels of icons: `surface_from_pixbuf` of nizam-dock/src/icon_surface_cache.c, and the pixmaps
-- of status notifier items, `sni_fetch_icon_pixmap_prop` of nizam-dock/src/sni.c. Cairo wants the
-- colours multiplied by the alpha; bytes stand in the order of a little-endian machine.
pub mod Pixmap
use nizam.Prelude.{
  ℕ, zero, suc, ◌+◌, ◌*◌, ◌/◌, ◌%◌, ◌≤◌, ◌<◌, ◌≡◌, Bool, List, [], ◌∷◌, ◌++◌, arith, ltb, ◌==◌,
  if◌then◌else◌, length, All, get_or, not, min, ◌&&◌,
}
use nizam.Text.{Bytes}

-- `(unsigned char)((c * a + 127) / 255)`
unfoldable pub premultiply : ℕ → ℕ → ℕ
premultiply c a = (c * a + 127) / 255 % 256

-- What a pixel of the surface holds.
pub record Pixel : Type 0 where
  pub blue : ℕ
  pub green : ℕ
  pub red : ℕ
  pub alpha : ℕ

-- The pixel at `at`; `px i` is byte `i` of the pixbuf, and without alpha it is 255.
unfoldable pub pixbuf_pixel : (ℕ → ℕ) → Bool → ℕ → Pixel
unfolding premultiply
pixbuf_pixel px has_alpha at =
    let a = if has_alpha then px (at + 3) else 255 in
    record {
      blue = premultiply (px (at + 2)) a;
      green = premultiply (px (at + 1)) a;
      red = premultiply (px at) a;
      alpha = a;
    }

-- `for (int x = 0; x < w; ++x)`, with `left` rounds to go.
unfoldable pub pixbuf_row : (ℕ → ℕ) → ℕ → Bool → ℕ → ℕ → ℕ → List Pixel
unfolding pixbuf_pixel
pixbuf_row px channels has_alpha row zero x = []
pixbuf_row px channels has_alpha row (suc left) x =
    pixbuf_pixel px has_alpha (row + x * channels)
    ∷ pixbuf_row px channels has_alpha row left (x + 1)

-- `for (int y = 0; y < h; ++y)`
unfoldable pub pixbuf_rows : (ℕ → ℕ) → ℕ → ℕ → Bool → ℕ → ℕ → ℕ → List (List Pixel)
unfolding pixbuf_row
pixbuf_rows px stride channels has_alpha w zero y = []
pixbuf_rows px stride channels has_alpha w (suc left) y =
    pixbuf_row px channels has_alpha (y * stride) w 0
    ∷ pixbuf_rows px stride channels has_alpha w left (y + 1)

-- A surface has a colour for each pixel that is at most its alpha.
pub record IsPremultiplied (p : Pixel) : Type 0 where
  pub blue_le : p.blue ≤ p.alpha
  pub green_le : p.green ≤ p.alpha
  pub red_le : p.red ≤ p.alpha
  pub byte : p.alpha < 256

pub premultiply-le : (c a : ℕ) → c < 256 → a < 256 → premultiply c a ≤ a
unfolding premultiply
premultiply-le c a hc ha = let product : c * a ≤ 255 * a = grind arith in omega (arith, product)

pub premultiply_opaque : (c : ℕ) → c < 256 → premultiply c 255 ≡ c
unfolding premultiply
premultiply_opaque c h = omega arith

module _ (px : ℕ → ℕ) (bytes : (i : ℕ) → px i < 256) where
  pub pixbuf_pixel-IsPremultiplied :
      (has_alpha : Bool) (at : ℕ) → IsPremultiplied (pixbuf_pixel px has_alpha at)
  unfolding pixbuf_pixel
  pixbuf_pixel-IsPremultiplied has_alpha at =
      let a = if has_alpha then px (at + 3) else 255 in
      let ha : a < 256 = ground (arith, bytes (at + 3)) in
      record {
        blue_le = premultiply-le (px (at + 2)) a (bytes (at + 2)) ha;
        green_le = premultiply-le (px (at + 1)) a (bytes (at + 1)) ha;
        red_le = premultiply-le (px at) a (bytes at) ha;
        byte = ha;
      }

  pub pixbuf_row-IsPremultiplied :
      (channels : ℕ) (has_alpha : Bool) (row left x : ℕ)
      → All IsPremultiplied (pixbuf_row px channels has_alpha row left x)
        × (length (pixbuf_row px channels has_alpha row left x) ≡ left)
  unfolding pixbuf_row
  pixbuf_row-IsPremultiplied channels has_alpha row zero x = (tt, omega arith)
  pixbuf_row-IsPremultiplied channels has_alpha row (suc left) x =
      let (rest, n) = pixbuf_row-IsPremultiplied channels has_alpha row left (x + 1) in
      ((pixbuf_pixel-IsPremultiplied has_alpha (row + x * channels), rest), omega (arith, n))

  -- Every pixel that `surface_from_pixbuf` writes from bytes has an alpha that is a byte and
  -- colours that are at most the alpha, as cairo wants them, and there are as many rows as the
  -- height, each with as many pixels as the width.
  pub pixbuf_rows-IsPremultiplied :
      (stride channels : ℕ) (has_alpha : Bool) (w left y : ℕ)
      → All
          (λ row. All IsPremultiplied row × (length row ≡ w))
          (pixbuf_rows px stride channels has_alpha w left y)
        × (length (pixbuf_rows px stride channels has_alpha w left y) ≡ left)
  unfolding pixbuf_rows
  pixbuf_rows-IsPremultiplied stride channels has_alpha w zero y = (tt, omega arith)
  pixbuf_rows-IsPremultiplied stride channels has_alpha w (suc left) y =
      let (rest, n) = pixbuf_rows-IsPremultiplied stride channels has_alpha w left (y + 1) in
      ((pixbuf_row-IsPremultiplied channels has_alpha (y * stride) w 0, rest), omega (arith, n))
