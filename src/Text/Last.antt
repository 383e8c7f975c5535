-- ===== src/Text/Last.antt =====
-- The last place of a byte in a text.
use nizam.Prelude.{ℕ, ◌≡◌, refl, ap, false, [], ◌∷◌, ◌++◌, arith, ◌==◌, none, some, length, take}
use nizam.Text.{Bytes, last_index, has_char}

pub last_index-append :
    (c : ℕ) (d base : Bytes)
    → last_index c base ≡ none
    → last_index c (d ++ c ∷ base) ≡ some (length d)
unfolding last_index
last_index-append c [] base h = rw h (ground arith)
last_index-append c (x ∷ d) base h = rw (last_index-append c d base h)

pub take-length : (s t : Bytes) → take (length s) (s ++ t) ≡ s
take-length [] t = refl
take-length (c ∷ s) t = ap (λ r. c ∷ r) (take-length s t)

pub last_index-none : (c : ℕ) (s : Bytes) → has_char c s ≡ false → last_index c s ≡ none
unfolding last_index has_char
last_index-none c [] h = refl
last_index-none c (x ∷ s) h =
    let head : (x == c) ≡ false = ground arith in
    let rest : has_char c s ≡ false = ground arith in rw (last_index-none c s rest, head)
