-- ===== src/Text/Trim.antt =====
-- What is left at the ends of a trimmed string.
use nizam.Prelude.{
  ℕ, zero, suc, ◌≤◌, ◌≡◌, refl, ap, Bool, false, [], ◌∷◌, ◌++◌, arith, Bool-cases, inl, inr, length,
  get_or, take, ◌<◌,
}
use nizam.Text.{Bytes, skip_while, trim_len, cut_right}

-- The first byte fails the test, or there is none.
abbrev pub StartsClear : (ℕ → Bool) → Bytes → Type 0
StartsClear test [] = Unit
StartsClear test (c ∷ s) = test c ≡ false

-- The last byte fails the test, or there is none.
abbrev pub EndsClear : (ℕ → Bool) → Bytes → Type 0
EndsClear test [] = Unit
EndsClear test (c ∷ []) = test c ≡ false
EndsClear test (c ∷ d ∷ s) = EndsClear test (d ∷ s)

pub skip_while-StartsClear : (test : ℕ → Bool) (s : Bytes) → StartsClear test (skip_while test s)
unfolding skip_while
skip_while-StartsClear test [] = tt
skip_while-StartsClear test (c ∷ s) = elim (Bool-cases (test c)) [
  | inl e ↦ rw e (skip_while-StartsClear test s)
  | inr e ↦ rw e e
]

pub skip_while_id : (test : ℕ → Bool) (s : Bytes) → StartsClear test s → skip_while test s ≡ s
unfolding skip_while
skip_while_id test [] h = refl
skip_while_id test (c ∷ s) h = rw h

EndsClear-tail : (test : ℕ → Bool) (c : ℕ) (s : Bytes) → EndsClear test (c ∷ s) → EndsClear test s
EndsClear-tail test c [] h = tt
EndsClear-tail test c (d ∷ s) h = h

pub skip_while-EndsClear :
    (test other : ℕ → Bool) (s : Bytes) → EndsClear test s → EndsClear test (skip_while other s)
unfolding skip_while
skip_while-EndsClear test other [] h = tt
skip_while-EndsClear test other (c ∷ s) h = elim (Bool-cases (other c)) [
  | inl e ↦ rw e (skip_while-EndsClear test other s (EndsClear-tail test c s h))
  | inr e ↦ rw e h
]

pub length-skip_while : (test : ℕ → Bool) (s : Bytes) → length (skip_while test s) ≤ length s
unfolding skip_while
length-skip_while test [] = omega arith
length-skip_while test (c ∷ s) = ground (arith, length-skip_while test s)

-- The byte in front of the cut fails the test.
trim_len_last :
    (test : ℕ → Bool) (s : Bytes) (n k : ℕ)
    → trim_len test s n ≡ suc k
    → test (get_or s k 0) ≡ false
unfolding trim_len
trim_len_last test s zero k h = absurd (omega arith)
trim_len_last test s (suc n) k h = ground (arith, trim_len_last test s n k)

pub trim_len-le : (test : ℕ → Bool) (s : Bytes) (n : ℕ) → trim_len test s n ≤ n
unfolding trim_len
trim_len-le test s zero = omega arith
trim_len-le test s (suc n) = ground (arith, trim_len-le test s n)

take-EndsClear :
    (test : ℕ → Bool) (s : Bytes) (k : ℕ)
    → k < length s
    → test (get_or s k 0) ≡ false
    → EndsClear test (take (suc k) s)
take-EndsClear test [] k b h = tt
take-EndsClear test (c ∷ s) zero b h = h
take-EndsClear test (c ∷ []) (suc k) b h = absurd (omega arith)
take-EndsClear test (c ∷ d ∷ s) (suc k) b h = take-EndsClear test (d ∷ s) k (omega arith) h

cut-EndsClear :
    (test : ℕ → Bool) (s : Bytes) (n : ℕ)
    → n ≡ trim_len test s (length s)
    → EndsClear test (take n s)
cut-EndsClear test s zero h = tt
cut-EndsClear test s (suc k) h =
    take-EndsClear test s k (omega (arith, trim_len-le test s (length s)))
      (trim_len_last test s (length s) k (omega arith))

pub cut_right-EndsClear : (test : ℕ → Bool) (s : Bytes) → EndsClear test (cut_right test s)
unfolding cut_right
cut_right-EndsClear test s = cut-EndsClear test s (trim_len test s (length s)) refl

-- A string that ends clear is not cut.
pub trim_len_clear :
    (test : ℕ → Bool) (c : ℕ) (s : Bytes)
    → EndsClear test (c ∷ s)
    → test (get_or (c ∷ s) (length s) 0) ≡ false
trim_len_clear test c [] h = h
trim_len_clear test c (d ∷ s) h = trim_len_clear test d s h

take_all : (s : Bytes) → take (length s) s ≡ s
take_all [] = refl
take_all (c ∷ s) = ap (◌∷◌ c) (take_all s)

pub cut_right_id : (test : ℕ → Bool) (s : Bytes) → EndsClear test s → cut_right test s ≡ s
unfolding cut_right trim_len
cut_right_id test [] h = refl
cut_right_id test (c ∷ s) h = rw (trim_len_clear test c s h, trim_len) (take_all (c ∷ s))

length-take-le : (n : ℕ) (s : Bytes) → length (take n s) ≤ length s
length-take-le zero s = omega arith
length-take-le (suc n) [] = omega arith
length-take-le (suc n) (c ∷ s) = omega (arith, length-take-le n s)

pub length-cut_right : (test : ℕ → Bool) (s : Bytes) → length (cut_right test s) ≤ length s
unfolding cut_right
length-cut_right test s = length-take-le (trim_len test s (length s)) s

pub EndsClear-append :
    (test : ℕ → Bool) (xs : Bytes) (y : ℕ) (ys : Bytes)
    → EndsClear test (y ∷ ys)
    → EndsClear test (xs ++ y ∷ ys)
EndsClear-append test [] y ys h = h
EndsClear-append test (x ∷ []) y ys h = h
EndsClear-append test (x ∷ z ∷ xs) y ys h = EndsClear-append test (z ∷ xs) y ys h
