-- ===== src/Text/Equal.antt =====
-- String comparison decides equality.
use nizam.Prelude.{◌≡◌, refl, true, [], ◌∷◌, arith}
use nizam.Text.{Bytes, str_eq}

pub str_eq_refl : (a : Bytes) → str_eq a a ≡ true
unfolding str_eq
str_eq_refl [] = refl
str_eq_refl (x ∷ a) = ground (arith, str_eq_refl a)

pub eq_of_str_eq : (a b : Bytes) → str_eq a b ≡ true → a ≡ b
unfolding str_eq
eq_of_str_eq [] [] h = refl
eq_of_str_eq [] (y ∷ b) h = ground arith
eq_of_str_eq (x ∷ a) [] h = ground arith
eq_of_str_eq (x ∷ a) (y ∷ b) h = ground (arith, eq_of_str_eq a b)
