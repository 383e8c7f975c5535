-- ===== src/Prelude/Int.antt =====
-- Signed integers over the native numbers, under the library's names (its ℤ stands on another ℕ).
-- A C `int` is such an integer: the program does no arithmetic on it that is meant to wrap.
use nizam.Prelude.{
  ℕ, suc, ◌+◌, ◌-◌, ◌*◌, ◌/◌, ◌≤◌, ◌≡◌, Bool, arith, ltb, leb, if◌then◌else◌, ◌==◌, ◌&&◌,
}

-- `negsuc n` is -(n + 1).
pub data ℤ : Type 0 where
  pos : ℕ → ℤ
  negsuc : ℕ → ℤ

abbrev pub pos_part : ℤ → ℕ
pos_part (pos n) = n
pos_part (negsuc n) = 0

abbrev pub neg_part : ℤ → ℕ
neg_part (pos n) = 0
neg_part (negsuc n) = suc n

-- a - b, as an integer.
abbrev pub sub_ℕ : ℕ → ℕ → ℤ
sub_ℕ a b = if leb b a then pos (a - b) else negsuc (b - a - 1)

infixl 65 ◌+ℤ◌ ◌-ℤ◌
infixl 70 ◌*ℤ◌
infix 50 ◌≤ℤ◌ ◌<ℤ◌
unfoldable pub ◌+ℤ◌ : ℤ → ℤ → ℤ
a +ℤ b = sub_ℕ (pos_part a + pos_part b) (neg_part a + neg_part b)

unfoldable pub ◌-ℤ◌ : ℤ → ℤ → ℤ
a -ℤ b = sub_ℕ (pos_part a + neg_part b) (neg_part a + pos_part b)

unfoldable pub ◌*ℤ◌ : ℤ → ℤ → ℤ
a *ℤ b =
    sub_ℕ (pos_part a * pos_part b + neg_part a * neg_part b)
      (pos_part a * neg_part b + neg_part a * pos_part b)

-- Division by a positive number as C does it: toward zero.
unfoldable pub ◌/ℤ◌ : ℤ → ℕ → ℤ
a /ℤ n = sub_ℕ (pos_part a / n) (neg_part a / n)

infixl 70 ◌/ℤ◌
abbrev pub ◌≤ℤ◌ : ℤ → ℤ → Type 0
a ≤ℤ b = pos_part a + neg_part b ≤ pos_part b + neg_part a

abbrev pub ◌<ℤ◌ : ℤ → ℤ → Type 0
a <ℤ b = suc (pos_part a + neg_part b) ≤ pos_part b + neg_part a

abbrev pub ltb_ℤ : ℤ → ℤ → Bool
ltb_ℤ a b = ltb (pos_part a + neg_part b) (pos_part b + neg_part a)

abbrev pub leb_ℤ : ℤ → ℤ → Bool
leb_ℤ a b = leb (pos_part a + neg_part b) (pos_part b + neg_part a)

abbrev pub eqb_ℤ : ℤ → ℤ → Bool
eqb_ℤ a b = pos_part a + neg_part b == pos_part b + neg_part a

-- One lemma for each operation lets `omega` work with the operations shut, at any depth.
pub +ℤ_parts :
    (a b : ℤ)
    → pos_part (a +ℤ b) + neg_part a + neg_part b ≡ neg_part (a +ℤ b) + pos_part a + pos_part b
unfolding ◌+ℤ◌
+ℤ_parts a b = ground arith

pub -ℤ_parts :
    (a b : ℤ)
    → pos_part (a -ℤ b) + neg_part a + pos_part b ≡ neg_part (a -ℤ b) + pos_part a + neg_part b
unfolding ◌-ℤ◌
-ℤ_parts a b = ground arith

pub eq_of_parts : (a b : ℤ) → pos_part a + neg_part b ≡ pos_part b + neg_part a → a ≡ b
eq_of_parts a b h = ground arith

pub ruleset int_laws = (arith, +ℤ_parts, -ℤ_parts, eq_of_parts)

-- `if (y > hi) y = hi;`
unfoldable pub at_most : ℤ → ℤ → ℤ
at_most hi y = if ltb_ℤ hi y then hi else y

-- `if (y < lo) y = lo;`
unfoldable pub at_least : ℤ → ℤ → ℤ
at_least lo y = if ltb_ℤ y lo then lo else y

module _ (b y : ℤ) where
  pub at_most-le_bound : at_most b y ≤ℤ b
  unfolding at_most
  at_most-le_bound = ground arith

  pub at_most-le : at_most b y ≤ℤ y
  unfolding at_most
  at_most-le = ground arith

  pub le-at_least_bound : b ≤ℤ at_least b y
  unfolding at_least
  le-at_least_bound = ground arith

  pub le-at_least : y ≤ℤ at_least b y
  unfolding at_least
  le-at_least = ground arith

  pub le-at_most : (a : ℤ) → a ≤ℤ b → a ≤ℤ y → a ≤ℤ at_most b y
  unfolding at_most
  le-at_most a h k = ground arith

  pub at_least-le : (c : ℤ) → b ≤ℤ c → y ≤ℤ c → at_least b y ≤ℤ c
  unfolding at_least
  at_least-le c h k = ground arith

  pub at_most-eq_of_le : y ≤ℤ b → at_most b y ≡ y
  unfolding at_most
  at_most-eq_of_le h = ground arith

  pub at_least-eq_of_le : b ≤ℤ y → at_least b y ≡ y
  unfolding at_least
  at_least-eq_of_le h = ground arith
