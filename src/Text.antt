-- ===== src/Text.antt =====
-- C strings as lists of bytes without the closing NUL, and the functions of the C library (in the
-- "C" locale) that the program's string code calls.
pub mod Trim
pub mod Equal
pub mod Last
use Prim.Native.Char.{code}
use Prim.Native.String.{String}
use nizam.Prelude.{
  ℕ, zero, suc, ◌+◌, ◌-◌, Bool, true, false, ◌&&◌, ◌||◌, List, [], ◌∷◌, ◌++◌, map, ltb, leb, ◌==◌,
  if◌then◌else◌, length, get_or, take, Option, none, some,
}

abbrev pub Bytes : Type 0
Bytes = List ℕ

-- The bytes of an ASCII literal.
abbrev pub codes : String → Bytes
codes String.[] = []
codes (String.◌∷◌ c s) = code c ∷ codes s

-- `tolower`
unfoldable pub lower : ℕ → ℕ
lower c = if leb b'A' c && leb c b'Z' then c + 32 else c

-- `isspace`
unfoldable pub is_space : ℕ → Bool
is_space c = c == b' ' || (leb 9 c && leb c 13)

-- `strcmp(a, b) == 0`
unfoldable pub str_eq : Bytes → Bytes → Bool
str_eq [] [] = true
str_eq (x ∷ a) (y ∷ b) = x == y && str_eq a b
str_eq _ _ = false

-- `strcasecmp(a, b) == 0`
unfoldable pub case_eq : Bytes → Bytes → Bool
unfolding str_eq lower
case_eq a b = str_eq (map lower a) (map lower b)

-- `strchr(s, c) != NULL`
unfoldable pub has_char : ℕ → Bytes → Bool
has_char c [] = false
has_char c (x ∷ s) = x == c || has_char c s

-- `while (test(*s)) s++;`
unfoldable pub skip_while : (ℕ → Bool) → Bytes → Bytes
skip_while test [] = []
skip_while test (c ∷ s) = if test c then skip_while test s else c ∷ s

-- `while (n > 0 && test(s[n - 1])) n--;`
unfoldable pub trim_len : (ℕ → Bool) → Bytes → ℕ → ℕ
trim_len test s zero = 0
trim_len test s (suc n) = elim (test (get_or s n 0)) [ true ↦ trim_len test s n | false ↦ suc n ]

-- The loop above with `s[n - 1] = '\0'` for its body, from the end of the string.
unfoldable pub cut_right : (ℕ → Bool) → Bytes → Bytes
unfolding trim_len
cut_right test s = take (trim_len test s (length s)) s

-- `fgets` into a buffer of `room + 1` bytes, called until the end of the file: a piece ends behind
-- a newline, when the buffer is full, or with the file. `left` is the room still free.
unfoldable pub fgets_from : ℕ → ℕ → Bytes → Bytes → List Bytes
fgets_from room left [] [] = []
fgets_from room left (x ∷ cur) [] = (x ∷ cur) ∷ []
fgets_from room left cur (c ∷ rest) = elim (c == 10 || leb left 1) [
  | true ↦ (cur ++ c ∷ []) ∷ fgets_from room room [] rest
  | false ↦ fgets_from room (left - 1) (cur ++ c ∷ []) rest
]

unfoldable pub fgets_all : ℕ → Bytes → List Bytes
unfolding fgets_from
fgets_all size file = fgets_from (size - 1) (size - 1) [] file

abbrev pub or_here : Bool → Option ℕ → Option ℕ
or_here here (some i) = some (suc i)
or_here here none = if here then some 0 else none

-- Where a byte stands last: `strrchr`.
unfoldable pub last_index : ℕ → Bytes → Option ℕ
last_index c [] = none
last_index c (x ∷ s) = or_here (x == c) (last_index c s)

-- `snprintf` into a buffer of `n` bytes
abbrev pub fit : ℕ → Bytes → Bytes
fit n s = take (n - 1) s
