-- ===== src/Dock/Surfaces/Name/Base.antt =====
-- The name under which the dock caches an icon keeps its base name only, and fits its buffer.
use nizam.Prelude.{
  ℕ, zero, suc, ◌+◌, ◌-◌, ◌<◌, ◌≡◌, ◌≢◌, ◌∙◌, refl, sym, ap, Bool, false, [], ◌∷◌, ◌++◌, map, arith,
  leb, none, some, length, length-append, length-take, take, drop, Bool-cases, inl, inr, lt→ltb,
}
use nizam.Text.{Bytes, lower, trim_len, last_index}
use nizam.Text.Last.{last_index-append}
use nizam.Text.Trim.{StartsClear, EndsClear, EndsClear-append, trim_len_clear}
use nizam.Dock.Surfaces.Name.{
  is_blank, trim_left, trim_right, after_slash, before_dot, lower_name, icon_normalize,
}

length-map : (f : ℕ → ℕ) (s : Bytes) → length (map f s) ≡ length s
length-map f [] = refl
length-map f (c ∷ s) = ap suc (length-map f s)

length-lower_name : (n : ℕ) (p : Bytes × ℕ) → 0 < n → length (lower_name n p) < n
length-lower_name n (s, k) h =
    let cut = take (before_dot k (last_index b'.' (take k s))) s in
    omega (arith, length-map lower (take (n - 1) cut), length-take (n - 1) cut)

-- The name that `nizam_dock_icon_normalize` writes leaves room for the closing NUL in a buffer that
-- is not empty.
pub length-icon_normalize :
    (text : Bytes) (out_len : ℕ) → 0 < out_len → length (icon_normalize text out_len) < out_len
unfolding icon_normalize
length-icon_normalize text out_len h =
    let start = trim_left text in
    let len = trim_right text (length text) in
    let s = drop start text in
    elim (Bool-cases (leb len start)) [
      | inl e ↦ rw e h
      | inr e ↦ rw e (length-lower_name out_len (after_slash s (len - start) (last_index b'/' s)) h)
    ]

-- A slash stops the blanks in front.
trim_left_dir :
    (dir base : Bytes)
    → (rest : Bytes) × (drop (trim_left (dir ++ b'/' ∷ base)) (dir ++ b'/' ∷ base)
        ≡ rest ++ b'/' ∷ base)
      × (trim_left (dir ++ b'/' ∷ base) + length rest ≡ length dir)
unfolding trim_left
trim_left_dir [] base = ([], refl, refl)
trim_left_dir (c ∷ dir) base = elim (Bool-cases (is_blank c)) [
  | inl e ↦ let (rest, d, n) = trim_left_dir dir base in rw e (rest, d, omega (arith, n))
  | inr e ↦ rw e (c ∷ dir, refl, omega arith)
]

trim_len_all :
    (test : ℕ → Bool) (s : Bytes) → EndsClear test s → trim_len test s (length s) ≡ length s
unfolding trim_len
trim_len_all test [] h = refl
trim_len_all test (c ∷ s) h = rw (trim_len_clear test c s h, trim_len)

trim_right_clear : (s : Bytes) → EndsClear is_blank s → trim_right s (length s) ≡ length s
unfolding trim_right
trim_right_clear s h = trim_len_all is_blank s h

drop_past : (x n : ℕ) (d base : Bytes) → n ≡ length d + 1 → drop n (d ++ x ∷ base) ≡ base
drop_past x zero [] base h = absurd (omega arith)
drop_past x (suc zero) [] base h = refl
drop_past x (suc (suc n)) [] base h = absurd (omega arith)
drop_past x zero (y ∷ d) base h = absurd (omega arith)
drop_past x (suc n) (y ∷ d) base h = drop_past x n d base (omega arith)

trim_left_clear : (s : Bytes) → StartsClear is_blank s → trim_left s ≡ 0
unfolding trim_left
trim_left_clear [] h = refl
trim_left_clear (c ∷ s) h = rw h

after_slash_dir :
    (d base : Bytes) (n : ℕ)
    → 0 < length base
    → n ≡ length d + 1 + length base
    → after_slash (d ++ b'/' ∷ base) n (some (length d)) ≡ (base, length base)
after_slash_dir d base n h e =
    rw (lt→ltb (length d + 1) n (omega arith), drop_past b'/' (length d + 1) d base refl)
      (ap (λ (t : ℕ). (base, t)) (omega arith))

module _ (base : Bytes) (h : StartsClear is_blank base) (g : EndsClear is_blank base)
    (flat : last_index b'/' base ≡ none) (n : ℕ) where
  base_alone : 0 < length base → icon_normalize base n ≡ lower_name n (base, length base)
  unfolding icon_normalize
  base_alone pos =
      let long : leb (length base) 0 ≡ false = ground arith in
      let whole : length base - 0 ≡ length base = omega arith in
      rw (trim_left_clear base h, trim_right_clear base g, flat, long, whole) refl

  in_directory :
      (dir : Bytes)
      → 0 < length base
      → EndsClear is_blank (dir ++ b'/' ∷ base)
      → icon_normalize (dir ++ b'/' ∷ base) n ≡ lower_name n (base, length base)
  unfolding icon_normalize
  in_directory dir pos clear =
      let text = dir ++ b'/' ∷ base in
      let (rest, d, m) = trim_left_dir dir base in
      let size = length-append dir (b'/' ∷ base) in
      let long : leb (length text) (trim_left text) ≡ false = ground (arith, size, m) in
      rw (trim_right_clear text clear, long, d, last_index-append b'/' rest base flat)
        (ap (lower_name n)
          (after_slash_dir rest base (length text - trim_left text) pos (omega (arith, size, m))))

-- An icon is cached under its base name, whatever the directory: a base name that is not empty, has
-- no slash and no blank at either end is normalized to the same name with any directory in front as
-- alone.
pub icon_normalize_base :
    (dir base : Bytes) (out_len : ℕ)
    → base ≢ []
    → StartsClear is_blank base
    → EndsClear is_blank base
    → last_index b'/' base ≡ none
    → icon_normalize (dir ++ b'/' ∷ base) out_len ≡ icon_normalize base out_len
icon_normalize_base dir [] out_len ne h g flat = absurd (ne refl)
icon_normalize_base dir (c ∷ base) out_len ne h g flat =
    in_directory (c ∷ base) h g flat out_len dir (omega arith) (
      EndsClear-append is_blank dir b'/' (c ∷ base)
        (EndsClear-append is_blank (b'/' ∷ []) c base g))
    ∙ sym (base_alone (c ∷ base) h g flat out_len (omega arith))
