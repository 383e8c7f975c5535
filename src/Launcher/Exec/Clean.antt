-- ===== src/Launcher/Exec/Clean.antt =====
-- What a sanitized command can hold.
use nizam.Prelude.{
  ℕ, zero, suc, ◌-◌, ◌≤◌, ◌<◌, ◌≡◌, ◌≢◌, refl, Bool, [], ◌∷◌, arith, ◌==◌, Bool-cases, inl, inr,
  length, take, All,
}
use nizam.Text.{Bytes, skip_while, trim_len, cut_right}
use nizam.Text.Trim.{
  StartsClear, EndsClear, skip_while-StartsClear, skip_while-EndsClear, cut_right-EndsClear,
  skip_while_id, cut_right_id, length-skip_while, length-cut_right,
}
use nizam.Launcher.Exec.{is_trailing, is_blank, str_trim, strip_codes, sanitize_exec}

abbrev pub Lacks : ℕ → Bytes → Type 0
Lacks c = All (λ x. x ≢ c)

Lacks-strip_codes : (room : ℕ) (s : Bytes) → Lacks b'%' (strip_codes room s)
unfolding strip_codes
Lacks-strip_codes zero s = tt
Lacks-strip_codes (suc room) [] = tt
Lacks-strip_codes (suc room) (c ∷ []) = ground arith
Lacks-strip_codes (suc room) (c ∷ d ∷ s) = elim (Bool-cases (c == b'%')) [
  | inl e ↦ rw (e, strip_codes) (Lacks-strip_codes (suc room) s)
  | inr e ↦ rw (e, strip_codes) (ground arith, Lacks-strip_codes room (d ∷ s))
]

length-strip_codes : (room : ℕ) (s : Bytes) → length (strip_codes room s) ≤ room
unfolding strip_codes
length-strip_codes zero s = omega arith
length-strip_codes (suc room) [] = omega arith
length-strip_codes (suc room) (c ∷ []) = ground arith
length-strip_codes (suc room) (c ∷ d ∷ s) =
    ground (arith, length-strip_codes (suc room) s, length-strip_codes room (d ∷ s))

-- Without a '%' and within the room the loop copies.
strip_codes_id : (room : ℕ) (s : Bytes) → Lacks b'%' s → length s ≤ room → strip_codes room s ≡ s
unfolding strip_codes
strip_codes_id zero [] h k = refl
strip_codes_id zero (c ∷ s) h k = absurd (omega arith)
strip_codes_id (suc room) [] h k = refl
strip_codes_id (suc room) (c ∷ []) h k = ground arith
strip_codes_id (suc room) (c ∷ d ∷ s) h k =
    ground (arith, strip_codes_id room (d ∷ s) h.1 (omega arith))

module _ (P : ℕ → Type 0) where
  All-take : (n : ℕ) (s : Bytes) → All P s → All P (take n s)
  All-take zero s h = tt
  All-take (suc n) [] h = tt
  All-take (suc n) (c ∷ s) h = (h.0, All-take n s h.1)

  All-skip_while : (test : ℕ → Bool) (s : Bytes) → All P s → All P (skip_while test s)
  unfolding skip_while
  All-skip_while test [] h = tt
  All-skip_while test (c ∷ s) h = elim (Bool-cases (test c)) [
    | inl e ↦ rw e (All-skip_while test s h.1)
    | inr e ↦ rw e h
  ]

  All-str_trim : (s : Bytes) → All P s → All P (str_trim s)
  unfolding str_trim
  All-str_trim s h =
      All-skip_while is_blank (cut_right is_trailing s) (All-take (trim_len is_trailing s _) s h)

length-str_trim : (s : Bytes) → length (str_trim s) ≤ length s
unfolding str_trim
length-str_trim s =
    omega
      (arith, length-skip_while is_blank (cut_right is_trailing s), length-cut_right is_trailing s)

pub str_trim_clear :
    (s : Bytes) → StartsClear is_blank (str_trim s) × EndsClear is_trailing (str_trim s)
unfolding str_trim
str_trim_clear s = (
  skip_while-StartsClear is_blank (cut_right is_trailing s),
  skip_while-EndsClear is_trailing is_blank (cut_right is_trailing s)
      (cut_right-EndsClear is_trailing s),
)

pub str_trim_id : (s : Bytes) → StartsClear is_blank s → EndsClear is_trailing s → str_trim s ≡ s
unfolding str_trim
str_trim_id s h k = rw (cut_right_id is_trailing s k) (skip_while_id is_blank s h)

-- A sanitized command holds no field code and no '%' at all, fits its buffer with the closing NUL,
-- and has no blank at its start and no blank or line end at its end.
pub sanitize_exec_clean :
    (s : Bytes) (out_len : ℕ)
    → 0 < out_len
    → Lacks b'%' (sanitize_exec s out_len)
      × (length (sanitize_exec s out_len) < out_len)
      × StartsClear is_blank (sanitize_exec s out_len)
      × EndsClear is_trailing (sanitize_exec s out_len)
unfolding sanitize_exec
sanitize_exec_clean s out_len h =
    let t = strip_codes (out_len - 1) s in
    (
      All-str_trim (λ x. x ≢ b'%') t (Lacks-strip_codes (out_len - 1) s),
      omega (arith, length-str_trim t, length-strip_codes (out_len - 1) s),
      (str_trim_clear t).0,
      (str_trim_clear t).1,
    )

-- Sanitizing a sanitized command changes nothing.
pub sanitize_exec_idempotent :
    (s : Bytes) (out_len : ℕ)
    → 0 < out_len
    → sanitize_exec (sanitize_exec s out_len) out_len ≡ sanitize_exec s out_len
unfolding sanitize_exec
sanitize_exec_idempotent s out_len h =
    let (lacks, fits, starts, ends) = sanitize_exec_clean s out_len h in
    rw (strip_codes_id (out_len - 1) (sanitize_exec s out_len) lacks (omega arith))
      (str_trim_id (sanitize_exec s out_len) starts ends)
