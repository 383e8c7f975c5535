-- ===== src/Launcher/Category/Pick.antt =====
-- The category of a launcher: `pick_category_mapped` against the split at the semicolons.
use nizam.Prelude.{
  ℕ, zero, suc, ◌≤◌, ◌<◌, ◌≡◌, ◌⊎◌, refl, ap, ◌∙◌, sym, true, false, List, [], ◌∷◌, arith, ◌==◌,
  if◌then◌else◌, Bool-cases, Option, none, some, inl, inr, length,
}
use nizam.Text.{Bytes, skip_while, cut_right}
use nizam.Text.Trim.{length-skip_while, StartsClear, skip_while-StartsClear}
use nizam.Launcher.Exec.{is_blank}
use nizam.Launcher.Category.{
  map_category_token, is_gap, not_semicolon, span_while, token_of, skip_one, pick_loop,
}

-- The fields of a list of categories, cut at each ';'.
push : ℕ → List Bytes → List Bytes
push c [] = (c ∷ []) ∷ []
push c (f ∷ fs) = (c ∷ f) ∷ fs

pub fields : Bytes → List Bytes
unfolding push
fields [] = [] ∷ []
fields (c ∷ s) = if c == b';' then [] ∷ fields s else push c (fields s)

-- The bucket of one field, without its blanks.
unfoldable pub field_bucket : Bytes → Option Bytes
field_bucket f = map_category_token (token_of (skip_while is_blank f))

abbrev pub or_else : Option Bytes → Option Bytes → Option Bytes
or_else (some m) other = some m
or_else none other = other

-- The bucket of the first field that the table knows.
unfoldable pub first_mapped : List Bytes → Option Bytes
first_mapped [] = none
first_mapped (f ∷ fs) = or_else (field_bucket f) (first_mapped fs)

field_bucket-nil : field_bucket [] ≡ none
unfolding field_bucket token_of skip_while map_category_token cut_right
field_bucket-nil = refl

field_bucket-blank : (c : ℕ) (f : Bytes) → is_blank c ≡ true → field_bucket (c ∷ f) ≡ field_bucket f
unfolding field_bucket
field_bucket-blank c f h = ap (λ t. map_category_token (token_of t)) (unfold skip_while in rw h)

pub first_mapped-cons :
    (f : Bytes) (fs : List Bytes)
    → first_mapped (f ∷ fs) ≡ or_else (field_bucket f) (first_mapped fs)
unfolding first_mapped
first_mapped-cons f fs = refl

first_mapped-push :
    (c : ℕ) (fs : List Bytes) → is_blank c ≡ true → first_mapped (push c fs) ≡ first_mapped fs
unfolding push first_mapped
first_mapped-push c [] h = ground (arith, field_bucket-nil, field_bucket-blank c [] h)
first_mapped-push c (f ∷ fs) h = ground (arith, field_bucket-blank c f h)

gap_cases :
    (c : ℕ) → is_gap c ≡ true → ((c == b';') ≡ true) ⊎ ((c == b';') ≡ false) × (is_blank c ≡ true)
unfolding is_gap is_blank
gap_cases c h = ground arith

first_mapped-empty : (fs : List Bytes) → first_mapped ([] ∷ fs) ≡ first_mapped fs
unfolding first_mapped
first_mapped-empty fs = ground (arith, field_bucket-nil)

pub first_mapped-fields_nil : first_mapped (fields []) ≡ none
unfolding fields
first_mapped-fields_nil = first_mapped-empty [] ∙ (unfold first_mapped in refl)

first_mapped-gap :
    (c : ℕ) (s : Bytes) → is_gap c ≡ true → first_mapped (fields (c ∷ s)) ≡ first_mapped (fields s)
unfolding fields
first_mapped-gap c s h = elim (gap_cases c h) [
  | inl e ↦ rw e (first_mapped-empty (fields s))
  | inr (e, b) ↦ rw e (first_mapped-push c (fields s) b)
]

first_mapped-skip :
    (s : Bytes) → first_mapped (fields (skip_while is_gap s)) ≡ first_mapped (fields s)
unfolding skip_while
first_mapped-skip [] = refl
first_mapped-skip (c ∷ s) = elim (Bool-cases (is_gap c)) [
  | inl e ↦ rw (e, first_mapped-gap c s e) (first_mapped-skip s)
  | inr e ↦ rw e
]

fields_rest : Bytes → List Bytes
fields_rest [] = []
fields_rest (c ∷ s) = fields s

fields-span :
    (s : Bytes) → fields s ≡ span_while not_semicolon s ∷ fields_rest (skip_while not_semicolon s)
unfolding fields span_while skip_while not_semicolon fields_rest
fields-span [] = refl
fields-span (c ∷ s) = elim (Bool-cases (c == b';')) [
  | inl e ↦ rw e
  | inr e ↦ rw (e, fields-span s) (unfold push in refl)
]

first_mapped-rest :
    (s : Bytes)
    → first_mapped (fields_rest (skip_while not_semicolon s))
      ≡ first_mapped (fields (skip_one (skip_while not_semicolon s)))
unfolding skip_while not_semicolon
first_mapped-rest [] = unfold fields_rest first_mapped skip_one in sym first_mapped-fields_nil
first_mapped-rest (c ∷ s) = elim (Bool-cases (c == b';')) [
  | inl e ↦ rw e (unfold fields_rest skip_one in rw e)
  | inr e ↦ rw e (first_mapped-rest s)
]

length-skip_one : (s : Bytes) → length (skip_one s) ≤ length s
unfolding skip_one
length-skip_one [] = omega arith
length-skip_one (c ∷ s) = ground arith

-- A field in front of which the gaps are skipped is no blank at its start.
field_bucket-span :
    (c : ℕ) (s : Bytes)
    → is_gap c ≡ false
    → field_bucket (span_while not_semicolon (c ∷ s))
      ≡ map_category_token (token_of (span_while not_semicolon (c ∷ s)))
unfolding field_bucket span_while not_semicolon skip_while is_gap is_blank
field_bucket-span c s h = ground arith

length-next :
    (c : ℕ) (s : Bytes)
    → is_gap c ≡ false
    → length (skip_one (skip_while not_semicolon (c ∷ s))) ≤ length s
unfolding skip_while not_semicolon is_gap
length-next c s h =
    ground (arith, length-skip_one (skip_while not_semicolon s), length-skip_while not_semicolon s)

first_mapped-step :
    (c : ℕ) (s : Bytes)
    → is_gap c ≡ false
    → first_mapped (fields (c ∷ s))
      ≡ or_else
          (map_category_token (token_of (span_while not_semicolon (c ∷ s))))
          (first_mapped (fields (skip_one (skip_while not_semicolon (c ∷ s)))))
first_mapped-step c s h =
    rw (fields-span (c ∷ s), first_mapped-cons, field_bucket-span c s h, first_mapped-rest (c ∷ s))

-- With more fuel than bytes the loop ends, and finds the first field that the table knows.
pub pick_loop-first_mapped :
    (fuel : ℕ) (s : Bytes) → length s < fuel → pick_loop fuel s ≡ some (first_mapped (fields s))
unfolding pick_loop
pick_loop-first_mapped zero s h = absurd (omega arith)
pick_loop-first_mapped (suc fuel) s h =
    go (skip_while is_gap s) refl (skip_while-StartsClear is_gap s)
      (λ u k. pick_loop-first_mapped fuel u k)
  where
    go :
        (t : Bytes)
        → skip_while is_gap s ≡ t
        → StartsClear is_gap t
        → ((u : Bytes) → length u < fuel → pick_loop fuel u ≡ some (first_mapped (fields u)))
        → pick_loop (suc fuel) s ≡ some (first_mapped (fields s))
    go [] e c ih =
        rw (e, pick_loop)
          (ap some (
            sym first_mapped-fields_nil
            ∙ ap (λ u. first_mapped (fields u)) (sym e)
            ∙ first_mapped-skip s))
    go (x ∷ t) e c ih = ground (
      arith,
      e,
      first_mapped-skip s,
      first_mapped-step x t c,
      ih (skip_one (skip_while not_semicolon (x ∷ t))),
      length-next x t c,
      length-skip_while is_gap s,
    )
