-- ===== src/Dock/Notifier/Files/Ends.antt =====
-- The search for the file of an icon in a directory: what it finds, and when it ends.
use mathlib.Core.Path.{subst}
use nizam.Prelude.{
  ℕ, zero, suc, ◌≤◌, ◌<◌, ◌≡◌, ◌≢◌, ◌∙◌, refl, ap, Bool, true, false, List, [], ◌∷◌, ◌++◌, arith,
  none, some, length, take, length-take, Bool-cases, inl, inr, ◌⊎◌, take_of_length-le,
}
use nizam.Text.{Bytes, fit, codes}
use nizam.Dock.Notifier.Files.{
  FileSystem, first_readable, candidates, Found, or_search, is_empty, hicolor, in_files,
  icon_path_in_dir,
}

pub first_readable_reads :
    (fs : FileSystem) (n : ℕ) (l : List Bytes) (p : Bytes)
    → first_readable fs n l ≡ some p
    → fs.readable p ≡ true
unfolding first_readable
first_readable_reads fs n [] p e = absurd (ground arith)
first_readable_reads fs n (q ∷ l) p e = elim (Bool-cases (fs.readable (fit n q))) [
  | inl f ↦ let same : fit n q ≡ p = ground arith in subst (λ t. fs.readable t ≡ true) same f
  | inr f ↦ first_readable_reads fs n l p (rw f at e)
]

pub or_search-some :
    (a b : Found) (p : Bytes)
    → or_search a b ≡ some (some p)
    → (a ≡ some (some p)) ⊎ (b ≡ some (some p))
or_search-some none b p e = inl e
or_search-some (some none) b p e = inr e
or_search-some (some (some q)) b p e = inl e

pub or_search_ends : (a b : Found) → a ≢ none → b ≢ none → or_search a b ≢ none
or_search_ends none b ha hb = ha
or_search_ends (some none) b ha hb = hb
or_search_ends (some (some q)) b ha hb = ha

in_files_reads :
    (fs : FileSystem) (base name p : Bytes)
    → in_files fs base name ≡ some (some p)
    → fs.readable p ≡ true
unfolding in_files
in_files_reads fs base name p e = first_readable_reads fs 512 (candidates base name) p (cc)

in_files_ends : (fs : FileSystem) (base name : Bytes) → in_files fs base name ≢ none
unfolding in_files
in_files_ends fs base name = ground arith

-- A file that is found can be read.
pub icon_path_in_dir_reads :
    (fs : FileSystem) (fuel : ℕ) (base name p : Bytes)
    → icon_path_in_dir fs fuel base name ≡ some (some p)
    → fs.readable p ≡ true
unfolding icon_path_in_dir
icon_path_in_dir_reads fs zero base name p e = absurd (ground arith)
icon_path_in_dir_reads fs (suc fuel) base name p e = elim (Bool-cases (is_empty base)) [
  | inl f ↦ absurd (not_found (rw (f, icon_path_in_dir) at e))
  | inr f ↦ elim (Bool-cases (is_empty name)) [
    | inl g ↦ absurd (not_found (rw (f, g, icon_path_in_dir) at e))
    | inr g ↦ elim (Bool-cases (fs.is_dir (hicolor base))) [
      | inr h ↦ in_files_reads fs base name p (rw (f, g, h, icon_path_in_dir) at e)
      | inl h ↦
          elim (or_search-some (icon_path_in_dir fs fuel (hicolor base) name)
            (in_files fs base name) p (rw (f, g, h, icon_path_in_dir) at e)) [
              | inl a ↦ icon_path_in_dir_reads fs fuel (hicolor base) name p a
              | inr b ↦ in_files_reads fs base name p b
            ]
    ]
  ]
]
  where
    not_found : some none ≡ some (some p) → ⊥
    not_found e = cc

module _ (fs : FileSystem) (name : Bytes) where
  one_more :
      (fuel : ℕ) (base : Bytes)
      → (fs.is_dir (hicolor base) ≡ false) ⊎ (icon_path_in_dir fs fuel (hicolor base) name ≢ none)
      → icon_path_in_dir fs (suc fuel) base name ≢ none
  unfolding icon_path_in_dir
  one_more fuel base d = elim (Bool-cases (is_empty base)) [
    | inl f ↦ rw (f, icon_path_in_dir) (ground arith)
    | inr f ↦ elim (Bool-cases (is_empty name)) [
      | inl g ↦ rw (f, g, icon_path_in_dir) (ground arith)
      | inr g ↦ elim (Bool-cases (fs.is_dir (hicolor base))) [
        | inr h ↦ rw (f, g, h, icon_path_in_dir) (in_files_ends fs base name)
        | inl h ↦
            rw (f, g, h, icon_path_in_dir)
              (or_search_ends (icon_path_in_dir fs fuel (hicolor base) name) (in_files fs base name)
                (into d h) (in_files_ends fs base name))
      ]
    ]
  ]
    where
      into :
          (fs.is_dir (hicolor base) ≡ false) ⊎ (icon_path_in_dir fs fuel (hicolor base) name ≢ none)
          → fs.is_dir (hicolor base) ≡ true
          → icon_path_in_dir fs fuel (hicolor base) name ≢ none
      into (inl a) h = absurd (ground arith)
      into (inr a) h = a

  -- Where the `hicolor` directory inside holds no other, two rounds are enough.
  pub icon_path_in_dir_ends :
      (fuel : ℕ) (base : Bytes)
      → fs.is_dir (hicolor (hicolor base)) ≡ false
      → icon_path_in_dir fs (suc (suc fuel)) base name ≢ none
  icon_path_in_dir_ends fuel base h =
      one_more (suc fuel) base (inr (one_more fuel (hicolor base) (inl h)))

take-take : (n : ℕ) (s : Bytes) → length (take n s) ≤ n → take n (take n s) ≡ take n s
take-take n s h = take_of_length-le n (take n s) h

take-append : (n : ℕ) (s t : Bytes) → n ≤ length s → take n (s ++ t) ≡ take n s
take-append zero s t h = refl
take-append (suc n) [] t h = absurd (omega arith)
take-append (suc n) (c ∷ s) t h = ap (λ r. c ∷ r) (take-append n s t (omega arith))

hicolor_cut : (base : Bytes) → 511 ≤ length base → hicolor base ≡ take 511 base
hicolor_cut base h = take-append 511 base (b'/' ∷ codes "hicolor") h

pos_not_empty : (s : Bytes) → 0 < length s → is_empty s ≡ false
unfolding is_empty
pos_not_empty [] h = absurd (omega arith)
pos_not_empty (c ∷ s) h = refl

-- A path of 511 bytes or more is cut to the same 511 bytes again and again: where these name a
-- directory, the search of it never ends, whatever the fuel.
pub icon_path_in_dir_loops :
    (fs : FileSystem) (fuel : ℕ) (base name : Bytes)
    → 511 ≤ length base
    → fs.is_dir (take 511 base) ≡ true
    → name ≢ []
    → icon_path_in_dir fs fuel base name ≡ none
unfolding icon_path_in_dir
icon_path_in_dir_loops fs zero base name h d n = refl
icon_path_in_dir_loops fs (suc fuel) base [] h d n = absurd (n refl)
icon_path_in_dir_loops fs (suc fuel) base (c ∷ name) h d n =
    let cut = hicolor_cut base h in
    let size : length (take 511 base) ≡ 511 = omega (arith, length-take 511 base) in
    let again : take 511 (take 511 base) ≡ take 511 base =
      take-take 511 base (omega (arith, size)) in
    let inner : icon_path_in_dir fs fuel (take 511 base) (c ∷ name) ≡ none =
      icon_path_in_dir_loops fs fuel (take 511 base) (c ∷ name) (omega (arith, size))
        (ap fs.is_dir again ∙ d) n in
    step (is_empty base) (fs.is_dir (hicolor base))
      (icon_path_in_dir fs fuel (hicolor base) (c ∷ name)) (in_files fs base (c ∷ name))
      (pos_not_empty base (omega arith)) (ap fs.is_dir cut ∙ d)
      (ap (λ t. icon_path_in_dir fs fuel t (c ∷ name)) cut ∙ inner)
  where
    step :
        (e d : Bool) (a b : Found)
        → e ≡ false
        → d ≡ true
        → a ≡ none
        → (elim e [ true ↦ some none | false ↦ elim d [ true ↦ or_search a b | false ↦ b ] ]) ≡ none
    step true d a b h g f = absurd (ground arith)
    step false false a b h g f = absurd (ground arith)
    step false true a b h g f = rw f
