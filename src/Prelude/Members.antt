-- ===== src/Prelude/Members.antt =====
-- Lists of numbers as sets: membership, removal, and lists without repetition.
use nizam.Prelude.{
  ℕ, ◌+◌, ◌≡◌, refl, Bool, true, false, ◌||◌, List, [], ◌∷◌, ◌++◌, arith, ◌==◌, if◌then◌else◌,
  length, Bool-cases, inl, inr, ◌∙◌, ==_sym, ==_refl,
}

abbrev pub elem : ℕ → List ℕ → Bool
elem k [] = false
elem k (i ∷ l) = i == k || elem k l

abbrev pub remove : ℕ → List ℕ → List ℕ
remove k [] = []
remove k (i ∷ l) = if i == k then remove k l else i ∷ remove k l

abbrev pub Distinct : List ℕ → Type 0
Distinct [] = Unit
Distinct (i ∷ l) = (elem i l ≡ false) × Distinct l

pub remove_absent : (k : ℕ) (l : List ℕ) → elem k l ≡ false → remove k l ≡ l
remove_absent k [] h = refl
remove_absent k (i ∷ l) h = ground (arith, remove_absent k l)

pub elem-remove :
    (k m : ℕ) (l : List ℕ) → elem m (remove k l) ≡ (if m == k then false else elem m l)
elem-remove k m [] = ground arith
elem-remove k m (i ∷ l) = ground (arith, elem-remove k m l)

pub Distinct-remove : (k : ℕ) (l : List ℕ) → Distinct l → Distinct (remove k l)
Distinct-remove k [] h = tt
Distinct-remove k (i ∷ l) h = elim (Bool-cases (i == k)) [
  | inl e ↦ rw e (Distinct-remove k l h.1)
  | inr e ↦ rw e (ground (arith, elem-remove k i l, h.0), Distinct-remove k l h.1)
]

pub length-remove :
    (k : ℕ) (l : List ℕ) → Distinct l → elem k l ≡ true → length (remove k l) + 1 ≡ length l
length-remove k [] d h = absurd (ground arith)
length-remove k (i ∷ l) d h = elim (Bool-cases (i == k)) [
  | inl e ↦ ground (arith, remove_absent k l)
  | inr e ↦ ground (arith, length-remove k l d.1)
]

pub elem-append_one :
    (k win : ℕ) (ws : List ℕ) → elem k (ws ++ (win ∷ [])) ≡ (elem k ws || win == k)
elem-append_one k win [] = ground arith
elem-append_one k win (w ∷ ws) = ground (arith, elem-append_one k win ws)

pub Distinct-append_one :
    (win : ℕ) (ws : List ℕ) → Distinct ws → elem win ws ≡ false → Distinct (ws ++ (win ∷ []))
Distinct-append_one win [] d e = (refl, tt)
Distinct-append_one win (w ∷ ws) d e = (
  elem-append_one w win ws ∙ rw (d.0, ==_sym win w (ground arith)) refl,
  Distinct-append_one win ws d.1 (ground arith),
)

pub remove-append_one :
    (win : ℕ) (ws : List ℕ) → elem win ws ≡ false → remove win (ws ++ (win ∷ [])) ≡ ws
remove-append_one win [] e = rw (==_refl win) refl
remove-append_one win (w ∷ ws) e = ground (arith, remove-append_one win ws)

pub of_elem-remove :
    (k m : ℕ) (l : List ℕ) → elem m (remove k l) ≡ true → ((m == k) ≡ false) × (elem m l ≡ true)
of_elem-remove k m l h = (ground (arith, elem-remove k m l), ground (arith, elem-remove k m l))
