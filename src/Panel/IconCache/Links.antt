-- ===== src/Panel/IconCache/Links.antt =====
-- The ends of a list of indices, and what it means that the entries of an array are linked in the
-- order of a list.
use nizam.Prelude.{
  ℕ, ◌≡◌, ◌≢◌, true, false, List, [], ◌∷◌, arith, ◌==◌, Option, none, some, Bool-cases, inl, inr,
  ◌∙◌,
}
use nizam.Prelude.Members.{elem}
use nizam.Panel.IconCache.{Entry}

abbrev pub first : List ℕ → Option ℕ
first [] = none
first (i ∷ l) = some i

-- The last item, or `q` where there is none.
abbrev pub last_or : Option ℕ → List ℕ → Option ℕ
last_or q [] = q
last_or q (i ∷ l) = last_or (some i) l

-- Each `next` is the index that follows in the list, and the last has none.
abbrev pub Nexts : (ℕ → Entry) → List ℕ → Type 0
Nexts es [] = Unit
Nexts es (i ∷ l) = ((es i).next ≡ first l) × Nexts es l

-- Each `prev` is the index in front, and that of the first is `p`.
abbrev pub Prevs : (ℕ → Entry) → Option ℕ → List ℕ → Type 0
Prevs es p [] = Unit
Prevs es p (i ∷ l) = ((es i).prev ≡ p) × Prevs es (some i) l

pub last_or_ne :
    (k : ℕ) (q : Option ℕ) (l : List ℕ) → elem k l ≡ false → q ≢ some k → last_or q l ≢ some k
last_or_ne k q [] h n = n
last_or_ne k q (i ∷ l) h n = last_or_ne k (some i) l (ground arith) (ground arith)

module _ (es : ℕ → Entry) where
  -- The predecessor of an item is in front of the list or in it.
  pub prev_outside :
      (k m : ℕ) (q : Option ℕ) (l : List ℕ)
      → Prevs es q l
      → elem k l ≡ true
      → elem m l ≡ false
      → q ≢ some m
      → (es k).prev ≢ some m
  prev_outside k m q [] p h o n = absurd (ground arith)
  prev_outside k m q (i ∷ l) p h o n = elim (Bool-cases (i == k)) [
    | inl e ↦ ground arith
    | inr e ↦ prev_outside k m (some i) l p.1 (ground arith) (ground arith) (ground arith)
  ]

  first_outside : (m : ℕ) (l : List ℕ) → elem m l ≡ false → first l ≢ some m
  first_outside m [] o = ground arith
  first_outside m (i ∷ l) o = ground arith

  -- The successor of an item is in the list.
  pub next_outside :
      (k m : ℕ) (l : List ℕ)
      → Nexts es l
      → elem k l ≡ true
      → elem m l ≡ false
      → (es k).next ≢ some m
  next_outside k m [] p h o = absurd (ground arith)
  next_outside k m (i ∷ l) p h o = elim (Bool-cases (i == k)) [
    | inl e ↦ ground (arith, first_outside m l)
    | inr e ↦ next_outside k m l p.1 (ground arith) (ground arith)
  ]

-- Links that agree on the items of a list link them in the same order.
module _ (es es' : ℕ → Entry) where
  pub Nexts-frame :
      (l : List ℕ)
      → ((i : ℕ) → elem i l ≡ true → (es' i).next ≡ (es i).next)
      → Nexts es l
      → Nexts es' l
  Nexts-frame [] f h = tt
  Nexts-frame (i ∷ l) f h =
      (f i (ground arith) ∙ h.0, Nexts-frame l (λ j e. f j (ground arith)) h.1)

  pub Prevs-frame :
      (q : Option ℕ) (l : List ℕ)
      → ((i : ℕ) → elem i l ≡ true → (es' i).prev ≡ (es i).prev)
      → Prevs es q l
      → Prevs es' q l
  Prevs-frame q [] f h = tt
  Prevs-frame q (i ∷ l) f h =
      (f i (ground arith) ∙ h.0, Prevs-frame (some i) l (λ j e. f j (ground arith)) h.1)
