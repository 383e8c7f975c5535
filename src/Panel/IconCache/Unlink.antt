-- ===== src/Panel/IconCache/Unlink.antt =====
-- What unlinking an entry and linking it at the head do to the links of a list of entries.
use mathlib.Core.Path.{subst}
use mathlib.Core.Bool.{false≢true}
use nizam.Prelude.{
  ℕ, ◌≡◌, ◌≢◌, refl, Bool, true, false, List, [], ◌∷◌, arith, ◌==◌, if◌then◌else◌, Option, none,
  some, Bool-cases, inl, inr, ==_iff, sym, ◌∙◌, ◌||◌,
}
use nizam.Panel.IconCache.{Entry, IconCache, is_index, icon_cache_unlink}
use nizam.Prelude.Members.{elem, remove, Distinct, remove_absent}
use nizam.Panel.IconCache.Links.{
  first, last_or, Nexts, Prevs, last_or_ne, prev_outside, next_outside, Nexts-frame, Prevs-frame,
}

-- The links behind `icon_cache_unlink`, for an entry that is not its own neighbour.
module _ (c : IconCache) (k : ℕ) where
  pub next-unlink :
      (i : ℕ)
      → (c.entries k).prev ≢ some k
      → ((icon_cache_unlink c k).entries i).next ≡ (
          if i == k
          then none
          else if is_index (c.entries k).prev i
          then (c.entries k).next
          else (c.entries i).next)
  unfolding icon_cache_unlink
  next-unlink i h = ground arith

  pub prev-unlink :
      (i : ℕ)
      → (c.entries k).prev ≢ some k
      → ((icon_cache_unlink c k).entries i).prev ≡ (
          if i == k
          then none
          else if is_index (c.entries k).next i
          then (c.entries k).prev
          else (c.entries i).prev)
  unfolding icon_cache_unlink
  prev-unlink i h = ground arith

  pub head-unlink :
      (c.entries k).prev ≢ some k
      → (icon_cache_unlink c k).head ≡ (if is_index c.head k then (c.entries k).next else c.head)
  unfolding icon_cache_unlink
  head-unlink h = ground arith

  pub tail-unlink :
      (c.entries k).prev ≢ some k
      → (c.entries k).next ≢ some k
      → (icon_cache_unlink c k).tail ≡ (if is_index c.tail k then (c.entries k).prev else c.tail)
  unfolding icon_cache_unlink
  tail-unlink h n = ground arith

pub or_false : (a b : Bool) → (a || b) ≡ false → (a ≡ false) × (b ≡ false)
or_false a b h = ground arith

pub ne_some : (j i : ℕ) → (j == i) ≡ false → some j ≢ some i
ne_some j i h = ground arith

pub is_index_ne : (o : Option ℕ) (k : ℕ) → o ≢ some k → is_index o k ≡ false
is_index_ne none k h = refl
is_index_ne (some i) k h = ground arith

-- An item of a list that is not its first is in the rest.
pub elem-rest : (k i : ℕ) (l : List ℕ) → (i == k) ≡ false → elem k (i ∷ l) ≡ true → elem k l ≡ true
elem-rest k i l e h = rw e at h

pub ne_of_elem : (i m : ℕ) (l : List ℕ) → elem i l ≡ false → elem m l ≡ true → some i ≢ some m
ne_of_elem i m l d h = ground arith

-- The links behind the unlinking of `k`, as equations.
pub record Unlinks (es es' : ℕ → Entry) (k : ℕ) : Type 0 where
  pub keep_next : (i : ℕ) → (i == k) ≡ false → (es k).prev ≢ some i → (es' i).next ≡ (es i).next
  pub skip_next : (i : ℕ) → (i == k) ≡ false → (es k).prev ≡ some i → (es' i).next ≡ (es k).next
  pub keep_prev : (i : ℕ) → (i == k) ≡ false → (es k).next ≢ some i → (es' i).prev ≡ (es i).prev
  pub skip_prev : (i : ℕ) → (i == k) ≡ false → (es k).next ≡ some i → (es' i).prev ≡ (es k).prev

pub unlink-Unlinks :
    (c : IconCache) (k : ℕ)
    → (c.entries k).prev ≢ some k
    → Unlinks c.entries (icon_cache_unlink c k).entries k
unlink-Unlinks c k h = record {
  keep_next = λ i e n. ground (arith, next-unlink c k i h);
  skip_next = λ i e n. ground (arith, next-unlink c k i h);
  keep_prev = λ i e n. ground (arith, prev-unlink c k i h);
  skip_prev = λ i e n. ground (arith, prev-unlink c k i h);
}

pub ne_test : (j k : ℕ) (l : List ℕ) → elem k l ≡ false → elem j l ≡ true → (j == k) ≡ false
ne_test j k l a h = elim (Bool-cases (j == k)) [
  | inl e ↦ absurd (false≢true (sym (subst (λ t. elem t l ≡ false) (sym ((==_iff j k).0 e)) a) ∙ h))
  | inr e ↦ e
]

pub elem-cons : (j i : ℕ) (l : List ℕ) → elem j l ≡ true → elem j (i ∷ l) ≡ true
elem-cons j i l h = ground arith

-- The ends of the list.
module _ (es : ℕ → Entry) (k : ℕ) where
  pub first-unlink :
      (l : List ℕ)
      → Distinct l
      → Nexts es l
      → elem k l ≡ true
      → first (remove k l) ≡ (if is_index (first l) k then (es k).next else first l)
  first-unlink [] d n h = absurd (ground arith)
  first-unlink (i ∷ l) d n h = elim (Bool-cases (i == k)) [
    | inl e ↦
        let ik : i ≡ k = (==_iff i k).0 e in
        rw (e, remove_absent k l (subst (λ t. elem t l ≡ false) ik d.0))
          (sym (subst (λ t. (es t).next ≡ first l) ik n.0))
    | inr e ↦ rw e
  ]

  pub last-unlink :
      (q : Option ℕ) (l : List ℕ)
      → Distinct l
      → Prevs es q l
      → elem k l ≡ true
      → last_or q (remove k l) ≡ (if is_index (last_or q l) k then (es k).prev else last_or q l)
  last-unlink q [] d p h = absurd (ground arith)
  last-unlink q (i ∷ l) d p h = elim (Bool-cases (i == k)) [
    | inl e ↦
        let ik : i ≡ k = (==_iff i k).0 e in
        let absent : elem k l ≡ false = subst (λ t. elem t l ≡ false) ik d.0 in
        rw (e, remove_absent k l absent) (last l absent e (subst (λ t. (es t).prev ≡ q) ik p.0))
    | inr e ↦ rw e (last-unlink (some i) l d.1 p.1 (elem-rest k i l e h))
  ]
    where
      last :
          (l : List ℕ)
          → elem k l ≡ false
          → (i == k) ≡ true
          → (es k).prev ≡ q
          → last_or q l
            ≡ (if is_index (last_or (some i) l) k then (es k).prev else last_or (some i) l)
      last [] a e f = rw e (sym f)
      last (j ∷ l) a e f = rw (
          is_index_ne (last_or (some j) l) k (
            last_or_ne k (some j) l (or_false (j == k) (elem k l) a).1
              (ne_some j k (or_false (j == k) (elem k l) a).0)))

module _ (es es' : ℕ → Entry) (k : ℕ) (u : Unlinks es es' k) where
  -- Behind an item in front of the unlinked one, only that one is skipped.
  next_kept :
      (i : ℕ) (l : List ℕ)
      → Distinct (i ∷ l)
      → Nexts es (i ∷ l)
      → Prevs es (some i) l
      → (i == k) ≡ false
      → elem k l ≡ true
      → (es' i).next ≡ first (remove k l)
  next_kept i [] d n p e h = absurd (ground arith)
  next_kept i (j ∷ l) d n p e h = elim (Bool-cases (j == k)) [
    | inl f ↦
        let jk : j ≡ k = (==_iff j k).0 f in
        rw (f, remove_absent k l (subst (λ t. elem t l ≡ false) jk d.1.0))
          (u.skip_next i e (subst (λ t. (es t).prev ≡ some i) jk p.0)
            ∙ subst (λ t. (es t).next ≡ first l) jk n.1.0)
    | inr f ↦ rw f (
        u.keep_next i e (
          prev_outside es k i (some j) l p.1 (elem-rest k j l f h)
            (or_false (j == i) (elem i l) d.0).1 (ne_some j i (or_false (j == i) (elem i l) d.0).0))
        ∙ n.0)
  ]

  pub Nexts-unlink :
      (q : Option ℕ) (l : List ℕ)
      → Distinct l
      → Nexts es l
      → Prevs es q l
      → elem k l ≡ true
      → ((m : ℕ) → elem m l ≡ true → q ≢ some m)
      → Nexts es' (remove k l)
  Nexts-unlink q [] d n p h o = tt
  Nexts-unlink q (i ∷ l) d n p h o = elim (Bool-cases (i == k)) [
    | inl e ↦
        let ik : i ≡ k = (==_iff i k).0 e in
        let absent : elem k l ≡ false = subst (λ t. elem t l ≡ false) ik d.0 in
        let front : (es k).prev ≡ q = subst (λ t. (es t).prev ≡ q) ik p.0 in
        rw (e, remove_absent k l absent)
          (Nexts-frame es es' l
            (λ j f. u.keep_next j (ne_test j k l absent f) (rw front (o j (elem-cons j i l f))))
            n.1)
    | inr e ↦ rw e (
      next_kept i l d n p.1 e (elem-rest k i l e h),
      Nexts-unlink (some i) l d.1 n.1 p.1 (elem-rest k i l e h) (λ m f. ne_of_elem i m l d.0 f),
    )
  ]

  pub Prevs-unlink :
      (q : Option ℕ) (l : List ℕ)
      → Distinct l
      → Nexts es l
      → Prevs es q l
      → elem k l ≡ true
      → Prevs es' q (remove k l)
  Prevs-unlink q [] d n p h = tt
  Prevs-unlink q (i ∷ l) d n p h = elim (Bool-cases (i == k)) [
    | inl e ↦
        let ik : i ≡ k = (==_iff i k).0 e in
        let absent : elem k l ≡ false = subst (λ t. elem t l ≡ false) ik d.0 in
        rw (e, remove_absent k l absent)
          (behind q l d.1 p.1 absent (subst (λ t. (es t).next ≡ first l) ik n.0)
            (subst (λ t. (es t).prev ≡ q) ik p.0))
    | inr e ↦
        let inside : elem k l ≡ true = elem-rest k i l e h in
        rw e (
          u.keep_prev i e (next_outside es k i l n.1 inside d.0) ∙ p.0,
          Prevs-unlink (some i) l d.1 n.1 p.1 inside,
        )
  ]
    where
      behind :
          (q : Option ℕ) (l : List ℕ)
          → Distinct l
          → Prevs es (some i) l
          → elem k l ≡ false
          → (es k).next ≡ first l
          → (es k).prev ≡ q
          → Prevs es' q l
      behind q [] d p a n f = tt
      behind q (j ∷ l) d p a n f = (
        u.skip_prev j (or_false (j == k) (elem k l) a).0 n ∙ f,
        Prevs-frame es es' (some j) l
            (λ m g.
              u.keep_prev m (ne_test m k l (or_false (j == k) (elem k l) a).1 g)
                (rw n (ne_of_elem j m l d.0 g)))
            p.1,
      )
