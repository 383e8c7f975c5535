-- ===== src/Panel/IconCache/Valid.antt =====
-- The links of the cache hold a list, most recently used first, and its operations keep it so.
use mathlib.Core.Path.{subst}
use nizam.Prelude.{
  ==_sym, ℕ, ◌≡◌, ◌≢◌, ◌∙◌, refl, sym, ap, true, false, List, [], ◌∷◌, arith, ◌==◌, if◌then◌else◌,
  Option, none, some, Bool-cases, inl, inr, ==_iff, ==_refl,
}
use nizam.Panel.IconCache.{
  Entry, IconCache, or_index, is_index, icon_cache_unlink, icon_cache_link_head, icon_cache_touch,
}
use nizam.Prelude.Members.{elem, remove, Distinct, remove_absent, elem-remove, Distinct-remove}
use nizam.Panel.IconCache.Links.{first, last_or, Nexts, Prevs, Nexts-frame, Prevs-frame}
use nizam.Panel.IconCache.Unlink.{
  head-unlink, tail-unlink, unlink-Unlinks, Nexts-unlink, Prevs-unlink, first-unlink, last-unlink,
  ne_test, is_index_ne, or_false,
}

pub record IsLinked (c : IconCache) (order : List ℕ) : Type 0 where
  pub distinct : Distinct order
  pub nexts : Nexts c.entries order
  pub prevs : Prevs c.entries none order
  pub head_is : c.head ≡ first order
  pub tail_is : c.tail ≡ last_or none order

module _ (es : ℕ → Entry) (k : ℕ) where
  pub no_prev_loop :
      (q : Option ℕ) (l : List ℕ)
      → Prevs es q l
      → elem k l ≡ true
      → q ≢ some k
      → (es k).prev ≢ some k
  no_prev_loop q [] p h n = absurd (ground arith)
  no_prev_loop q (i ∷ l) p h n = elim (Bool-cases (i == k)) [
    | inl e ↦ ground arith
    | inr e ↦ no_prev_loop (some i) l p.1 (rw e at h) (ground arith)
  ]

  first_ne : (l : List ℕ) → elem k l ≡ false → first l ≢ some k
  first_ne [] h = ground arith
  first_ne (i ∷ l) h = ground arith

  pub no_next_loop : (l : List ℕ) → Distinct l → Nexts es l → elem k l ≡ true → (es k).next ≢ some k
  no_next_loop [] d n h = absurd (ground arith)
  no_next_loop (i ∷ l) d n h = elim (Bool-cases (i == k)) [
    | inl e ↦
        let ik : i ≡ k = (==_iff i k).0 e in
        subst (λ o. o ≢ some k) (sym (subst (λ t. (es t).next ≡ first l) ik n.0))
          (first_ne l (subst (λ t. elem t l ≡ false) ik d.0))
    | inr e ↦ no_next_loop l d.1 n.1 (rw e at h)
  ]

-- Unlinking an entry of the list takes it out of the list.
pub unlink-IsLinked :
    (c : IconCache) (k : ℕ) (order : List ℕ)
    → IsLinked c order
    → elem k order ≡ true
    → IsLinked (icon_cache_unlink c k) (remove k order)
unlink-IsLinked c k order v h =
    let es = c.entries in
    let np : (es k).prev ≢ some k = no_prev_loop es k none order v.prevs h (ground arith) in
    let nn : (es k).next ≢ some k = no_next_loop es k order v.distinct v.nexts h in
    let u = unlink-Unlinks c k np in
    record {
      distinct = Distinct-remove k order v.distinct;
      nexts =
          Nexts-unlink es (icon_cache_unlink c k).entries k u none order v.distinct v.nexts v.prevs
            h (λ m e. ground arith);
      prevs =
          Prevs-unlink es (icon_cache_unlink c k).entries k u none order v.distinct v.nexts v.prevs
            h;
      head_is =
          rw (head-unlink c k np, first-unlink es k order v.distinct v.nexts h, v.head_is) refl;
      tail_is =
          rw (tail-unlink c k np nn, last-unlink es k none order v.distinct v.prevs h, v.tail_is)
            refl;
    }

last_or-some : (k a : ℕ) (l : List ℕ) → last_or (some a) l ≡ some (or_index (last_or (some a) l) k)
last_or-some k a [] = refl
last_or-some k a (i ∷ l) = last_or-some k i l

last_or-cons : (k : ℕ) (l : List ℕ) → last_or (some k) l ≡ some (or_index (last_or none l) k)
last_or-cons k [] = refl
last_or-cons k (i ∷ l) = last_or-some k i l

module _ (c : IconCache) (k : ℕ) where
  next-link :
      (i : ℕ)
      → ((icon_cache_link_head c k).entries i).next
        ≡ (if i == k then c.head else (c.entries i).next)
  unfolding icon_cache_link_head
  next-link i = ground arith

  prev-link :
      (i : ℕ)
      → ((icon_cache_link_head c k).entries i).prev
        ≡ (if is_index c.head i then some k else if i == k then none else (c.entries i).prev)
  unfolding icon_cache_link_head
  prev-link i = ground arith

  link-Prevs :
      (l : List ℕ)
      → c.head ≡ first l
      → Prevs c.entries none l
      → elem k l ≡ false
      → Distinct l
      → Prevs (icon_cache_link_head c k).entries (some k) l
  link-Prevs [] e p h d = tt
  link-Prevs (j ∷ l) e p h d = (
    rw (prev-link j, e, ==_refl j),
    Prevs-frame c.entries (icon_cache_link_head c k).entries (some j) l
        (λ m f. rw (
          prev-link m,
          e,
          ==_sym j m (ne_test m j l d.0 f),
          ne_test m k l (or_false (j == k) (elem k l) h).1 f,
        ))
        p.1,
  )

  -- Linking an entry that is not in the list puts it at the front.
  pub link_head-IsLinked :
      (order : List ℕ)
      → IsLinked c order
      → elem k order ≡ false
      → IsLinked (icon_cache_link_head c k) (k ∷ order)
  link_head-IsLinked order v h = record {
    distinct = (h, v.distinct);
    nexts = (
      next-link k ∙ rw (==_refl k) v.head_is,
      Nexts-frame c.entries (icon_cache_link_head c k).entries order
          (λ i e. rw (next-link i, ne_test i k order h e)) v.nexts,
    );
    prevs = (
      rw (
        prev-link k,
        v.head_is,
        is_index_ne (first order) k (first_ne c.entries k order h),
        ==_refl k,
      ),
      link-Prevs order v.head_is v.prevs h v.distinct,
    );
    head_is = unfold icon_cache_link_head in refl;
    tail_is = unfold icon_cache_link_head in rw v.tail_is (sym (last_or-cons k order));
  }

-- A use moves the entry to the front.
pub touch-IsLinked :
    (c : IconCache) (k : ℕ) (order : List ℕ)
    → IsLinked c order
    → elem k order ≡ true
    → IsLinked (icon_cache_touch c k) (k ∷ remove k order)
unfolding icon_cache_touch
touch-IsLinked c k order v h = elim (Bool-cases (is_index c.head k)) [
  | inl e ↦ rw e (subst (IsLinked c) (front order (rw v.head_is at e) v.distinct) v)
  | inr e ↦ rw e (
      link_head-IsLinked (icon_cache_unlink c k) k (remove k order) (unlink-IsLinked c k order v h)
        (elem-remove k k order ∙ rw (==_refl k)))
]
  where
    front : (l : List ℕ) → is_index (first l) k ≡ true → Distinct l → l ≡ k ∷ remove k l
    front [] e d = absurd (ground arith)
    front (i ∷ l) e d =
        let ik : i ≡ k = (==_iff i k).0 e in
        rw (e, remove_absent k l (subst (λ t. elem t l ≡ false) ik d.0)) (ap (λ t. t ∷ l) ik)
