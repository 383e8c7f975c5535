-- ===== src/Dock/Surfaces/Links.antt =====
-- The pointers of the dock's icon cache hold a list, and its operations keep it so. The lemmas on
-- links are those of the panel's cache, which hold for any `prev` and `next`.
use mathlib.Core.Path.{subst}
use nizam.Prelude.{
  ℕ, ◌≡◌, ◌≢◌, ◌∙◌, refl, true, false, List, [], ◌∷◌, arith, ◌==◌, if◌then◌else◌, Option, none,
  some, Bool-cases, inl, inr, ◌⊎◌, ==_iff, ==_refl, ==_sym, ap,
}
use nizam.Prelude.Members.{elem, remove, Distinct, Distinct-remove, elem-remove, remove_absent}
use nizam.Panel.IconCache.{Entry, IconCache, is_index}
use nizam.Panel.IconCache.Links.{first, last_or, Nexts, Prevs, last_or_ne, Nexts-frame, Prevs-frame}
use nizam.Panel.IconCache.Unlink.{
  Unlinks, elem-rest, is_index_ne, or_false, ne_some, Nexts-unlink, Prevs-unlink, first-unlink,
  last-unlink, ne_test,
}
use nizam.Panel.IconCache.Valid.{IsLinked, no_prev_loop}
use nizam.Dock.Surfaces.{
  IconEntry, SurfaceCache, is_pointer, end_or, icon_entry_unlink, icon_entry_link_head,
  icon_entry_touch,
}

-- An entry as a place of the panel's array, and the cache as its ends.
abbrev pub place : IconEntry → Entry
place e = record {
  in_use = true;
  name = none;
  size = 0;
  scale = 0;
  variant = 0;
  surface = e.surface;
  prev = e.prev;
  next = e.next;
}

abbrev pub places : {T : Type 0} → SurfaceCache T → IconCache
places c = record {
  entries = λ p. place (c.heap p);
  head = c.head;
  tail = c.tail;
  used = 0;
  hits = 0;
  misses = 0;
  evictions = 0;
}

module _ {T : Type 0} (c : SurfaceCache T) (k : ℕ) where
  next-unlink :
      (i : ℕ)
      → (c.heap k).prev ≢ some k
      → ((icon_entry_unlink c k).heap i).next ≡ (
          if i == k
          then none
          else if is_pointer (c.heap k).prev i
          then (c.heap k).next
          else (c.heap i).next)
  unfolding icon_entry_unlink
  next-unlink i h = ground arith

  prev-unlink :
      (i : ℕ)
      → (c.heap k).prev ≢ some k
      → ((icon_entry_unlink c k).heap i).prev ≡ (
          if i == k
          then none
          else if is_pointer (c.heap k).next i
          then (c.heap k).prev
          else (c.heap i).prev)
  unfolding icon_entry_unlink
  prev-unlink i h = ground arith

  unlink-Unlinks :
      (c.heap k).prev ≢ some k
      → Unlinks (places c).entries (places (icon_entry_unlink c k)).entries k
  unlink-Unlinks h = record {
    keep_next = λ i e n. ground (arith, next-unlink i h);
    skip_next = λ i e n. ground (arith, next-unlink i h);
    keep_prev = λ i e n. ground (arith, prev-unlink i h);
    skip_prev = λ i e n. ground (arith, prev-unlink i h);
  }

module _ (es : ℕ → Entry) (k : ℕ) where
  -- The first of a list has no predecessor, and each other has one.
  head_cases :
      (q : Option ℕ) (l : List ℕ)
      → Distinct l
      → Prevs es q l
      → elem k l ≡ true
      → ((is_index (first l) k ≡ true) × ((es k).prev ≡ q))
        ⊎ ((is_index (first l) k ≡ false) × (p : ℕ) × ((es k).prev ≡ some p))
  head_cases q [] d p h = absurd (ground arith)
  head_cases q (i ∷ l) d p h = elim (Bool-cases (i == k)) [
    | inl e ↦ inl (e, subst (λ t. (es t).prev ≡ q) ((==_iff i k).0 e) p.0)
    | inr e ↦ elim (head_cases (some i) l d.1 p.1 (elem-rest k i l e h)) [
      | inl (a, b) ↦ inr (e, i, b)
      | inr (a, j, b) ↦ inr (e, j, b)
    ]
  ]

  -- The last of a list has no successor, and each other has one.
  tail_cases :
      (q : Option ℕ) (l : List ℕ)
      → Distinct l
      → Nexts es l
      → elem k l ≡ true
      → ((is_index (last_or q l) k ≡ true) × ((es k).next ≡ none))
        ⊎ ((is_index (last_or q l) k ≡ false) × (p : ℕ) × ((es k).next ≡ some p))
  tail_cases q [] d n h = absurd (ground arith)
  tail_cases q (i ∷ l) d n h = elim (Bool-cases (i == k)) [
    | inl e ↦
        let ik : i ≡ k = (==_iff i k).0 e in
        at_front l e (subst (λ t. elem t l ≡ false) ik d.0)
          (subst (λ t. (es t).next ≡ first l) ik n.0)
    | inr e ↦ tail_cases (some i) l d.1 n.1 (elem-rest k i l e h)
  ]
    where
      at_front :
          (l : List ℕ)
          → (i == k) ≡ true
          → elem k l ≡ false
          → (es k).next ≡ first l
          → ((is_index (last_or (some i) l) k ≡ true) × ((es k).next ≡ none))
            ⊎ ((is_index (last_or (some i) l) k ≡ false) × (p : ℕ) × ((es k).next ≡ some p))
      at_front [] e a f = inl (e, f)
      at_front (j ∷ l) e a f = inr (
        is_index_ne (last_or (some j) l) k (
            last_or_ne k (some j) l (or_false (j == k) (elem k l) a).1
              (ne_some j k (or_false (j == k) (elem k l) a).0)),
        j,
        f,
      )

module _ {T : Type 0} (c : SurfaceCache T) (k : ℕ) where
  head-unlink : (icon_entry_unlink c k).head ≡ end_or (c.heap k).prev c.head (c.heap k).next
  unfolding icon_entry_unlink
  head-unlink = refl

  tail-unlink :
      (c.heap k).prev ≢ some k
      → (icon_entry_unlink c k).tail ≡ end_or (c.heap k).next c.tail (c.heap k).prev
  unfolding icon_entry_unlink
  tail-unlink h = ground arith

  -- Unlinking an entry of the list takes it out of the list.
  pub unlink-IsLinked :
      (order : List ℕ)
      → IsLinked (places c) order
      → elem k order ≡ true
      → IsLinked (places (icon_entry_unlink c k)) (remove k order)
  unlink-IsLinked order v h =
      let es = (places c).entries in
      let es' = (places (icon_entry_unlink c k)).entries in
      let np : (c.heap k).prev ≢ some k = no_prev_loop es k none order v.prevs h (ground arith) in
      let u = unlink-Unlinks c k np in
      record {
        distinct = Distinct-remove k order v.distinct;
        nexts =
            Nexts-unlink es es' k u none order v.distinct v.nexts v.prevs h (λ m e. ground arith);
        prevs = Prevs-unlink es es' k u none order v.distinct v.nexts v.prevs h;
        head_is = head-unlink ∙ elim (head_cases es k none order v.distinct v.prevs h) [
          | inl (a, b) ↦ rw (first-unlink es k order v.distinct v.nexts h, a, b) refl
          | inr (a, p, b) ↦ rw (first-unlink es k order v.distinct v.nexts h, a, b) v.head_is
        ];
        tail_is = tail-unlink np ∙ elim (tail_cases es k none order v.distinct v.nexts h) [
          | inl (a, b) ↦ rw (last-unlink es k none order v.distinct v.prevs h, a, b) refl
          | inr (a, p, b) ↦ rw (last-unlink es k none order v.distinct v.prevs h, a, b) v.tail_is
        ];
      }

  next-link :
      (i : ℕ)
      → ((icon_entry_link_head c k).heap i).next ≡ (if i == k then c.head else (c.heap i).next)
  unfolding icon_entry_link_head
  next-link i = ground arith

  prev-link :
      (i : ℕ)
      → ((icon_entry_link_head c k).heap i).prev
        ≡ (if is_pointer c.head i then some k else if i == k then none else (c.heap i).prev)
  unfolding icon_entry_link_head
  prev-link i = ground arith

  link-Prevs :
      (l : List ℕ)
      → c.head ≡ first l
      → Prevs (places c).entries none l
      → elem k l ≡ false
      → Distinct l
      → Prevs (places (icon_entry_link_head c k)).entries (some k) l
  link-Prevs [] e p h d = tt
  link-Prevs (j ∷ l) e p h d = (
    rw (prev-link j, e, ==_refl j),
    Prevs-frame (places c).entries (places (icon_entry_link_head c k)).entries (some j) l
        (λ m f. rw (
          prev-link m,
          e,
          ==_sym j m (ne_test m j l d.0 f),
          ne_test m k l (or_false (j == k) (elem k l) h).1 f,
        ))
        p.1,
  )

  link_tail :
      (l : List ℕ)
      → c.head ≡ first l
      → c.tail ≡ last_or none l
      → (icon_entry_link_head c k).tail ≡ last_or (some k) l
  unfolding icon_entry_link_head
  link_tail [] e f = rw e
  link_tail (i ∷ l) e f = rw e f

  -- Linking an entry that is not in the list puts it at the front.
  pub link_head-IsLinked :
      (order : List ℕ)
      → IsLinked (places c) order
      → elem k order ≡ false
      → IsLinked (places (icon_entry_link_head c k)) (k ∷ order)
  link_head-IsLinked order v h = record {
    distinct = (h, v.distinct);
    nexts = (
      next-link k ∙ rw (==_refl k) v.head_is,
      Nexts-frame (places c).entries (places (icon_entry_link_head c k)).entries order
          (λ i e. rw (next-link i, ne_test i k order h e)) v.nexts,
    );
    prevs = (
      prev-link k ∙ rw (v.head_is, pointer_first order h, ==_refl k) refl,
      link-Prevs order v.head_is v.prevs h v.distinct,
    );
    head_is = unfold icon_entry_link_head in refl;
    tail_is = link_tail order v.head_is v.tail_is;
  }
    where
      pointer_first : (l : List ℕ) → elem k l ≡ false → is_pointer (first l) k ≡ false
      pointer_first [] e = refl
      pointer_first (i ∷ l) e = (or_false (i == k) (elem k l) e).0

-- A use moves the entry to the front.
pub touch-IsLinked :
    {T : Type 0} (c : SurfaceCache T) (k : ℕ) (order : List ℕ)
    → IsLinked (places c) order
    → elem k order ≡ true
    → IsLinked (places (icon_entry_touch c k)) (k ∷ remove k order)
unfolding icon_entry_touch
touch-IsLinked c k order v h = elim (Bool-cases (is_pointer c.head k)) [
  | inl e ↦ rw e (subst (IsLinked (places c)) (front order (rw v.head_is at e) v.distinct) v)
  | inr e ↦ rw e (
      link_head-IsLinked (icon_entry_unlink c k) k (remove k order) (unlink-IsLinked c k order v h)
        (elem-remove k k order ∙ rw (==_refl k)))
]
  where
    front : (l : List ℕ) → is_pointer (first l) k ≡ true → Distinct l → l ≡ k ∷ remove k l
    front [] e d = absurd (ground arith)
    front (i ∷ l) e d =
        let ik : i ≡ k = (==_iff i k).0 e in
        rw (e, remove_absent k l (subst (λ t. elem t l ≡ false) ik d.0)) (ap (λ t. t ∷ l) ik)
