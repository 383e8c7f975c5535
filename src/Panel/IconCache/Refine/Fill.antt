-- ===== src/Panel/IconCache/Refine/Fill.antt =====
-- Filling a free entry of the icon cache and linking it at the head.
use mathlib.Core.Bool.{false≢true}
use nizam.Prelude.{
  ==_sym, ℕ, ◌+◌, ◌<◌, ◌≡◌, ◌∙◌, refl, sym, ap, true, false, List, ◌∷◌, arith, ◌==◌, if◌then◌else◌,
  none, some, Bool-cases, inl, inr, ==_iff, ==_refl,
}
use nizam.Text.Equal.{eq_of_str_eq}
use nizam.Panel.IconCache.{cap, Entry, IconCache, alter, icon_cache_link_head}
use nizam.Panel.IconCache.Search.{Key, matches, fill_index}
use nizam.Prelude.Members.{elem}
use nizam.Panel.IconCache.Links.{Nexts-frame, Prevs-frame}
use nizam.Panel.IconCache.Unlink.{ne_test}
use nizam.Panel.IconCache.Valid.{IsLinked, link_head-IsLinked}
use nizam.Panel.IconCache.Lru.{item, item_is, has_surface, new_item}
use nizam.Panel.IconCache.Slots.{item-link, in_use-link}
use nizam.Panel.IconCache.Refine.{IsValid, view, view-frame, matches_iff}

-- `fill_index` up to the link at the head.
filled : IconCache → Key → ℕ → ℕ → IconCache
filled c k surf idx = record c {
  entries = alter c.entries idx (λ e. record e {
    name = some k.name;
    in_use = true;
    size = k.size;
    scale = k.scale;
    variant = k.variant;
    surface = some surf;
    prev = none;
    next = none;
  });
}

module _ (c : IconCache) (k : Key) (surf idx : ℕ) where
  item-filled :
      (i : ℕ)
      → item ((filled c k surf idx).entries i)
        ≡ (if i == idx then new_item k surf else item (c.entries i))
  unfolding filled
  item-filled i = ground arith

  in_use-filled :
      (i : ℕ)
      → ((filled c k surf idx).entries i).in_use ≡ (if i == idx then true else (c.entries i).in_use)
  unfolding filled
  in_use-filled i = ground arith

  filled-IsLinked :
      (order : List ℕ)
      → IsLinked c order
      → elem idx order ≡ false
      → IsLinked (filled c k surf idx) order
  filled-IsLinked order v h = record {
    distinct = v.distinct;
    nexts =
        Nexts-frame c.entries (filled c k surf idx).entries order
          (λ i e. unfold filled in rw (ne_test i idx order h e)) v.nexts;
    prevs =
        Prevs-frame c.entries (filled c k surf idx).entries none order
          (λ i e. unfold filled in rw (ne_test i idx order h e)) v.prevs;
    head_is = unfold filled in v.head_is;
    tail_is = unfold filled in v.tail_is;
  }

  item-fill :
      (i : ℕ)
      → item ((fill_index c k surf idx).entries i)
        ≡ (if i == idx then new_item k surf else item (c.entries i))
  unfolding fill_index filled
  item-fill i = item-link (filled c k surf idx) idx i ∙ item-filled i

  in_use-fill :
      (i : ℕ)
      → ((fill_index c k surf idx).entries i).in_use
        ≡ (if i == idx then true else (c.entries i).in_use)
  unfolding fill_index filled
  in_use-fill i = in_use-link (filled c k surf idx) idx i ∙ in_use-filled i

  fill-IsLinked :
      (order : List ℕ)
      → IsLinked c order
      → elem idx order ≡ false
      → IsLinked (fill_index c k surf idx) (idx ∷ order)
  unfolding fill_index filled
  fill-IsLinked order v h =
      let w = link_head-IsLinked (filled c k surf idx) idx order (filled-IsLinked order v h) h in
      record {
        distinct = w.distinct;
        nexts = w.nexts;
        prevs = w.prevs;
        head_is = w.head_is;
        tail_is = w.tail_is;
      }

  used-fill : (fill_index c k surf idx).used ≡ c.used + 1
  unfolding fill_index icon_cache_link_head
  used-fill = refl

  pub view-fill :
      (order : List ℕ)
      → elem idx order ≡ false
      → view (fill_index c k surf idx).entries (idx ∷ order)
        ≡ new_item k surf ∷ view c.entries order
  unfolding view
  view-fill order h = rw (
    item-fill idx,
    ==_refl idx,
    view-frame c.entries (fill_index c k surf idx).entries order
        (λ i e. item-fill i ∙ rw (ne_test i idx order h e)),
  )

same_key :
    (k k' : Key) (surf : ℕ) (e : Entry)
    → item_is k' (new_item k surf) ≡ true
    → matches k' e ≡ true
    → matches k e ≡ true
unfolding matches
same_key k k' surf e h m = ground (arith, eq_of_str_eq k.name k'.name)

module _ (c : IconCache) (order : List ℕ) (k : Key) (surf idx : ℕ) (v : IsValid c order)
    (b : idx < cap) (free : (c.entries idx).in_use ≡ false)
    (new : (i : ℕ) → i < cap → matches k (c.entries i) ≡ false) where
  pub free_absent : elem idx order ≡ false
  free_absent = sym (v.marks idx b) ∙ free

  matches-fill :
      (k' : Key) (i : ℕ)
      → matches k' ((fill_index c k surf idx).entries i)
        ≡ (if i == idx then item_is k' (new_item k surf) else matches k' (c.entries i))
  matches-fill k' i =
      rw
        (
          matches_iff k' ((fill_index c k surf idx).entries i),
          matches_iff k' (c.entries i),
          item-fill c k surf idx i,
          in_use-fill c k surf idx i,
        )
        (elim (Bool-cases (i == idx)) [ inl e ↦ rw e | inr e ↦ rw e ])

  fill_unique :
      (k' : Key) (i j : ℕ)
      → i < cap
      → j < cap
      → matches k' ((fill_index c k surf idx).entries i) ≡ true
      → matches k' ((fill_index c k surf idx).entries j) ≡ true
      → i ≡ j
  fill_unique k' i j bi bj mi mj = elim (Bool-cases (i == idx)) [
    | inl e ↦ elim (Bool-cases (j == idx)) [
      | inl f ↦ (==_iff i idx).0 e ∙ sym ((==_iff j idx).0 f)
      | inr f ↦ absurd (
          false≢true (
            sym (new j bj)
            ∙ same_key k k' surf (c.entries j) (sym (matches-fill k' i ∙ rw e) ∙ mi)
                (sym (matches-fill k' j ∙ rw f) ∙ mj)))
    ]
    | inr e ↦ elim (Bool-cases (j == idx)) [
      | inl f ↦ absurd (
          false≢true (
            sym (new i bi)
            ∙ same_key k k' surf (c.entries i) (sym (matches-fill k' j ∙ rw f) ∙ mj)
                (sym (matches-fill k' i ∙ rw e) ∙ mi)))
      | inr f ↦
          v.unique k' i j bi bj (sym (matches-fill k' i ∙ rw e) ∙ mi)
            (sym (matches-fill k' j ∙ rw f) ∙ mj)
    ]
  ]

  pub fill-IsValid : IsValid (fill_index c k surf idx) (idx ∷ order)
  fill-IsValid = record {
    linked = fill-IsLinked c k surf idx order v.linked free_absent;
    in_range = λ i e. in_front i e;
    marks = λ i bi. in_use-fill c k surf idx i ∙ elim (Bool-cases (i == idx)) [
      | inl e ↦ rw ((==_iff i idx).0 e, ==_refl idx)
      | inr e ↦ rw (e, ==_sym idx i e) (v.marks i bi)
    ];
    used_is = omega (arith, used-fill c k surf idx, v.used_is);
    unique = fill_unique;
    shown = λ i bi u. ap has_surface (item-fill c k surf idx i) ∙ elim (Bool-cases (i == idx)) [
      | inl e ↦ rw e
      | inr e ↦ rw e (v.shown i bi (sym (in_use-fill c k surf idx i ∙ rw e) ∙ u))
    ];
  }
    where
      in_front : (i : ℕ) → elem i (idx ∷ order) ≡ true → i < cap
      in_front i e = elim (Bool-cases (idx == i)) [
        | inl f ↦ ground (arith, b)
        | inr f ↦ v.in_range i (ground arith)
      ]
