-- ===== src/Panel/IconCache/Refine/Evict.antt =====
-- Giving up the least recent entry of the icon cache.
use mathlib.Core.Path.{ap₂}
use mathlib.Core.Bool.{false≢true}
use nizam.Prelude.{
  ℕ, ◌-◌, ◌≡◌, ◌∙◌, refl, sym, ap, true, false, ◌&&◌, List, arith, ◌==◌, if◌then◌else◌, none,
  Bool-cases, inl, inr,
}
use nizam.Panel.IconCache.{Entry, IconCache, icon_cache_unlink, evict_index}
use nizam.Panel.IconCache.Search.{Key, matches}
use nizam.Prelude.Members.{elem, remove, elem-remove, length-remove}
use nizam.Panel.IconCache.Links.{Nexts-frame, Prevs-frame}
use nizam.Panel.IconCache.Valid.{IsLinked, unlink-IsLinked}
use nizam.Panel.IconCache.Lru.{item, item_is, has_surface}
use nizam.Panel.IconCache.Slots.{item-unlink, in_use-unlink}
use nizam.Panel.IconCache.Refine.{IsValid, matches_iff}

matches_off : (k : Key) (e : Entry) → e.in_use ≡ false → matches k e ≡ false
unfolding matches
matches_off k e h = ground arith

matches_same :
    (k : Key) (e e' : Entry) → e.in_use ≡ e'.in_use → item e ≡ item e' → matches k e ≡ matches k e'
matches_same k e e' h g =
    matches_iff k e ∙ ap₂ (λ b x. b && item_is k x) h g ∙ sym (matches_iff k e')

-- The least recent entry is given up.
module _ (c : IconCache) (order : List ℕ) (idx : ℕ) (v : IsValid c order)
    (h : elem idx order ≡ true) where
  pub item-evict :
      (i : ℕ) → (i == idx) ≡ false → item ((evict_index c idx).entries i) ≡ item (c.entries i)
  unfolding evict_index
  item-evict i e = rw e (item-unlink c idx i)

  pub in_use-evict :
      (i : ℕ)
      → ((evict_index c idx).entries i).in_use ≡ (if i == idx then false else (c.entries i).in_use)
  unfolding evict_index
  in_use-evict i = elim (Bool-cases (i == idx)) [
    | inl e ↦ rw e
    | inr e ↦ rw e (in_use-unlink c idx i)
  ]

  evict-IsLinked : IsLinked (evict_index c idx) (remove idx order)
  unfolding evict_index
  evict-IsLinked =
      let w = unlink-IsLinked c idx order v.linked h in
      record {
        distinct = w.distinct;
        nexts =
            Nexts-frame (icon_cache_unlink c idx).entries (evict_index c idx).entries
              (remove idx order) (λ i e. ground arith) w.nexts;
        prevs =
            Prevs-frame (icon_cache_unlink c idx).entries (evict_index c idx).entries none
              (remove idx order) (λ i e. ground arith) w.prevs;
        head_is = w.head_is;
        tail_is = w.tail_is;
      }

  pub matches-evict :
      (k : Key) (i : ℕ)
      → matches k ((evict_index c idx).entries i) ≡ true
      → matches k (c.entries i) ≡ true
  matches-evict k i m = elim (Bool-cases (i == idx)) [
    | inl e ↦ absurd (
        false≢true
          (sym (matches_off k ((evict_index c idx).entries i) (in_use-evict i ∙ rw e)) ∙ m))
    | inr e ↦
        matches_same k (c.entries i) ((evict_index c idx).entries i) (sym (in_use-evict i ∙ rw e))
          (sym (item-evict i e))
        ∙ m
  ]

  used-evict : (evict_index c idx).used ≡ c.used - 1
  unfolding evict_index icon_cache_unlink
  used-evict = refl

  pub evict-IsValid : IsValid (evict_index c idx) (remove idx order)
  evict-IsValid = record {
    linked = evict-IsLinked;
    in_range = λ i e. v.in_range i (ground (arith, elem-remove idx i order));
    marks = λ i bi. in_use-evict i ∙ elim (Bool-cases (i == idx)) [
      | inl e ↦ rw (e, elem-remove idx i order, e)
      | inr e ↦ rw (e, elem-remove idx i order, e) (v.marks i bi)
    ];
    used_is = omega (arith, used-evict, v.used_is, length-remove idx order v.linked.distinct h);
    unique =
        λ k i j bi bj mi mj. v.unique k i j bi bj (matches-evict k i mi) (matches-evict k j mj);
    shown = λ i bi u. elim (Bool-cases (i == idx)) [
      | inl e ↦ absurd (false≢true (sym (in_use-evict i ∙ rw e) ∙ u))
      | inr e ↦ ap has_surface (item-evict i e) ∙ v.shown i bi (sym (in_use-evict i ∙ rw e) ∙ u)
    ];
  }
