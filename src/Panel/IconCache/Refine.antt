-- ===== src/Panel/IconCache/Refine.antt =====
-- What it means that the icon cache holds a list, and how the searches of the two agree.
pub mod Lookup
pub mod Fill
pub mod Evict
pub mod Insert
use mathlib.Core.Path.{subst}
use mathlib.Core.Bool.{false≢true}
use nizam.Prelude.{
  ==_sym, ℕ, zero, suc, ◌+◌, ◌-◌, ◌%◌, ◌≤◌, ◌<◌, ◌≡◌, ◌≢◌, ◌∙◌, refl, sym, ap, Bool, true, false,
  ◌&&◌, List, [], ◌∷◌, arith, ◌==◌, if◌then◌else◌, Option, none, some, length, Bool-cases,
  Option-cases, inl, inr, ==_iff, ==_refl,
}
use nizam.Panel.IconCache.{cap, u64, Entry, IconCache, icon_cache_touch}
use nizam.Panel.IconCache.Search.{Key, matches, find_from, find_key, lookup_found, lookup_key}
use nizam.Prelude.Members.{elem, remove, Distinct, elem-remove, length-remove}
use nizam.Panel.IconCache.Valid.{IsLinked, touch-IsLinked}
use nizam.Panel.IconCache.Lru.{
  Item, item, item_is, has_surface, find, drop_key, use_found, surface_of, touch, get,
}
use nizam.Panel.IconCache.Slots.{
  item-touch, in_use-touch, used-touch, find_from-some, find_from-none,
}

-- The list of icons that the cache holds.
unfoldable pub view : (ℕ → Entry) → List ℕ → List Item
view es [] = []
view es (i ∷ l) = item (es i) ∷ view es l

-- The cache is linked in the order of a list of indices, which holds the entries in use, is counted
-- by `used`, holds no key twice, and has a surface for each.
pub record IsValid (c : IconCache) (order : List ℕ) : Type 0 where
  pub linked : IsLinked c order
  pub in_range : (i : ℕ) → elem i order ≡ true → i < cap
  pub marks : (i : ℕ) → i < cap → (c.entries i).in_use ≡ elem i order
  pub used_is : c.used ≡ length order
  pub unique :
      (k : Key) (i j : ℕ)
      → i < cap
      → j < cap
      → matches k (c.entries i) ≡ true
      → matches k (c.entries j) ≡ true
      → i ≡ j
  pub shown :
      (i : ℕ) → i < cap → (c.entries i).in_use ≡ true → has_surface (item (c.entries i)) ≡ true

pub matches_iff : (k : Key) (e : Entry) → matches k e ≡ (e.in_use && item_is k (item e))
unfolding matches
matches_iff k e = ground arith

pub item_is_of_matches : (k : Key) (e : Entry) → matches k e ≡ true → item_is k (item e) ≡ true
unfolding matches
item_is_of_matches k e h = ground arith

pub view-frame :
    (es es' : ℕ → Entry) (l : List ℕ)
    → ((i : ℕ) → elem i l ≡ true → item (es' i) ≡ item (es i))
    → view es' l ≡ view es l
unfolding view
view-frame es es' [] f = refl
view-frame es es' (i ∷ l) f =
    rw (f i (ground arith), view-frame es es' l (λ j h. f j (ground arith)))

module _ (es : ℕ → Entry) (k : Key) where
  -- Where one index at most matches, the searches of the list and of the array agree.
  pub find-view :
      (i : ℕ) (l : List ℕ)
      → ((j : ℕ) → elem j l ≡ true → item_is k (item (es j)) ≡ (j == i))
      → elem i l ≡ true
      → find k (view es l) ≡ some (item (es i))
  unfolding find view
  find-view i [] h m = absurd (ground arith)
  find-view i (j ∷ l) h m = elim (Bool-cases (j == i)) [
    | inl e ↦ rw (h j (rw (==_refl j)), e) (ap (λ t. some (item (es t))) ((==_iff j i).0 e))
    | inr e ↦ rw (h j (rw (==_refl j)), e) (find-view i l (λ t f. h t (ground arith)) (rw e at m))
  ]

  pub drop_key-view :
      (i : ℕ) (l : List ℕ)
      → ((j : ℕ) → elem j l ≡ true → item_is k (item (es j)) ≡ (j == i))
      → drop_key k (view es l) ≡ view es (remove i l)
  unfolding drop_key view
  drop_key-view i [] h = refl
  drop_key-view i (j ∷ l) h = elim (Bool-cases (j == i)) [
    | inl e ↦ rw (h j (rw (==_refl j)), e) (drop_key-view i l (λ t f. h t (ground arith)))
    | inr e ↦ rw (h j (rw (==_refl j)), e, drop_key-view i l (λ t f. h t (ground arith)))
  ]

  pub find-view-none :
      (l : List ℕ)
      → ((j : ℕ) → elem j l ≡ true → item_is k (item (es j)) ≡ false)
      → find k (view es l) ≡ none
  unfolding find view
  find-view-none [] h = refl
  find-view-none (j ∷ l) h =
      rw (h j (rw (==_refl j))) (find-view-none l (λ t f. h t (ground arith)))

-- The counters are no part of the validity.
module _ (c : IconCache) (order : List ℕ) (v : IsValid c order) where
  IsLinked-hits : (n : ℕ) → IsLinked (record c { hits = n }) order
  IsLinked-hits n = record {
    distinct = v.linked.distinct;
    nexts = v.linked.nexts;
    prevs = v.linked.prevs;
    head_is = v.linked.head_is;
    tail_is = v.linked.tail_is;
  }

  pub hits-IsValid : (n : ℕ) → IsValid (record c { hits = n }) order
  hits-IsValid n = record {
    linked = IsLinked-hits n;
    in_range = v.in_range;
    marks = v.marks;
    used_is = v.used_is;
    unique = v.unique;
    shown = v.shown;
  }

  IsLinked-misses : (n : ℕ) → IsLinked (record c { misses = n }) order
  IsLinked-misses n = record {
    distinct = v.linked.distinct;
    nexts = v.linked.nexts;
    prevs = v.linked.prevs;
    head_is = v.linked.head_is;
    tail_is = v.linked.tail_is;
  }

  pub misses-IsValid : (n : ℕ) → IsValid (record c { misses = n }) order
  misses-IsValid n = record {
    linked = IsLinked-misses n;
    in_range = v.in_range;
    marks = v.marks;
    used_is = v.used_is;
    unique = v.unique;
    shown = v.shown;
  }
