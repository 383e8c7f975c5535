-- ===== src/Panel/IconCache/Refine/Lookup.antt =====
-- The lookup of the icon cache against the list that it holds.
use mathlib.Core.Path.{subst}
use mathlib.Core.Bool.{false≢true}
use nizam.Prelude.{
  ==_sym, ℕ, ◌+◌, ◌<◌, ◌≡◌, ◌∙◌, refl, sym, ap, true, false, List, ◌∷◌, arith, ◌==◌, Option, none,
  some, Bool-cases, Option-cases, inl, inr, ==_iff, ==_refl,
}
use nizam.Panel.IconCache.{cap, u64, IconCache, icon_cache_touch}
use nizam.Panel.IconCache.Search.{Key, matches, find_from, find_key, lookup_found, lookup_key}
use nizam.Prelude.Members.{elem, remove, elem-remove, length-remove}
use nizam.Panel.IconCache.Valid.{touch-IsLinked}
use nizam.Panel.IconCache.Lru.{Item, item, item_is, has_surface, touch, get}
use nizam.Panel.IconCache.Slots.{
  item-touch, in_use-touch, used-touch, find_from-some, find_from-none,
}
use nizam.Panel.IconCache.Refine.{
  IsValid, drop_key-view, find-view, find-view-none, hits-IsValid, item_is_of_matches, matches_iff,
  misses-IsValid, view, view-frame,
}

elem-front : (i j : ℕ) (l : List ℕ) → elem i l ≡ true → elem j (i ∷ remove i l) ≡ elem j l
elem-front i j l h = elim (Bool-cases (i == j)) [
  | inl e ↦ rw e (sym (subst (λ t. elem t l ≡ true) ((==_iff i j).0 e) h))
  | inr e ↦ rw e (elem-remove i j l ∙ rw (==_sym j i e))
]

matches-touch :
    (c : IconCache) (i j : ℕ) (k : Key)
    → matches k ((icon_cache_touch c i).entries j) ≡ matches k (c.entries j)
matches-touch c i j k = rw (
  matches_iff k ((icon_cache_touch c i).entries j),
  matches_iff k (c.entries j),
  item-touch c i j,
  in_use-touch c i j,
)

touch-IsValid :
    (c : IconCache) (order : List ℕ) (i : ℕ)
    → IsValid c order
    → elem i order ≡ true
    → IsValid (icon_cache_touch c i) (i ∷ remove i order)
touch-IsValid c order i v h = record {
  linked = touch-IsLinked c i order v.linked h;
  in_range = λ j e. v.in_range j (sym (elem-front i j order h) ∙ e);
  marks = λ j b. in_use-touch c i j ∙ v.marks j b ∙ sym (elem-front i j order h);
  used_is = omega (arith, used-touch c i, v.used_is, length-remove i order v.linked.distinct h);
  unique = λ k a b ha hb ma mb.
      v.unique k a b ha hb (sym (matches-touch c i a k) ∙ ma) (sym (matches-touch c i b k) ∙ mb);
  shown = λ j b u. ap has_surface (item-touch c i j) ∙ v.shown j b (sym (in_use-touch c i j) ∙ u);
}

module _ (c : IconCache) (order : List ℕ) (v : IsValid c order) (k : Key) where
  -- An index that matches is in the list, and no other index of the list matches.
  found_in_order : (i : ℕ) → i < cap → matches k (c.entries i) ≡ true → elem i order ≡ true
  found_in_order i b m = sym (v.marks i b) ∙ ground (arith, matches_iff k (c.entries i))

  found_alone :
      (i : ℕ)
      → i < cap
      → matches k (c.entries i) ≡ true
      → (j : ℕ) → elem j order ≡ true
      → item_is k (item (c.entries j)) ≡ (j == i)
  found_alone i b m j e = elim (Bool-cases (item_is k (item (c.entries j)))) [
    | inl t ↦
        let used : (c.entries j).in_use ≡ true = v.marks j (v.in_range j e) ∙ e in
        let ji : j ≡ i =
          v.unique k j i (v.in_range j e) b (matches_iff k (c.entries j) ∙ rw (used, t)) m in
        rw (t, ji) (sym (==_refl i))
    | inr f ↦ elim (Bool-cases (j == i)) [
      | inl g ↦ absurd (
          false≢true (
            sym f
            ∙ subst (λ t. item_is k (item (c.entries t)) ≡ true) (sym ((==_iff j i).0 g))
                (item_is_of_matches k (c.entries i) m)))
      | inr g ↦ f ∙ sym g
    ]
  ]

  found_none :
      ((i : ℕ) → i < cap → matches k (c.entries i) ≡ false)
      → (j : ℕ) → elem j order ≡ true
      → item_is k (item (c.entries j)) ≡ false
  found_none h j e =
      let used : (c.entries j).in_use ≡ true = v.marks j (v.in_range j e) ∙ e in
      sym (rw used) ∙ sym (matches_iff k (c.entries j)) ∙ h j (v.in_range j e)

touch-view :
    (c : IconCache) (i : ℕ) (l : List ℕ)
    → view (icon_cache_touch c i).entries (i ∷ l) ≡ item (c.entries i) ∷ view c.entries l
unfolding view
touch-view c i l = rw (
  item-touch c i i,
  view-frame c.entries (icon_cache_touch c i).entries l (λ j h. item-touch c i j),
)

-- How the result of a lookup stands to the list that the cache holds.
abbrev pub Looked : List Item → Key → IconCache × Option ℕ → Type 0
Looked l k (c, r) =
    (order : List ℕ) × IsValid c order × (view c.entries order ≡ touch k l) × (r ≡ get k l)

found_refines :
    (c : IconCache) (order : List ℕ) (k : Key) (o : Option ℕ)
    → IsValid c order
    → find_key c k ≡ o
    → Looked (view c.entries order) k (lookup_found c o)
unfolding lookup_found touch get find_key
found_refines c order k none v e =
    let nothing = find-view-none c.entries k order (
      found_none c order v k
        (λ i b. find_from-none (λ i. matches k (c.entries i)) cap 0 i e (omega arith) b)) in
    (order, misses-IsValid c order v (u64 (c.misses + 1)), rw nothing, rw nothing)
found_refines c order k (some i) v e =
    let (m, b) = find_from-some (λ i. matches k (c.entries i)) cap 0 e in
    let inside = found_in_order c order v k i b m in
    let alone = found_alone c order v k i b m in
    let found = find-view c.entries k i order alone inside in
    (
      i ∷ remove i order,
      touch-IsValid (record c { hits = u64 (c.hits + 1) }) order i
          (hits-IsValid c order v (u64 (c.hits + 1))) inside,
      rw (found, drop_key-view c.entries k i order alone)
          (touch-view (record c { hits = u64 (c.hits + 1) }) i (remove i order)),
      rw found,
    )

-- A lookup in a valid cache returns what the list returns, and leaves a valid cache, which holds
-- the list with what was found moved to the front.
pub lookup_key_refines :
    (c : IconCache) (order : List ℕ) (k : Key)
    → IsValid c order
    → Looked (view c.entries order) k (lookup_key c k)
unfolding lookup_key
lookup_key_refines c order k v = found_refines c order k (find_key c k) v refl

-- A lookup that returns nothing has found nothing, since every icon has a surface.
pub find_key_of_get :
    (c : IconCache) (order : List ℕ) (k : Key)
    → IsValid c order
    → get k (view c.entries order) ≡ none
    → find_key c k ≡ none
unfolding find_key get
find_key_of_get c order k v h =
    elim (Option-cases (find_from (λ i. matches k (c.entries i)) cap 0)) [
      | inl e ↦ e
      | inr (i, e) ↦
          let (m, b) = find_from-some (λ i. matches k (c.entries i)) cap 0 e in
          let inside = found_in_order c order v k i b m in
          let found = find-view c.entries k i order (found_alone c order v k i b m) inside in
          let s = v.shown i b (v.marks i b ∙ inside) in absurd (ground arith)
    ]
