-- ===== src/Panel/IconCache/Refine/Insert.antt =====
-- The insertion into the icon cache against the list that it holds.
use mathlib.Core.Bool.{false≢true}
use nizam.Prelude.{
  ==_sym, ℕ, zero, suc, ◌≤◌, ◌<◌, ◌≡◌, ◌≢◌, ◌∙◌, refl, sym, ap, Bool, true, false, not, List, [],
  ◌∷◌, arith, ◌==◌, Option, none, some, length, take, Bool-cases, inl, inr, ==_refl,
  take_of_length-le,
}
use nizam.Panel.IconCache.{cap, Entry, IconCache, icon_cache_evict_tail, evict_index}
use nizam.Panel.IconCache.Search.{
  Key, matches, find_key, find_free, fill_found, insert_at, insert_key,
}
use nizam.Prelude.Members.{elem, remove, Distinct, elem-remove}
use nizam.Panel.IconCache.Links.{last_or}
use nizam.Panel.IconCache.Unlink.{ne_test, elem-cons}
use nizam.Panel.IconCache.Lru.{Item, item, new_item, insert}
use nizam.Panel.IconCache.Slots.{
  find_from-some, find_from-none, length-le_of_range, le-length_of_all,
}
use nizam.Panel.IconCache.Refine.{IsValid, view, view-frame}
use nizam.Panel.IconCache.Refine.Fill.{fill-IsValid, view-fill, free_absent}
use nizam.Panel.IconCache.Refine.Evict.{item-evict, in_use-evict, matches-evict, evict-IsValid}

elem-last : (q idx : ℕ) (l : List ℕ) → last_or (some q) l ≡ some idx → elem idx (q ∷ l) ≡ true
elem-last q idx [] e = ground arith
elem-last q idx (i ∷ l) e = ground (arith, elem-last i idx l e)

-- Removing the last index of a list keeps all the others.
remove-last :
    (es : ℕ → Entry) (n idx : ℕ) (l : List ℕ)
    → Distinct l
    → last_or none l ≡ some idx
    → length l ≡ suc n
    → view es (remove idx l) ≡ take n (view es l)
unfolding view
remove-last es n idx [] d e h = absurd (omega arith)
remove-last es zero idx (i ∷ []) d e h = ground arith
remove-last es (suc n) idx (i ∷ []) d e h = absurd (omega arith)
remove-last es zero idx (i ∷ j ∷ l) d e h = absurd (omega arith)
remove-last es (suc n) idx (i ∷ j ∷ l) d e h =
    rw (==_sym i idx (ne_test idx i (j ∷ l) d.0 (elem-last j idx l e)))
      (ap (λ t. item (es i) ∷ t) (remove-last es n idx (j ∷ l) d.1 e (omega arith)))

length-view : (es : ℕ → Entry) (l : List ℕ) → length (view es l) ≡ length l
unfolding view
length-view es [] = refl
length-view es (i ∷ l) = ap suc (length-view es l)

-- How the result of an insertion stands to the list that the cache held.
abbrev pub Inserted : List Item → Key → ℕ → IconCache × Bool → Type 0
Inserted l k surf (c, done) =
    (done ≡ true) × ((order : List ℕ) × IsValid c order × (view c.entries order ≡ insert k surf l))

module _ (c : IconCache) (order : List ℕ) (k : Key) (surf : ℕ) (v : IsValid c order)
    (new : (i : ℕ) → i < cap → matches k (c.entries i) ≡ false) where
  -- With a free index fewer than 64 entries are in use.
  room : (idx : ℕ) → idx < cap → (c.entries idx).in_use ≡ false → length order ≤ 63
  room idx b free = omega (
    arith,
    length-le_of_range cap (idx ∷ order) (sym (v.marks idx b) ∙ free, v.linked.distinct)
        (λ i e. elim (Bool-cases (idx == i)) [
          | inl f ↦ ground (arith, b)
          | inr f ↦ v.in_range i (ground arith)
        ]),
  )

  fill_found_refines :
      (o : Option ℕ) (l : List Item)
      → find_free c ≡ o
      → o ≢ none
      → take 63 l ≡ view c.entries order
      → Inserted l k surf (fill_found c k surf o)
  unfolding fill_found insert find_free
  fill_found_refines none l e n t = absurd (n refl)
  fill_found_refines (some idx) l e n t =
      let (free, b) = find_from-some (λ i. not (c.entries i).in_use) cap 0 e in
      let off : (c.entries idx).in_use ≡ false = ground arith in
      (
        refl,
        (
          idx ∷ order,
          fill-IsValid c order k surf idx v b off new,
          view-fill c k surf idx order (free_absent c order k surf idx v b off new)
              ∙ ap (λ r. new_item k surf ∷ r) (sym t),
        ),
      )

  full : find_free c ≡ none → (i : ℕ) → i < cap → (c.entries i).in_use ≡ true
  unfolding find_free
  full e i b =
      ground (arith, find_from-none (λ i. not (c.entries i).in_use) cap 0 i e (omega arith) b)

  full_length : find_free c ≡ none → length order ≡ 64
  full_length e = omega (
    arith,
    length-le_of_range cap order v.linked.distinct v.in_range,
    le-length_of_all cap order v.linked.distinct (λ i b. sym (v.marks i b) ∙ full e i b),
  )

last_some :
    (l : List ℕ) → length l ≡ 64 → (idx : ℕ) × (last_or none l ≡ some idx) × (elem idx l ≡ true)
last_some [] h = absurd (omega arith)
last_some (i ∷ l) h = go i l
  where
    go :
        (i : ℕ) (l : List ℕ)
        → (idx : ℕ) × (last_or (some i) l ≡ some idx) × (elem idx (i ∷ l) ≡ true)
    go i [] = (i, refl, rw (==_refl i))
    go i (j ∷ l) = let (idx, e, m) = go j l in (idx, e, elem-cons idx i (j ∷ l) m)

module _ (c : IconCache) (order : List ℕ) (k : Key) (surf : ℕ) (v : IsValid c order)
    (new : (i : ℕ) → i < cap → matches k (c.entries i) ≡ false) where
  -- Behind the eviction an entry is free.
  evicted_free :
      (idx : ℕ) → idx < cap → elem idx order ≡ true → find_free (evict_index c idx) ≢ none
  unfolding find_free
  evicted_free idx b m e = ground (
    arith,
    find_from-none (λ i. not ((evict_index c idx).entries i).in_use) cap 0 idx e (omega arith) b,
    in_use-evict c order idx v m idx,
    ==_refl idx,
  )

  evicted_view :
      (idx : ℕ)
      → last_or none order ≡ some idx
      → elem idx order ≡ true
      → length order ≡ 64
      → take 63 (view c.entries order) ≡ view (evict_index c idx).entries (remove idx order)
  evicted_view idx e m l =
      sym (remove-last c.entries 63 idx order v.linked.distinct e l)
      ∙ sym (
          view-frame c.entries (evict_index c idx).entries (remove idx order) (λ i f.
            item-evict c order idx v m i
              (ne_test i idx (remove idx order) (elem-remove idx idx order ∙ rw (==_refl idx)) f)))

  evicted_new :
      (idx : ℕ)
      → elem idx order ≡ true
      → (i : ℕ) → i < cap
      → matches k ((evict_index c idx).entries i) ≡ false
  evicted_new idx m i b = elim (Bool-cases (matches k ((evict_index c idx).entries i))) [
    | inl t ↦ absurd (false≢true (sym (new i b) ∙ matches-evict c order idx v m k i t))
    | inr f ↦ f
  ]

  some_room : (idx : ℕ) → find_free c ≡ some idx → length order ≤ 63
  unfolding find_free
  some_room idx e =
      let (free, b) = find_from-some (λ i. not (c.entries i).in_use) cap 0 e in
      room c order k surf v new idx b (ground arith)

  evict_is : (idx : ℕ) → last_or none order ≡ some idx → icon_cache_evict_tail c ≡ evict_index c idx
  unfolding icon_cache_evict_tail
  evict_is idx h = rw (v.linked.tail_is, h)

  insert_at_refines :
      (o : Option ℕ)
      → find_free c ≡ o
      → Inserted (view c.entries order) k surf (insert_at c k surf o)
  unfolding insert_at
  insert_at_refines (some idx) e =
      fill_found_refines c order k surf v new (some idx) (view c.entries order) e (λ h. cc)
        (take_of_length-le 63 (view c.entries order)
          (omega (arith, length-view c.entries order, some_room idx e)))
  insert_at_refines none e =
      let (idx, last, m) = last_some order (full_length c order k surf v new e) in
      rw (evict_is idx last) (
        fill_found_refines (evict_index c idx) (remove idx order) k surf
          (evict-IsValid c order idx v m) (evicted_new idx m) (find_free (evict_index c idx))
          (view c.entries order) refl (evicted_free idx (v.in_range idx m) m)
          (evicted_view idx last m (full_length c order k surf v new e)))

-- An insertion into a valid cache of a key that it does not hold succeeds and leaves a valid
-- cache, which holds the list with the new icon in front, and of the old ones the 63 that were
-- used last.
pub insert_key_refines :
    (c : IconCache) (order : List ℕ) (k : Key) (surf : ℕ)
    → IsValid c order
    → find_key c k ≡ none
    → Inserted (view c.entries order) k surf (insert_key c k surf)
unfolding insert_key find_key
insert_key_refines c order k surf v e =
    insert_at_refines c order k surf v
      (λ i b. find_from-none (λ i. matches k (c.entries i)) cap 0 i e (omega arith) b) (find_free c)
      refl
