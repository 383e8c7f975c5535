-- ===== src/Dock/Surfaces/Refine/Evict.antt =====
-- The icon cache of the dock: giving up the least recent entry.
use mathlib.Core.Path.{subst}
use nizam.Prelude.{
  ℕ, zero, suc, ◌+◌, ◌-◌, ◌≤◌, ◌<◌, ◌≡◌, ◌∙◌, refl, sym, ap, true, false, List, [], ◌∷◌, arith,
  ◌==◌, if◌then◌else◌, none, some, length, take, Bool-cases, inl, inr, ==_iff, ==_refl, ==_sym,
  take_of_length-le,
}
use nizam.Prelude.Int.{ℤ, pos, negsuc, leb_ℤ}
use nizam.Prelude.Members.{elem, remove, Distinct, elem-remove, length-remove, of_elem-remove}
use nizam.Panel.IconCache.Links.{last_or}
use nizam.Panel.IconCache.Unlink.{ne_test, elem-cons}
use nizam.Panel.IconCache.Valid.{IsLinked}
use nizam.Dock.Surfaces.{
  u64, IconKey, IconEntry, icon_key_equal, HashTable, destroy_surface, destroy_call,
  icon_entry_unlink, icon_entry_destroy,
}
use nizam.Dock.Surfaces.Get.{Cache, evict_entry, evict_tail, make_room}
use nizam.Dock.Surfaces.Links.{places, unlink-IsLinked}
use nizam.Dock.Surfaces.Lru.{Cached, cached, room}
use nizam.Dock.Surfaces.Counts.{times, times_shown, times-destroy, times_shown-remove}
use nizam.Dock.Surfaces.Valid.{
  IsValid, view, icon_key_equal_refl, eq_of_icon_key_equal, cached-unlink, view-frame, length-view,
}

not_same : (k p : ℕ) → some k ≡ some p → (p == k) ≡ false → ⊥
not_same k p e h = ground arith

module _ (H : HashTable) (c : Cache H) (order : List ℕ) (v : IsValid H c order) (k : ℕ)
    (m : elem k order ≡ true) where
  evict_entry-IsLinked : IsLinked (places (evict_entry H c k)) (remove k order)
  unfolding evict_entry icon_entry_destroy
  evict_entry-IsLinked =
      let w = unlink-IsLinked c k order v.linked m in
      record {
        distinct = w.distinct;
        nexts = w.nexts;
        prevs = w.prevs;
        head_is = w.head_is;
        tail_is = w.tail_is;
      }

  pub cached-evict : (i : ℕ) → cached ((evict_entry H c k).heap i) ≡ cached (c.heap i)
  unfolding evict_entry icon_entry_destroy
  cached-evict i = cached-unlink c k i

  table-evict : (evict_entry H c k).table ≡ H.remove (c.heap k).key c.table
  unfolding evict_entry icon_entry_destroy icon_entry_unlink
  table-evict = ap (λ (x : Cached). H.remove x.key c.table) (cached-unlink c k k)

  size-evict : (evict_entry H c k).size ≡ c.size - 1
  unfolding evict_entry icon_entry_destroy icon_entry_unlink
  size-evict = refl

  pub capacity-evict : (evict_entry H c k).capacity ≡ c.capacity
  unfolding evict_entry icon_entry_destroy icon_entry_unlink
  capacity-evict = refl

  pub loaded-evict : (evict_entry H c k).loaded ≡ c.loaded
  unfolding evict_entry icon_entry_destroy icon_entry_unlink
  loaded-evict = refl

  destroyed-evict : (evict_entry H c k).destroyed ≡ destroy_call c.destroyed (c.heap k).surface
  unfolding evict_entry icon_entry_destroy icon_entry_unlink
  destroyed-evict = ap (λ (x : Cached). destroy_call c.destroyed x.surface) (cached-unlink c k k)

  -- The surface that leaves the cache is destroyed.
  pub accounted-evict :
      (s : ℕ)
      → times_shown s (view (evict_entry H c k).heap (remove k order))
          + times s (evict_entry H c k).destroyed
        ≡ times_shown s (view c.heap order) + times s c.destroyed
  accounted-evict s =
      rw
        (
          view-frame c.heap (evict_entry H c k).heap (remove k order) (λ j f. cached-evict j),
          destroyed-evict,
        )
        (omega (
          arith,
          times_shown-remove s c.heap k order v.linked.distinct m,
          times-destroy s c.destroyed (c.heap k).surface,
        ))

  alive-evict :
      (evict_entry H c k).alive_surfaces ≡ destroy_surface c.alive_surfaces (c.heap k).surface
  unfolding evict_entry icon_entry_destroy icon_entry_unlink
  alive-evict =
      ap (λ (x : Cached). destroy_surface c.alive_surfaces x.surface) (cached-unlink c k k)

  length-rest : length (remove k order) + 1 ≡ length order
  length-rest = length-remove k order v.linked.distinct m

  alive_after : (evict_entry H c k).alive_surfaces ≡ u64 (length (remove k order))
  alive_after =
      let (s, e) = v.shown k m in alive-evict ∙ rw (e, v.alive_is) (omega (arith, length-rest))

  -- What the table still maps.
  lookup-evict :
      (key : IconKey)
      → H.lookup key (evict_entry H c k).table
        ≡ (if icon_key_equal (c.heap k).key key then none else H.lookup key c.table)
  lookup-evict key = ap (H.lookup key) table-evict ∙ H.lookup-remove (c.heap k).key key c.table

  other_key :
      (p : ℕ)
      → elem p (remove k order) ≡ true
      → icon_key_equal (c.heap k).key (c.heap p).key ≡ false
  other_key p e = elim (Bool-cases (icon_key_equal (c.heap k).key (c.heap p).key)) [
    | inl f ↦
        let same = eq_of_icon_key_equal (c.heap k).key (c.heap p).key f in
        let (apart, inside) = of_elem-remove k p order e in
        let one : some k ≡ some p =
          sym (v.mapped k m) ∙ ap (λ t. H.lookup t c.table) same ∙ v.mapped p inside in
        absurd (not_same k p one apart)
    | inr f ↦ f
  ]

  only_rest :
      (key : IconKey) (p : ℕ)
      → H.lookup key (evict_entry H c k).table ≡ some p
      → (elem p (remove k order) ≡ true) × ((c.heap p).key ≡ key)
  only_rest key p e = elim (Bool-cases (icon_key_equal (c.heap k).key key)) [
    | inl f ↦ absurd (ground (arith, lookup-evict key))
    | inr f ↦
        let (a, b) = v.only key p (sym (rw f at (lookup-evict key)) ∙ e) in
        (
          elem-remove k p order ∙ elim (Bool-cases (p == k)) [
            | inl g ↦
                let same : (c.heap k).key ≡ key =
                  subst (λ t. (c.heap t).key ≡ key) ((==_iff p k).0 g) b in
                absurd (
                  differ (
                    sym f
                    ∙ subst (λ t. icon_key_equal t key ≡ true) (sym same)
                        (icon_key_equal_refl key)))
            | inr g ↦ rw g a
          ],
          b,
        )
  ]
    where
      differ : false ≡ true → ⊥
      differ h = cc

  pub evict-IsValid : IsValid H (evict_entry H c k) (remove k order)
  evict-IsValid =
      let key = λ (p : ℕ). ap (λ (x : Cached). x.key) (cached-evict p) in
      record {
        linked = evict_entry-IsLinked;
        size_is = omega (arith, size-evict, v.size_is, length-rest);
        alive_is = alive_after;
        bounded = rw capacity-evict (omega (arith, v.bounded, length-rest));
        mapped = λ p e.
            ap (λ t. H.lookup t (evict_entry H c k).table) (key p)
            ∙ lookup-evict (c.heap p).key
            ∙ rw (other_key p e) (v.mapped p ((of_elem-remove k p order e).1));
        only = λ q p e. let (a, b) = only_rest q p e in (a, key p ∙ b);
        shown = λ p e.
            let (s, g) = v.shown p ((of_elem-remove k p order e).1) in
            (s, ap (λ (x : Cached). x.surface) (cached-evict p) ∙ g);
      }

  -- A key that is not mapped stays so.
  pub missing-evict :
      (key : IconKey) → H.lookup key c.table ≡ none → H.lookup key (evict_entry H c k).table ≡ none
  missing-evict key e = lookup-evict key ∙ ground arith

-- The last of a list.
elem-last : (q idx : ℕ) (l : List ℕ) → last_or (some q) l ≡ some idx → elem idx (q ∷ l) ≡ true
elem-last q idx [] e = ground arith
elem-last q idx (i ∷ l) e = ground (arith, elem-last i idx l e)

last_some : (i : ℕ) (l : List ℕ) → (k : ℕ) × (last_or (some i) l ≡ some k) × (elem k (i ∷ l) ≡ true)
last_some i [] = (i, refl, rw (==_refl i))
last_some i (j ∷ l) = let (k, e, m) = last_some j l in (k, e, elem-cons k i (j ∷ l) m)

remove-last :
    (h : ℕ → IconEntry) (n k : ℕ) (l : List ℕ)
    → Distinct l
    → last_or none l ≡ some k
    → length l ≡ suc n
    → view h (remove k l) ≡ take n (view h l)
unfolding view
remove-last h n k [] d e f = absurd (omega arith)
remove-last h zero k (i ∷ []) d e f = ground arith
remove-last h (suc n) k (i ∷ []) d e f = absurd (omega arith)
remove-last h zero k (i ∷ j ∷ l) d e f = absurd (omega arith)
remove-last h (suc n) k (i ∷ j ∷ l) d e f =
    rw (==_sym i k (ne_test k i (j ∷ l) d.0 (elem-last j k l e)))
      (ap (λ t. cached (h i) ∷ t) (remove-last h n k (j ∷ l) d.1 e (omega arith)))

full_length :
    (capacity : ℤ) (n : ℕ)
    → leb_ℤ capacity (pos (suc n)) ≡ true
    → suc n ≤ room capacity
    → suc n ≡ suc (room capacity - 1)
full_length (pos a) n h b = ground arith
full_length (negsuc a) n h b = omega arith

has_room : (capacity : ℤ) (n : ℕ) → leb_ℤ capacity (pos n) ≡ false → n < room capacity
has_room (pos a) n h = ground arith
has_room (negsuc a) n h = ground arith

-- A cache that holds `l` has room for one more icon, and what is not in it is where it was.
pub record HasRoom (H : HashTable) (c c' : Cache H) (order order' : List ℕ) : Type 0 where
  pub valid : IsValid H c' order'
  pub room_left : length order' < room c.capacity
  pub kept : view c'.heap order' ≡ take (room c.capacity - 1) (view c.heap order)
  pub missing : (k : IconKey) → H.lookup k c.table ≡ none → H.lookup k c'.table ≡ none
  pub free : (p : ℕ) → elem p order ≡ false → elem p order' ≡ false
  pub same_capacity : c'.capacity ≡ c.capacity
  pub same_loaded : c'.loaded ≡ c.loaded
  pub accounted :
      (s : ℕ)
      → times_shown s (view c'.heap order') + times s c'.destroyed
        ≡ times_shown s (view c.heap order) + times s c.destroyed

module _ (H : HashTable) (c : Cache H) where
  stays :
      (order : List ℕ)
      → IsValid H c order
      → length order < room c.capacity
      → HasRoom H c c order order
  stays order v b = record {
    valid = v;
    room_left = b;
    kept = sym (
        take_of_length-le (room c.capacity - 1) (view c.heap order)
          (omega (arith, length-view c.heap order, b)));
    missing = λ k e. e;
    free = λ p e. e;
    same_capacity = refl;
    same_loaded = refl;
    accounted = λ s. refl;
  }

  evicted :
      (i k : ℕ) (l : List ℕ)
      → IsValid H c (i ∷ l)
      → leb_ℤ c.capacity (pos c.size) ≡ true
      → last_or (some i) l ≡ some k
      → elem k (i ∷ l) ≡ true
      → HasRoom H c (evict_entry H c k) (i ∷ l) (remove k (i ∷ l))
  evicted i k l v full e m =
      let order = i ∷ l in
      let long : length order ≡ suc (room c.capacity - 1) =
        full_length c.capacity (length l) (rw v.size_is at full) v.bounded in
      record {
        valid = evict-IsValid H c order v k m;
        room_left = omega (arith, length-remove k order v.linked.distinct m, v.bounded);
        kept =
            view-frame c.heap (evict_entry H c k).heap (remove k order)
              (λ j f. cached-evict H c order v k m j)
            ∙ remove-last c.heap (room c.capacity - 1) k order v.linked.distinct e long;
        missing = missing-evict H c order v k m;
        free = λ p f. elem-remove k p order ∙ ground arith;
        same_capacity = capacity-evict H c order v k m;
        same_loaded = loaded-evict H c order v k m;
        accounted = accounted-evict H c order v k m;
      }

  -- Behind `make_room` there is room.
  pub make_room-HasRoom :
      (order : List ℕ)
      → IsValid H c order
      → (order' : List ℕ) × HasRoom H c (make_room H c) order order'
  unfolding make_room
  make_room-HasRoom order v = elim (Bool-cases (leb_ℤ c.capacity (pos c.size))) [
    | inl full ↦ rw full (at_tail order v full)
    | inr room_left ↦
        rw room_left
          (order, stays order v (has_room c.capacity (length order) (rw v.size_is at room_left)))
  ]
    where
      at_tail :
          (order : List ℕ)
          → IsValid H c order
          → leb_ℤ c.capacity (pos c.size) ≡ true
          → (order' : List ℕ) × HasRoom H c (evict_tail H c c.tail) order order'
      at_tail [] v full =
          subst (λ o. (order' : List ℕ) × HasRoom H c (evict_tail H c o) [] order')
            (sym v.linked.tail_is) ([], stays [] v (omega arith))
      at_tail (i ∷ l) v full =
          let (k, e, m) = last_some i l in
          subst (λ o. (order' : List ℕ) × HasRoom H c (evict_tail H c o) (i ∷ l) order')
            (sym (v.linked.tail_is ∙ e)) (remove k (i ∷ l), evicted i k l v full e m)
