-- ===== src/Dock/Surfaces/Refine/Hit.antt =====
-- The icon cache of the dock: looking a key up, and the entry that is found.
use mathlib.Core.Path.{subst}
use nizam.Prelude.{
  ℕ, ◌≡◌, ◌∙◌, refl, sym, ap, true, false, List, [], ◌∷◌, arith, ◌==◌, none, some, length,
  Bool-cases, inl, inr, ==_iff, ==_refl,
}
use nizam.Prelude.Members.{elem, remove, length-remove}
use nizam.Dock.Surfaces.{
  u64, IconKey, IconEntry, icon_key_equal, HashTable, icon_entry_touch, icon_entry_unlink,
  icon_entry_link_head,
}
use nizam.Dock.Surfaces.Get.{Cache}
use nizam.Dock.Surfaces.Links.{touch-IsLinked}
use nizam.Dock.Surfaces.Lru.{Cached, cached, find, drop_key}
use nizam.Dock.Surfaces.Counts.{IsAccounted, times_shown-remove}
use nizam.Dock.Surfaces.Valid.{
  IsValid, view, icon_key_equal_refl, eq_of_icon_key_equal, cached-touch, view-frame, elem-front,
}

module _ (H : HashTable) (c : Cache H) (order : List ℕ) (v : IsValid H c order) (k : IconKey) where
  -- An entry of the list has the key exactly where the table maps the key to it.
  pub key_of_found :
      (i j : ℕ)
      → H.lookup k c.table ≡ some i
      → elem j order ≡ true
      → icon_key_equal (c.heap j).key k ≡ (j == i)
  key_of_found i j e m = elim (Bool-cases (icon_key_equal (c.heap j).key k)) [
    | inl f ↦
        let same : (c.heap j).key ≡ k = eq_of_icon_key_equal (c.heap j).key k f in
        let at_j : H.lookup k c.table ≡ some j =
          subst (λ t. H.lookup t c.table ≡ some j) same (v.mapped j m) in
        rw f (ground arith)
    | inr f ↦ elim (Bool-cases (j == i)) [
      | inl g ↦
          let same : (c.heap j).key ≡ k =
            subst (λ t. (c.heap t).key ≡ k) (sym ((==_iff j i).0 g)) (v.only k i e).1 in
          absurd (
            differ
              (sym f ∙ subst (λ t. icon_key_equal t k ≡ true) (sym same) (icon_key_equal_refl k)))
      | inr g ↦ f ∙ sym g
    ]
  ]
    where
      differ : false ≡ true → ⊥
      differ h = cc

  pub no_key_of_missing :
      (j : ℕ)
      → H.lookup k c.table ≡ none
      → elem j order ≡ true
      → icon_key_equal (c.heap j).key k ≡ false
  no_key_of_missing j e m = elim (Bool-cases (icon_key_equal (c.heap j).key k)) [
    | inl f ↦
        let same : (c.heap j).key ≡ k = eq_of_icon_key_equal (c.heap j).key k f in
        let at_j : H.lookup k c.table ≡ some j =
          subst (λ t. H.lookup t c.table ≡ some j) same (v.mapped j m) in
        absurd (ground arith)
    | inr f ↦ f
  ]

module _ (h : ℕ → IconEntry) (k : IconKey) where
  pub find-view :
      (i : ℕ) (l : List ℕ)
      → ((j : ℕ) → elem j l ≡ true → icon_key_equal (h j).key k ≡ (j == i))
      → elem i l ≡ true
      → find k (view h l) ≡ some (cached (h i))
  unfolding find view
  find-view i [] f m = absurd (ground arith)
  find-view i (j ∷ l) f m = elim (Bool-cases (j == i)) [
    | inl e ↦ rw (f j (rw (==_refl j)), e) (ap (λ t. some (cached (h t))) ((==_iff j i).0 e))
    | inr e ↦ rw (f j (rw (==_refl j)), e) (find-view i l (λ t g. f t (ground arith)) (rw e at m))
  ]

  pub drop_key-view :
      (i : ℕ) (l : List ℕ)
      → ((j : ℕ) → elem j l ≡ true → icon_key_equal (h j).key k ≡ (j == i))
      → drop_key k (view h l) ≡ view h (remove i l)
  unfolding drop_key view
  drop_key-view i [] f = refl
  drop_key-view i (j ∷ l) f = elim (Bool-cases (j == i)) [
    | inl e ↦ rw (f j (rw (==_refl j)), e) (drop_key-view i l (λ t g. f t (ground arith)))
    | inr e ↦ rw (f j (rw (==_refl j)), e, drop_key-view i l (λ t g. f t (ground arith)))
  ]

  pub find-view-none :
      (l : List ℕ)
      → ((j : ℕ) → elem j l ≡ true → icon_key_equal (h j).key k ≡ false)
      → find k (view h l) ≡ none
  unfolding find view
  find-view-none [] f = refl
  find-view-none (j ∷ l) f =
      rw (f j (rw (==_refl j))) (find-view-none l (λ t g. f t (ground arith)))

module _ (H : HashTable) (c : Cache H) (i : ℕ) where
  size-touch : (icon_entry_touch c i).size ≡ c.size
  unfolding icon_entry_touch icon_entry_unlink icon_entry_link_head
  size-touch = ground arith

  alive-touch : (icon_entry_touch c i).alive_surfaces ≡ c.alive_surfaces
  unfolding icon_entry_touch icon_entry_unlink icon_entry_link_head
  alive-touch = ground arith

  pub capacity-touch : (icon_entry_touch c i).capacity ≡ c.capacity
  unfolding icon_entry_touch icon_entry_unlink icon_entry_link_head
  capacity-touch = ground arith

  loaded-touch : (icon_entry_touch c i).loaded ≡ c.loaded
  unfolding icon_entry_touch icon_entry_unlink icon_entry_link_head
  loaded-touch = ground arith

  destroyed-touch : (icon_entry_touch c i).destroyed ≡ c.destroyed
  unfolding icon_entry_touch icon_entry_unlink icon_entry_link_head
  destroyed-touch = ground arith

  table-touch : (icon_entry_touch c i).table ≡ c.table
  unfolding icon_entry_touch icon_entry_unlink icon_entry_link_head
  table-touch = ground arith

-- A use keeps the cache valid, with the entry in front.
module _ (H : HashTable) (c : Cache H) (order : List ℕ) (v : IsValid H c order) (i : ℕ)
    (m : elem i order ≡ true) where
  length-front : length (i ∷ remove i order) ≡ length order
  length-front = omega (arith, length-remove i order v.linked.distinct m)

  pub touch-IsValid : IsValid H (icon_entry_touch c i) (i ∷ remove i order)
  touch-IsValid =
      let c' = icon_entry_touch c i in
      let key = λ (p : ℕ). ap (λ (x : Cached). x.key) (cached-touch c i p) in
      record {
        linked = touch-IsLinked c i order v.linked m;
        size_is = size-touch H c i ∙ v.size_is ∙ sym length-front;
        alive_is = alive-touch H c i ∙ v.alive_is ∙ ap u64 (sym length-front);
        bounded = rw (capacity-touch H c i, length-front) v.bounded;
        mapped =
            λ p e. rw (key p, table-touch H c i) (v.mapped p (sym (elem-front i p order m) ∙ e));
        only = λ k p e.
            let (a, b) = v.only k p (rw (table-touch H c i) at e) in
            (elem-front i p order m ∙ a, key p ∙ b);
        shown = λ p e.
            let (s, g) = v.shown p (sym (elem-front i p order m) ∙ e) in
            (s, ap (λ (x : Cached). x.surface) (cached-touch c i p) ∙ g);
      }

  pub view-touch :
      view (icon_entry_touch c i).heap (i ∷ remove i order)
      ≡ cached (c.heap i) ∷ view c.heap (remove i order)
  view-touch =
      view-frame c.heap (icon_entry_touch c i).heap (i ∷ remove i order) (λ j e. cached-touch c i j)
      ∙ (unfold view in refl)

  -- A use destroys no surface and loses none.
  pub touch-IsAccounted :
      IsAccounted c order → IsAccounted (icon_entry_touch c i) (i ∷ remove i order)
  touch-IsAccounted a s =
      rw (loaded-touch H c i, destroyed-touch H c i, view-touch)
        (omega (arith, a s, times_shown-remove s c.heap i order v.linked.distinct m))
