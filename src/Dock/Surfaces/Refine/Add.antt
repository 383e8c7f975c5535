-- ===== src/Dock/Surfaces/Refine/Add.antt =====
-- The icon cache of the dock: a new entry.
use mathlib.Core.Path.{subst}
use nizam.Prelude.{
  ℕ, ◌+◌, ◌<◌, ◌≡◌, ◌∙◌, refl, sym, ap, true, false, List, ◌∷◌, arith, ◌==◌, if◌then◌else◌, none,
  some, length, Bool-cases, inl, inr, ==_iff, ==_refl,
}
use nizam.Prelude.Members.{elem}
use nizam.Panel.IconCache.Links.{Nexts-frame, Prevs-frame}
use nizam.Panel.IconCache.Unlink.{ne_test}
use nizam.Panel.IconCache.Valid.{IsLinked}
use nizam.Dock.Surfaces.{
  u64, IconKey, IconEntry, icon_key_equal, HashTable, alter, icon_entry_link_head,
}
use nizam.Dock.Surfaces.Get.{Cache, add_entry}
use nizam.Dock.Surfaces.Links.{places, link_head-IsLinked}
use nizam.Dock.Surfaces.Lru.{Cached, cached, room}
use nizam.Dock.Surfaces.Valid.{
  IsValid, view, icon_key_equal_refl, eq_of_icon_key_equal, cached-link, view-frame,
}

abbrev new_entry : IconKey → ℕ → IconEntry
new_entry key surface = record { key = key; surface = some surface; prev = none; next = none }

module _ (H : HashTable) (c : Cache H) (key : IconKey) (surface entry : ℕ) where
  -- The cache with the memory of the entry filled, before it is linked.
  abbrev filled : Cache H
  filled = record c {
    heap = alter c.heap entry (λ _. new_entry key surface);
    alive_surfaces = u64 (c.alive_surfaces + 1);
  }

  pub cached-add :
      (i : ℕ)
      → cached ((add_entry H c key surface entry).heap i)
        ≡ (if i == entry then cached (new_entry key surface) else cached (c.heap i))
  unfolding add_entry
  cached-add i = cached-link filled entry i ∙ ground arith

  table-add : (add_entry H c key surface entry).table ≡ H.insert key entry c.table
  unfolding add_entry icon_entry_link_head
  table-add = refl

  size-add : (add_entry H c key surface entry).size ≡ c.size + 1
  unfolding add_entry icon_entry_link_head
  size-add = refl

  pub capacity-add : (add_entry H c key surface entry).capacity ≡ c.capacity
  unfolding add_entry icon_entry_link_head
  capacity-add = refl

  pub loaded-add : (add_entry H c key surface entry).loaded ≡ c.loaded
  unfolding add_entry icon_entry_link_head
  loaded-add = refl

  pub destroyed-add : (add_entry H c key surface entry).destroyed ≡ c.destroyed
  unfolding add_entry icon_entry_link_head
  destroyed-add = refl

  alive-add : (add_entry H c key surface entry).alive_surfaces ≡ u64 (c.alive_surfaces + 1)
  unfolding add_entry icon_entry_link_head
  alive-add = refl

  lookup-add :
      (k : IconKey)
      → H.lookup k (add_entry H c key surface entry).table
        ≡ (if icon_key_equal key k then some entry else H.lookup k c.table)
  lookup-add k = ap (H.lookup k) table-add ∙ H.lookup-insert key k entry c.table

module _ (H : HashTable) (c : Cache H) (key : IconKey) (surface entry : ℕ) (order : List ℕ)
    (v : IsValid H c order) (fresh : elem entry order ≡ false) where
  filled-IsLinked : IsLinked (places (filled H c key surface entry)) order
  filled-IsLinked = record {
    distinct = v.linked.distinct;
    nexts =
        Nexts-frame (places c).entries (places (filled H c key surface entry)).entries order
          (λ i e. rw (ne_test i entry order fresh e) refl) v.linked.nexts;
    prevs =
        Prevs-frame (places c).entries (places (filled H c key surface entry)).entries none order
          (λ i e. rw (ne_test i entry order fresh e) refl) v.linked.prevs;
    head_is = v.linked.head_is;
    tail_is = v.linked.tail_is;
  }

  add_entry-IsLinked : IsLinked (places (add_entry H c key surface entry)) (entry ∷ order)
  unfolding add_entry
  add_entry-IsLinked =
      let w = link_head-IsLinked (filled H c key surface entry) entry order filled-IsLinked fresh in
      record {
        distinct = w.distinct;
        nexts = w.nexts;
        prevs = w.prevs;
        head_is = w.head_is;
        tail_is = w.tail_is;
      }

  old :
      (i : ℕ)
      → elem i order ≡ true
      → cached ((add_entry H c key surface entry).heap i) ≡ cached (c.heap i)
  old i e = cached-add H c key surface entry i ∙ rw (ne_test i entry order fresh e)

  new : cached ((add_entry H c key surface entry).heap entry) ≡ cached (new_entry key surface)
  new = cached-add H c key surface entry entry ∙ rw (==_refl entry)

  pub view-add :
      view (add_entry H c key surface entry).heap (entry ∷ order)
      ≡ cached (new_entry key surface) ∷ view c.heap order
  unfolding view
  view-add = rw (new, view-frame c.heap (add_entry H c key surface entry).heap order old)

  -- A new entry in front keeps the cache valid, where there is room for it and its key is new.
  module _ (b : length order < room c.capacity) (missing : H.lookup key c.table ≡ none) where
    other_key : (p : ℕ) → elem p order ≡ true → icon_key_equal key (c.heap p).key ≡ false
    other_key p e = elim (Bool-cases (icon_key_equal key (c.heap p).key)) [
      | inl f ↦
          let same = eq_of_icon_key_equal key (c.heap p).key f in
          let at_p : H.lookup key c.table ≡ some p =
            ap (λ t. H.lookup t c.table) same ∙ v.mapped p e in
          absurd (ground arith)
      | inr f ↦ f
    ]

    key_now :
        (p : ℕ)
        → elem p order ≡ true
        → ((add_entry H c key surface entry).heap p).key ≡ (c.heap p).key
    key_now p e = ap (λ (x : Cached). x.key) (old p e)

    key_new : ((add_entry H c key surface entry).heap entry).key ≡ key
    key_new = ap (λ (x : Cached). x.key) new

    mapped_entry :
        (p : ℕ)
        → (entry == p) ≡ true
        → H.lookup
            ((add_entry H c key surface entry).heap p).key
            (add_entry H c key surface entry).table
          ≡ some p
    mapped_entry p e =
        subst
          (λ t.
            H.lookup ((add_entry H c key surface entry).heap t).key
              (add_entry H c key surface entry).table
            ≡ some t)
          ((==_iff entry p).0 e)
          (ap (λ t. H.lookup t (add_entry H c key surface entry).table) key_new
            ∙ lookup-add H c key surface entry key
            ∙ rw (icon_key_equal_refl key))

    mapped_old :
        (p : ℕ)
        → elem p order ≡ true
        → H.lookup
            ((add_entry H c key surface entry).heap p).key
            (add_entry H c key surface entry).table
          ≡ some p
    mapped_old p e =
        ap (λ t. H.lookup t (add_entry H c key surface entry).table) (key_now p e)
        ∙ lookup-add H c key surface entry (c.heap p).key
        ∙ rw (other_key p e) (v.mapped p e)

    only_now :
        (k : IconKey) (p : ℕ)
        → H.lookup k (add_entry H c key surface entry).table ≡ some p
        → (elem p (entry ∷ order) ≡ true) × (((add_entry H c key surface entry).heap p).key ≡ k)
    only_now k p e = elim (Bool-cases (icon_key_equal key k)) [
      | inl f ↦
          let at_entry : some entry ≡ some p =
            sym (rw f at (lookup-add H c key surface entry k)) ∙ e in
          let ep : entry ≡ p = ground arith in
          (
            ground arith,
            subst (λ t. ((add_entry H c key surface entry).heap t).key ≡ k) ep
                (key_new ∙ eq_of_icon_key_equal key k f),
          )
      | inr f ↦
          let (a, g) = v.only k p (sym (rw f at (lookup-add H c key surface entry k)) ∙ e) in
          (ground arith, key_now p a ∙ g)
    ]

    shown_now :
        (p : ℕ)
        → elem p (entry ∷ order) ≡ true
        → (s : ℕ) × (((add_entry H c key surface entry).heap p).surface ≡ some s)
    shown_now p e = elim (Bool-cases (entry == p)) [
      | inl f ↦ (
        surface,
        subst (λ t. ((add_entry H c key surface entry).heap t).surface ≡ some surface)
            ((==_iff entry p).0 f) (ap (λ (x : Cached). x.surface) new),
      )
      | inr f ↦
          let inside : elem p order ≡ true = ground arith in
          let (s, g) = v.shown p inside in (s, ap (λ (x : Cached). x.surface) (old p inside) ∙ g)
    ]

    pub add-IsValid : IsValid H (add_entry H c key surface entry) (entry ∷ order)
    add-IsValid = record {
      linked = add_entry-IsLinked;
      size_is = omega (arith, size-add H c key surface entry, v.size_is);
      alive_is = alive-add H c key surface entry ∙ rw v.alive_is (omega arith);
      bounded = rw (capacity-add H c key surface entry) (omega (arith, b));
      mapped = λ p e. elim (Bool-cases (entry == p)) [
        | inl f ↦ mapped_entry p f
        | inr f ↦ mapped_old p (ground arith)
      ];
      only = only_now;
      shown = shown_now;
    }
