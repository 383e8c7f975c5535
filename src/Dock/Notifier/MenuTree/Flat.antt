-- ===== src/Dock/Notifier/MenuTree/Flat.antt =====
-- Where the memory is given, the items of a menu are the nodes of its tree, from the first to the
-- last and each in front of its children, and nothing is written behind the array.
use mathlib.Core.Path.{subst}
use nizam.Prelude.{
  ℕ, suc, ◌+◌, ◌*◌, ◌≤◌, ◌≡◌, ◌∙◌, refl, sym, ap, Bool, true, false, List, [], ◌∷◌, ◌++◌,
  append-nil, append_assoc, arith, ltb, leb, ◌==◌, if◌then◌else◌, length, length-append, All,
  Bool-cases, inl, inr, some,
}
use nizam.Prelude.Int.{ℤ, pos, eqb_ℤ}
use nizam.Dock.State.{MenuItem}
use nizam.Dock.Notifier.MenuTree.{
  Property, label, enabled, visible, kind, children_display, unread, Node, Children, node, end,
  child, skipped, Builder, no_items, put_item, menu_builder_push, read_property, read_properties,
  node_item, push_shown, menu_parse_node, menu_parse_children, some_items, fetched_items,
}

-- The nodes of a tree down to the fifth level, in preorder, without the node 0.
abbrev pub shown : ℤ → MenuItem → List MenuItem → List MenuItem
shown id x l = if eqb_ℤ id (pos 0) then l else x ∷ l

unfoldable mutual
  pub flat : ℕ → Node → List MenuItem
  flat level (node id props kids) =
      let below = flat_children (level + 1) kids in
      if ltb 4 level then [] else shown id (node_item id level props) below

  pub flat_children : ℕ → Children → List MenuItem
  flat_children level end = []
  flat_children level (child n kids) = flat level n ++ flat_children level kids
  flat_children level (skipped kids) = flat_children level kids

-- The array holds what it is counted to hold.
pub record IsSound (b : Builder) : Type 0 where
  pub backed : b.room ≡ b.cap
  pub within : length b.items ≤ b.cap
  pub no_overrun : b.overrun ≡ false

-- A builder that is sound, and whose items are those of `b` and then `l`.
abbrev pub Adds : Builder → List MenuItem → Builder → Type 0
Adds b l b' = IsSound b' × (b'.items ≡ b.items ++ l)

shown-append : (id : ℤ) (x : MenuItem) (l : List MenuItem) → shown id x [] ++ l ≡ shown id x l
shown-append id x l = elim (Bool-cases (eqb_ℤ id (pos 0))) [ inl e ↦ rw e | inr e ↦ rw e ]

module _ (grants : ℕ → Bool) (given : (n : ℕ) → grants n ≡ true) where
  put-Adds :
      (b : Builder) (x : MenuItem)
      → IsSound b
      → suc (length b.items) ≤ b.room
      → Adds b (x ∷ []) (put_item b x)
  unfolding put_item
  put-Adds b x s r =
      let filled : (b.room == 0) ≡ false = ground arith in
      let free : leb b.room (length b.items) ≡ false = ground arith in
      simp filled (
        record {
          backed = s.backed;
          within = omega (arith, length-append b.items (x ∷ []), s.backed, r);
          no_overrun = simp (s.no_overrun, free) refl;
        },
        refl,
      )

  push-Adds :
      (b : Builder) (x : MenuItem) → IsSound b → Adds b (x ∷ []) (menu_builder_push grants b x)
  unfolding menu_builder_push
  push-Adds b x s = elim (Bool-cases (b.cap == 0)) [
    | inl e ↦
        simp (e, given 8)
          (put-Adds (record b { cap = 8; room = 8 }) x (first s e) (ground (arith, s.within)))
    | inr e ↦ elim (Bool-cases (leb b.cap (length b.items))) [
      | inl f ↦
          simp (e, f, given (b.cap * 2))
            (put-Adds (record b { cap = b.cap * 2; room = b.cap * 2 }) x (larger s)
              (ground (arith, s.within)))
      | inr f ↦ simp (e, f) (put-Adds b x s (ground (arith, s.within, s.backed)))
    ]
  ]
    where
      first : IsSound b → (b.cap == 0) ≡ true → IsSound (record b { cap = 8; room = 8 })
      first s e = record {
        backed = refl;
        within = ground (arith, s.within);
        no_overrun = s.no_overrun;
      }

      larger : IsSound b → IsSound (record b { cap = b.cap * 2; room = b.cap * 2 })
      larger s = record {
        backed = refl;
        within = omega (arith, s.within);
        no_overrun = s.no_overrun;
      }

  shown-Adds :
      (b : Builder) (id : ℤ) (x : MenuItem)
      → IsSound b
      → Adds b (shown id x []) (push_shown grants b id x)
  shown-Adds b id x s = elim (Bool-cases (eqb_ℤ id (pos 0))) [
    | inl e ↦ rw e (s, sym (append-nil b.items))
    | inr e ↦ rw e (push-Adds b x s)
  ]

  Adds-trans : (b c e : Builder) (k l : List MenuItem) → Adds b k c → Adds c l e → Adds b (k ++ l) e
  Adds-trans b c e k l (s, f) (t, g) = (t, g ∙ ap (λ r. r ++ l) f ∙ append_assoc b.items k l)

  mutual
    unfolding menu_parse_node flat

    node-Adds :
        (level : ℕ) (n : Node) (b : Builder)
        → IsSound b
        → Adds b (flat level n) (menu_parse_node grants level n b)
    node-Adds level (node id props kids) b s =
        let x = node_item id level props in
        let c = push_shown grants b id x in
        let first = shown-Adds b id x s in
        let both =
          Adds-trans b c (menu_parse_children grants (level + 1) kids c) (shown id x [])
            (flat_children (level + 1) kids) first (children-Adds (level + 1) kids c first.0) in
        elim (Bool-cases (ltb 4 level)) [
          | inl e ↦ rw e (s, sym (append-nil b.items))
          | inr e ↦ rw e (
            both.0,
            both.1 ∙ ap (λ l. b.items ++ l) (shown-append id x (flat_children (level + 1) kids)),
          )
        ]

    children-Adds :
        (level : ℕ) (kids : Children) (b : Builder)
        → IsSound b
        → Adds b (flat_children level kids) (menu_parse_children grants level kids b)
    children-Adds level end b s = (s, sym (append-nil b.items))
    children-Adds level (child n kids) b s =
        let c = menu_parse_node grants level n b in
        let one = node-Adds level n b s in
        Adds-trans b c (menu_parse_children grants level kids c) (flat level n)
          (flat_children level kids) one (children-Adds level kids c one.0)
    children-Adds level (skipped kids) b s = children-Adds level kids b s

  empty-IsSound : IsSound no_items
  empty-IsSound = record { backed = refl; within = omega arith; no_overrun = refl }

  -- Where all memory is given, the items that are fetched are the nodes of the tree in preorder,
  -- down to the fifth level and without the node 0; and nothing is written behind the array.
  pub fetched_items_flat :
      (kids : Children)
      → (fetched_items grants kids ≡ some_items (flat_children 0 kids))
        × ((menu_parse_children grants 0 kids no_items).overrun ≡ false)
  unfolding fetched_items
  fetched_items_flat kids =
      let (s, e) = children-Adds 0 kids no_items empty-IsSound in (ap some_items e, s.no_overrun)

level-read : (x : MenuItem) (p : Property) → (read_property x p).level ≡ x.level
unfolding read_property
level-read x (label s) = refl
level-read x (enabled b) = refl
level-read x (visible b) = ground arith
level-read x (kind s) = ground arith
level-read x (children_display s) = ground arith
level-read x unread = refl

id-read : (x : MenuItem) (p : Property) → (read_property x p).id ≡ x.id
unfolding read_property
id-read x (label s) = refl
id-read x (enabled b) = refl
id-read x (visible b) = ground arith
id-read x (kind s) = ground arith
id-read x (children_display s) = ground arith
id-read x unread = refl

level-reads : (x : MenuItem) (ps : List Property) → (read_properties x ps).level ≡ x.level
unfolding read_properties
level-reads x [] = refl
level-reads x (p ∷ ps) = level-reads (read_property x p) ps ∙ level-read x p

id-reads : (x : MenuItem) (ps : List Property) → (read_properties x ps).id ≡ x.id
unfolding read_properties
id-reads x [] = refl
id-reads x (p ∷ ps) = id-reads (read_property x p) ps ∙ id-read x p

-- An item of the menu has an id that is not 0, and stands on a level from `level` to 4.
abbrev pub InMenu : ℕ → MenuItem → Type 0
InMenu level x = (eqb_ℤ x.id (pos 0) ≡ false) × (level ≤ x.level) × (x.level ≤ 4)

All-append : (P : MenuItem → Type 0) (k l : List MenuItem) → All P k → All P l → All P (k ++ l)
All-append P [] l a b = b
All-append P (x ∷ k) l a b = (a.0, All-append P k l a.1 b)

All-deeper : (level : ℕ) (l : List MenuItem) → All (InMenu (level + 1)) l → All (InMenu level) l
All-deeper level [] a = tt
All-deeper level (x ∷ l) a = ((a.0.0, omega (arith, a.0.1), a.0.2), All-deeper level l a.1)

shown-InMenu :
    (level : ℕ) (id : ℤ) (props : List Property) (l : List MenuItem)
    → level ≤ 4
    → All (InMenu level) l
    → All (InMenu level) (shown id (node_item id level props) l)
unfolding node_item
shown-InMenu level id props l b a = elim (Bool-cases (eqb_ℤ id (pos 0))) [
  | inl e ↦ rw e a
  | inr e ↦
      let x = node_item id level props in
      let same : x.id ≡ id = unfold node_item in id-reads _ props in
      let at_level : x.level ≡ level = unfold node_item in level-reads _ props in
      rw e (
        (ap (λ t. eqb_ℤ t (pos 0)) same ∙ e, omega (arith, at_level), omega (arith, at_level, b)),
        a,
      )
]

mutual
  unfolding flat

  flat-InMenu : (level : ℕ) (n : Node) → All (InMenu level) (flat level n)
  flat-InMenu level (node id props kids) = elim (Bool-cases (ltb 4 level)) [
    | inl e ↦ rw e tt
    | inr e ↦ rw e (
        shown-InMenu level id props (flat_children (level + 1) kids) (ground arith) (
          All-deeper level (flat_children (level + 1) kids)
            (flat_children-InMenu (level + 1) kids)))
  ]

  flat_children-InMenu :
      (level : ℕ) (kids : Children) → All (InMenu level) (flat_children level kids)
  flat_children-InMenu level end = tt
  flat_children-InMenu level (child n kids) =
      All-append (InMenu level) (flat level n) (flat_children level kids) (flat-InMenu level n)
        (flat_children-InMenu level kids)
  flat_children-InMenu level (skipped kids) = flat_children-InMenu level kids

-- Where all memory is given, every item of a fetched menu has an id that is not 0 and stands on one
-- of the levels 0 to 4, and a menu that is fetched is not empty.
pub fetched_items-InMenu :
    (grants : ℕ → Bool) (given : (n : ℕ) → grants n ≡ true) (kids : Children) (l : List MenuItem)
    → fetched_items grants kids ≡ some l
    → All (InMenu 0) l × (1 ≤ length l)
fetched_items-InMenu grants given kids l e =
    of_some (flat_children 0 kids) (flat_children-InMenu 0 kids)
      (sym (fetched_items_flat grants given kids).0 ∙ e)
  where
    of_some :
        (k : List MenuItem)
        → All (InMenu 0) k
        → some_items k ≡ some l
        → All (InMenu 0) l × (1 ≤ length l)
    of_some [] a e = absurd (ground arith)
    of_some (x ∷ k) a e =
        let same : x ∷ k ≡ l = cc in
        subst (λ t. All (InMenu 0) t × (1 ≤ length t)) same (a, omega arith)
