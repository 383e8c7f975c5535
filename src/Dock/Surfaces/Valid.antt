-- ===== src/Dock/Surfaces/Valid.antt =====
-- What it means that the icon cache of the dock holds a list of icons.
use mathlib.Core.Path.{subst}
use nizam.Prelude.{
  ℕ, ◌≤◌, ◌≡◌, refl, sym, Bool, true, false, ◌&&◌, List, [], ◌∷◌, arith, ◌==◌, some, length,
  Bool-cases, inl, inr, ==_iff,
}
use nizam.Prelude.Int.{ℤ, eqb_ℤ, eq_of_parts}
use nizam.Prelude.Members.{elem, remove, elem-remove}
use nizam.Panel.IconCache.Valid.{IsLinked}
use nizam.Text.Equal.{str_eq_refl, eq_of_str_eq}
use nizam.Dock.Surfaces.{
  u64, IconKey, IconEntry, icon_key_equal, HashTable, SurfaceCache, icon_entry_unlink,
  icon_entry_link_head, icon_entry_touch,
}
use nizam.Dock.Surfaces.Get.{Cache}
use nizam.Dock.Surfaces.Links.{places}
use nizam.Dock.Surfaces.Lru.{Cached, cached, room}

unfoldable pub view : (ℕ → IconEntry) → List ℕ → List Cached
view h [] = []
view h (p ∷ l) = cached (h p) ∷ view h l

-- The cache is linked in the order of a list of pointers, which `size` counts and the capacity
-- bounds. The table maps the key of each entry of the list to the entry, and nothing else. Each
-- entry has a surface, and these are the surfaces that are alive.
pub record IsValid (H : HashTable) (c : Cache H) (order : List ℕ) : Type 0 where
  pub linked : IsLinked (places c) order
  pub size_is : c.size ≡ length order
  pub alive_is : c.alive_surfaces ≡ u64 (length order)
  pub bounded : length order ≤ room c.capacity
  pub mapped : (p : ℕ) → elem p order ≡ true → H.lookup (c.heap p).key c.table ≡ some p
  pub only :
      (k : IconKey) (p : ℕ)
      → H.lookup k c.table ≡ some p
      → (elem p order ≡ true) × ((c.heap p).key ≡ k)
  pub shown : (p : ℕ) → elem p order ≡ true → (s : ℕ) × ((c.heap p).surface ≡ some s)

pub icon_key_equal_refl : (k : IconKey) → icon_key_equal k k ≡ true
unfolding icon_key_equal
icon_key_equal_refl k = rw (str_eq_refl k.name) (ground arith)

both : (a b d : Bool) → ((a && b) && d) ≡ true → (a ≡ true) × (b ≡ true) × (d ≡ true)
both true true true h = (refl, refl, refl)
both true true false h = absurd (ground arith)
both true false d h = absurd (ground arith)
both false b d h = absurd (ground arith)

eq_of_eqb : (a b : ℤ) → eqb_ℤ a b ≡ true → a ≡ b
eq_of_eqb a b h = eq_of_parts a b (ground arith)

pub eq_of_icon_key_equal : (a b : IconKey) → icon_key_equal a b ≡ true → a ≡ b
unfolding icon_key_equal
eq_of_icon_key_equal a b h =
    let (p, s, n) = both (eqb_ℤ a.size_px b.size_px) (eqb_ℤ a.scale b.scale) _ h in
    let en : a.name ≡ b.name = eq_of_str_eq a.name b.name n in
    let ep : a.size_px ≡ b.size_px = eq_of_eqb a.size_px b.size_px p in
    let es : a.scale ≡ b.scale = eq_of_eqb a.scale b.scale s in ground arith

-- The pointers change, and the icons stay.
module _ {T : Type 0} (c : SurfaceCache T) (k i : ℕ) where
  pub cached-unlink : cached ((icon_entry_unlink c k).heap i) ≡ cached (c.heap i)
  unfolding icon_entry_unlink
  cached-unlink = ground arith

  pub cached-link : cached ((icon_entry_link_head c k).heap i) ≡ cached (c.heap i)
  unfolding icon_entry_link_head
  cached-link = ground arith

  pub cached-touch : cached ((icon_entry_touch c k).heap i) ≡ cached (c.heap i)
  unfolding icon_entry_touch icon_entry_unlink icon_entry_link_head
  cached-touch = ground arith

pub view-frame :
    (h h' : ℕ → IconEntry) (l : List ℕ)
    → ((i : ℕ) → elem i l ≡ true → cached (h' i) ≡ cached (h i))
    → view h' l ≡ view h l
unfolding view
view-frame h h' [] f = refl
view-frame h h' (i ∷ l) f = rw (f i (ground arith), view-frame h h' l (λ j e. f j (ground arith)))

pub length-view : (h : ℕ → IconEntry) (l : List ℕ) → length (view h l) ≡ length l
unfolding view
length-view h [] = refl
length-view h (i ∷ l) = omega (arith, length-view h l)

-- Moving an item to the front keeps the items.
pub elem-front : (i j : ℕ) (l : List ℕ) → elem i l ≡ true → elem j (i ∷ remove i l) ≡ elem j l
elem-front i j l h = elim (Bool-cases (i == j)) [
  | inl e ↦ rw e (sym (subst (λ t. elem t l ≡ true) ((==_iff i j).0 e) h))
  | inr e ↦ rw (e, elem-remove i j l) (ground arith)
]
