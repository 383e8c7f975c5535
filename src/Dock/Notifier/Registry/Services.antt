-- ===== src/Dock/Notifier/Registry/Services.antt =====
-- The services of the items that are listed, and where an item is found.
use mathlib.Core.List.{Mem, Nodup, mem-cons, not-mem-nil}
use mathlib.Core.Logic.Or
use mathlib.Core.Path.{subst}
use nizam.Prelude.{
  All, ℕ, zero, suc, ◌≤◌, ◌≡◌, refl, sym, ap, Bool, true, false, List, [], ◌∷◌, ◌++◌, map, arith,
  Option, none, some, length, get_elem?, get_or, set, Bool-cases, Option-cases, inl, inr,
}
use nizam.Text.{Bytes, str_eq}
use nizam.Text.Equal.{str_eq_refl}
use nizam.Dock.Notifier.Item.{Item, zero_item}
use nizam.Dock.Notifier.Registry.{Sni, find_item, find_by_service}

abbrev pub services : List Item → List Bytes
services l = map (λ (i : Item). i.service) l

-- No service is listed twice, and there is memory for the items.
pub record IsRegistry (s : Sni) : Type 0 where
  pub within : length s.items ≤ s.cap
  pub distinct : Nodup (services s.items)

pub find_item-some :
    (test : Item → Bool) (l : List Item) (i : ℕ)
    → find_item test l ≡ some i
    → (v : Item) × (get_elem? l i ≡ some v) × (test v ≡ true)
unfolding find_item
find_item-some test [] i e = absurd (ground arith)
find_item-some test (x ∷ l) i e = elim (Bool-cases (test x)) [
  | inl t ↦ at_head i (ground arith) t
  | inr t ↦ elim (Option-cases (find_item test l)) [
    | inl n ↦ absurd (ground arith)
    | inr (j, f) ↦ behind i j (ground arith) (find_item-some test l j f)
  ]
]
  where
    at_head :
        (i : ℕ)
        → i ≡ 0
        → test x ≡ true
        → (v : Item) × (get_elem? (x ∷ l) i ≡ some v) × (test v ≡ true)
    at_head i e t = rw e (x, refl, t)

    behind :
        (i j : ℕ)
        → i ≡ suc j
        → (v : Item) × (get_elem? l j ≡ some v) × (test v ≡ true)
        → (v : Item) × (get_elem? (x ∷ l) i ≡ some v) × (test v ≡ true)
    behind i j e h = rw e h

-- A service that is not found is not listed.
pub absent :
    (service : Bytes) (l : List Item)
    → find_by_service l service ≡ none
    → ¬ Mem service (services l)
unfolding find_by_service find_item
absent service [] e m = not-mem-nil m
absent service (x ∷ l) e m = elim (Bool-cases (str_eq x.service service)) [
  | inl t ↦ absurd (found (rw t at e))
  | inr t ↦ elim (Option-cases (find_by_service l service)) [
    | inl n ↦
        Or.elim (λ a b. absurd a) (mem-cons.0 m)
          (λ same.
            differ (subst (λ s. str_eq s service ≡ false) (sym same) t) (str_eq_refl service))
          (absent service l n)
    | inr (j, f) ↦ absurd (ground arith)
  ]
]
  where
    found : ◌≡◌ {A = Option ℕ} (some 0) none → ⊥
    found h = ground arith

    differ : str_eq service service ≡ false → str_eq service service ≡ true → ⊥
    differ a b = ground arith

pub services-set :
    (l : List Item) (k : ℕ) (x : Item)
    → (get_or l k zero_item).service ≡ x.service
    → services (set l k x) ≡ services l
services-set [] k x e = refl
services-set (y ∷ l) zero x e = ap (λ t. t ∷ services l) (sym e)
services-set (y ∷ l) (suc k) x e = ap (λ t. y.service ∷ t) (services-set l k x e)

pub set-append_last : (l : List Item) (x y : Item) → set (l ++ x ∷ []) (length l) y ≡ l ++ y ∷ []
set-append_last [] x y = refl
set-append_last (z ∷ l) x y = ap (λ t. z ∷ t) (set-append_last l x y)

pub services-append :
    (l : List Item) (x : Item) → services (l ++ x ∷ []) ≡ services l ++ x.service ∷ []
services-append [] x = refl
services-append (y ∷ l) x = ap (λ t. y.service ∷ t) (services-append l x)

-- An item that passes the test, and none before it does.
abbrev pub IsFirst : (Item → Bool) → List Item → Item → Type 0
IsFirst test l v =
    (test v ≡ true)
    × ((before : List Item) × (after : List Item) × (l ≡ before ++ v ∷ after)
        × All (λ x. test x ≡ false) before)

-- The item that is found is the first that passes the test.
pub find_item-IsFirst :
    (test : Item → Bool) (l : List Item) (i : ℕ)
    → find_item test l ≡ some i
    → (v : Item) × (get_elem? l i ≡ some v) × IsFirst test l v
unfolding find_item
find_item-IsFirst test [] i e = absurd (ground arith)
find_item-IsFirst test (x ∷ l) i e = elim (Bool-cases (test x)) [
  | inl t ↦ at_head i (ground arith) t
  | inr t ↦ elim (Option-cases (find_item test l)) [
    | inl n ↦ absurd (ground arith)
    | inr (j, f) ↦ behind i j t (ground arith) (find_item-IsFirst test l j f)
  ]
]
  where
    at_head :
        (i : ℕ)
        → i ≡ 0
        → test x ≡ true
        → (v : Item) × (get_elem? (x ∷ l) i ≡ some v) × IsFirst test (x ∷ l) v
    at_head i e t = rw e (x, refl, (t, ([], l, refl, tt)))

    behind :
        (i j : ℕ)
        → test x ≡ false
        → i ≡ suc j
        → (v : Item) × (get_elem? l j ≡ some v) × IsFirst test l v
        → (v : Item) × (get_elem? (x ∷ l) i ≡ some v) × IsFirst test (x ∷ l) v
    behind i j t e (v, at, (passes, (before, after, parts, fail))) =
        rw e (v, at, (passes, (x ∷ before, after, ap (λ m. x ∷ m) parts, (t, fail))))
