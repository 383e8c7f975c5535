-- ===== src/Dock/Notifier/Registry/Removal.antt =====
-- An item is removed by moving the last one into its place.
use mathlib.Core.List.{Perm}
use mathlib.Core.List.Perm
use nizam.Prelude.{
  ℕ, zero, suc, ◌-◌, ◌≡◌, refl, ap, List, [], ◌∷◌, arith, some, length, get_elem?, get_or, set,
  take,
}
use nizam.Dock.Notifier.Item.{Item, zero_item}
use nizam.Dock.Notifier.Registry.{remove_at}

last : Item → List Item → Item
last x [] = x
last x (y ∷ l) = last y l

init : Item → List Item → List Item
init x [] = []
init x (y ∷ l) = x ∷ init y l

-- The removal by recursion on the list.
swap_out : Item → List Item → ℕ → List Item
swap_out x [] i = []
swap_out x (y ∷ l) zero = last y l ∷ init y l
swap_out x (y ∷ l) (suc i) = x ∷ swap_out y l i

last_lem : (x : Item) (l : List Item) → get_or (x ∷ l) (length l) zero_item ≡ last x l
unfolding last
last_lem x [] = refl
last_lem x (y ∷ l) = last_lem y l

init_lem : (x : Item) (l : List Item) → take (length l) (x ∷ l) ≡ init x l
unfolding init
init_lem x [] = refl
init_lem x (y ∷ l) = ap (λ t. x ∷ t) (init_lem y l)

swap_lem :
    (x v : Item) (l : List Item) (i : ℕ)
    → v ≡ last x l
    → take (length l) (set (x ∷ l) i v) ≡ swap_out x l i
unfolding swap_out last
swap_lem x v [] i e = refl
swap_lem x v (y ∷ l) zero e = rw e (ap (λ t. last y l ∷ t) (init_lem y l))
swap_lem x v (y ∷ l) (suc i) e = ap (λ t. x ∷ t) (swap_lem y v l i e)

remove_at_lem : (x : Item) (l : List Item) (i : ℕ) → remove_at (x ∷ l) i ≡ swap_out x l i
unfolding remove_at
remove_at_lem x l i =
    let n : suc (length l) - 1 ≡ length l = omega arith in
    rw n (swap_lem x (get_or (x ∷ l) (length l) zero_item) l i (last_lem x l))

last-init : (x : Item) (l : List Item) → Perm (last x l ∷ init x l) (x ∷ l)
unfolding last init
last-init x [] = Perm.refl (x ∷ [])
last-init x (y ∷ l) = Perm.trans (Perm.swap x (last y l) (init y l)) (Perm.cons x (last-init y l))

swap_out-perm :
    (x : Item) (l : List Item) (i : ℕ) (v : Item)
    → get_elem? (x ∷ l) i ≡ some v
    → Perm (v ∷ swap_out x l i) (x ∷ l)
unfolding swap_out
swap_out-perm x [] zero v e = rw (some_eq e) (Perm.refl (v ∷ []))
  where
    some_eq : some x ≡ some v → x ≡ v
    some_eq e = ground arith
swap_out-perm x [] (suc i) v e = absurd (ground arith)
swap_out-perm x (y ∷ l) zero v e =
    let same : x ≡ v = ground arith in rw same (Perm.cons v (last-init y l))
swap_out-perm x (y ∷ l) (suc i) v e =
    Perm.trans (Perm.swap x v (swap_out y l i)) (Perm.cons x (swap_out-perm y l i v e))

-- What is left behind a removal is the list without the item, in some order.
pub remove_at-perm :
    (l : List Item) (i : ℕ) (v : Item) → get_elem? l i ≡ some v → Perm (v ∷ remove_at l i) l
remove_at-perm [] i v e = absurd (ground arith)
remove_at-perm (x ∷ l) i v e = rw (remove_at_lem x l i) (swap_out-perm x l i v e)
