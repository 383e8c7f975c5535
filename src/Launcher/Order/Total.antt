-- ===== src/Launcher/Order/Total.antt =====
-- The comparison of launchers is a total preorder, as `qsort` needs it.
use Prim.Native.Nat.{compare, Ordering}
use nizam.Prelude.{ℕ, ◌≡◌, ◌≢◌, refl, [], ◌∷◌, arith, ◌⊎◌}
use nizam.Text.{Bytes, lower}
use nizam.Launcher.Desktop.{Launcher, or_empty}
use nizam.Launcher.Order.{
  case_cmp, launcher_category, launcher_sort_key, then_cmp, compare_launchers,
}

abbrev pub flip : Ordering → Ordering
flip Ordering.lt = Ordering.gt
flip Ordering.eq = Ordering.eq
flip Ordering.gt = Ordering.lt

compare-flip : (m n : ℕ) → compare n m ≡ flip (compare m n)
compare-flip m n = ground arith

case_cmp-flip : (a b : Bytes) → case_cmp b a ≡ flip (case_cmp a b)
unfolding case_cmp
case_cmp-flip [] [] = refl
case_cmp-flip [] (y ∷ b) = refl
case_cmp-flip (x ∷ a) [] = refl
case_cmp-flip (x ∷ a) (y ∷ b) = ground (arith, case_cmp-flip a b)

then_cmp-flip : (p q : Ordering) → then_cmp (flip p) (flip q) ≡ flip (then_cmp p q)
then_cmp-flip p q = ground arith

compare_launchers-flip : (a b : Launcher) → compare_launchers b a ≡ flip (compare_launchers a b)
unfolding compare_launchers
compare_launchers-flip a b =
    rw
      (
        case_cmp-flip (launcher_category a) (launcher_category b),
        case_cmp-flip (launcher_sort_key a) (launcher_sort_key b),
        case_cmp-flip (or_empty a.icon) (or_empty b.icon),
        then_cmp-flip (case_cmp (launcher_sort_key a) (launcher_sort_key b))
            (case_cmp (or_empty a.icon) (or_empty b.icon)),
      )
      (then_cmp-flip (case_cmp (launcher_category a) (launcher_category b)) (
        then_cmp (case_cmp (launcher_sort_key a) (launcher_sort_key b))
          (case_cmp (or_empty a.icon) (or_empty b.icon))))

-- What the comparisons of a first with a second and a second with a third say of the first with the
-- third, where neither is greater.
abbrev pub Chains : Ordering → Ordering → Ordering → Type 0
Chains Ordering.lt Ordering.lt r = r ≡ Ordering.lt
Chains Ordering.lt Ordering.eq r = r ≡ Ordering.lt
Chains Ordering.lt Ordering.gt r = Unit
Chains Ordering.eq Ordering.lt r = r ≡ Ordering.lt
Chains Ordering.eq Ordering.eq r = r ≡ Ordering.eq
Chains Ordering.eq Ordering.gt r = Unit
Chains Ordering.gt q r = Unit

compare-Chains : (m n k : ℕ) → Chains (compare m n) (compare n k) (compare m k)
compare-Chains m n k = ground arith

then_cmp-Chains :
    (p q r p' q' r' : Ordering)
    → Chains p q r
    → Chains p' q' r'
    → Chains (then_cmp p p') (then_cmp q q') (then_cmp r r')
then_cmp-Chains p q r p' q' r' h k = ground arith

case_cmp-Chains : (a b c : Bytes) → Chains (case_cmp a b) (case_cmp b c) (case_cmp a c)
unfolding case_cmp
case_cmp-Chains [] [] [] = refl
case_cmp-Chains [] [] (z ∷ c) = refl
case_cmp-Chains [] (y ∷ b) [] = tt
case_cmp-Chains [] (y ∷ b) (z ∷ c) = ground arith
case_cmp-Chains (x ∷ a) [] [] = tt
case_cmp-Chains (x ∷ a) [] (z ∷ c) = tt
case_cmp-Chains (x ∷ a) (y ∷ b) [] = ground arith
case_cmp-Chains (x ∷ a) (y ∷ b) (z ∷ c) =
    ground (arith, compare-Chains (lower x) (lower y) (lower z), case_cmp-Chains a b c)

compare_launchers-Chains :
    (a b c : Launcher)
    → Chains (compare_launchers a b) (compare_launchers b c) (compare_launchers a c)
unfolding compare_launchers
compare_launchers-Chains a b c =
    then_cmp-Chains _ _ _ _ _ _
      (case_cmp-Chains (launcher_category a) (launcher_category b) (launcher_category c))
      (then_cmp-Chains _ _ _ _ _ _
        (case_cmp-Chains (launcher_sort_key a) (launcher_sort_key b) (launcher_sort_key c))
        (case_cmp-Chains (or_empty a.icon) (or_empty b.icon) (or_empty c.icon)))

-- `a` may stand in front of `b`.
abbrev pub NotAfter : Launcher → Launcher → Type 0
NotAfter a b = compare_launchers a b ≢ Ordering.gt

Chains-trans :
    (p q r : Ordering) → Chains p q r → p ≢ Ordering.gt → q ≢ Ordering.gt → r ≢ Ordering.gt
Chains-trans p q r c h k = ground arith

flip_total : (p : Ordering) → (p ≢ Ordering.gt) ⊎ (flip p ≢ Ordering.gt)
flip_total p = ground arith

-- The comparison that `qsort` is given is total: swapping two launchers swaps the result, and of any
-- two one may stand in front of the other.
pub compare_launchers_total :
    (a b : Launcher)
    → (compare_launchers b a ≡ flip (compare_launchers a b)) × (NotAfter a b ⊎ NotAfter b a)
compare_launchers_total a b = (
  compare_launchers-flip a b,
  rw (compare_launchers-flip a b) (flip_total (compare_launchers a b)),
)

-- The comparison is transitive: what may stand in front of a launcher may stand in front of
-- everything that the launcher may stand in front of.
pub compare_launchers_trans : (a b c : Launcher) → NotAfter a b → NotAfter b c → NotAfter a c
compare_launchers_trans a b c = Chains-trans _ _ _ (compare_launchers-Chains a b c)
