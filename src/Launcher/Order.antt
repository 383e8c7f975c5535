-- ===== src/Launcher/Order.antt =====
-- The order of the launchers, nizam-dock/src/config.c: `compare_launchers` and what it reads.
pub mod Total
use Prim.Native.Nat.{compare, Ordering}
use nizam.Prelude.{ℕ, List, [], ◌∷◌, Option, none, some}
use nizam.Text.{Bytes, lower}
use nizam.Launcher.Desktop.{Launcher, or_empty}

-- The sign of `strcasecmp(a, b)`.
unfoldable pub case_cmp : Bytes → Bytes → Ordering
case_cmp [] [] = Ordering.eq
case_cmp [] (y ∷ b) = Ordering.lt
case_cmp (x ∷ a) [] = Ordering.gt
case_cmp (x ∷ a) (y ∷ b) = elim (compare (lower x) (lower y)) [
  | Ordering.lt ↦ Ordering.lt
  | Ordering.eq ↦ case_cmp a b
  | Ordering.gt ↦ Ordering.gt
]

unfoldable pub launcher_category : Launcher → Bytes
launcher_category l = or_empty l.category

-- The command where there is one, else the icon, else nothing.
unfoldable pub first_non_empty : Option Bytes → Option Bytes → Bytes
first_non_empty (some (c ∷ s)) icon = c ∷ s
first_non_empty (some []) icon = or_empty icon
first_non_empty none icon = or_empty icon

unfoldable pub launcher_sort_key : Launcher → Bytes
unfolding first_non_empty
launcher_sort_key l = first_non_empty l.cmd l.icon

-- `if (cmp != 0) return cmp;`
abbrev pub then_cmp : Ordering → Ordering → Ordering
then_cmp Ordering.lt next = Ordering.lt
then_cmp Ordering.eq next = next
then_cmp Ordering.gt next = Ordering.gt

unfoldable pub compare_launchers : Launcher → Launcher → Ordering
compare_launchers a b = then_cmp (case_cmp (launcher_category a) (launcher_category b)) (
    then_cmp (case_cmp (launcher_sort_key a) (launcher_sort_key b))
      (case_cmp (or_empty a.icon) (or_empty b.icon)))
