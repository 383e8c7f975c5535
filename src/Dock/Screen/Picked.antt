-- ===== src/Dock/Screen/Picked.antt =====
-- The monitor that is picked for the dock, nizam-dock/src/xcb_app.c.
use nizam.Prelude.{
  ◌≡◌, true, List, [], ◌∷◌, ◌++◌, ◌==◌, Option, none, some, Option-cases, Bool-cases, inl, inr,
}
use nizam.Prelude.Int.{ℤ}
use nizam.Dock.State.{Rect}
use nizam.Dock.Screen.{
  Output, Display, point_in_rect, default_monitor, output_rect, keep_primary, pick_output,
  picked_or, pick_monitor_for_pointer,
}

-- A rectangle that was picked, and holds the point.
abbrev pub Covers : ℤ → ℤ → Option Rect → Type 0
Covers px py none = ⊥
Covers px py (some r) = point_in_rect px py r ≡ true

module _ (d : Display) (px py : ℤ) (at : d.pointer ≡ some (px, py)) where
  covered_here :
      (primary_geom : Option Rect) (o : Output) (outs : List Output) (r : Rect)
      → output_rect o ≡ some r
      → point_in_rect px py r ≡ true
      → Covers px py (pick_output d primary_geom (o ∷ outs))
  unfolding pick_output
  covered_here primary_geom o outs r e inside = rw (e, pick_output, at, inside) inside

  covered :
      (before : List Output) (primary_geom : Option Rect) (o : Output) (outs : List Output)
      (r : Rect)
      → output_rect o ≡ some r
      → point_in_rect px py r ≡ true
      → Covers px py (pick_output d primary_geom (before ++ o ∷ outs))
  unfolding pick_output
  covered [] primary_geom o outs r e inside = covered_here primary_geom o outs r e inside
  covered (b ∷ before) primary_geom o outs r e inside = elim (Option-cases (output_rect b)) [
    | inl f ↦ rw (f, pick_output) (covered before primary_geom o outs r e inside)
    | inr (q, f) ↦ elim (Bool-cases (point_in_rect px py q)) [
      | inl g ↦ rw (f, pick_output, at, g) g
      | inr g ↦
          rw (f, pick_output, at, g)
            (covered before (keep_primary (b.out == d.primary) q primary_geom) o outs r e inside)
    ]
  ]

from_Covers :
    (px py : ℤ) (r : Rect) (picked : Option Rect)
    → Covers px py picked
    → point_in_rect px py (picked_or r picked) ≡ true
from_Covers px py r none h = absurd h
from_Covers px py r (some q) h = h

-- Where the pointer is on the rectangle of an output, the dock goes to a monitor that holds the
-- pointer.
pub pick_monitor_for_pointer-Covers :
    (d : Display) (px py : ℤ) (before after : List Output) (o : Output) (r : Rect)
    → d.pointer ≡ some (px, py)
    → d.outputs ≡ some (before ++ o ∷ after)
    → output_rect o ≡ some r
    → point_in_rect px py r ≡ true
    → point_in_rect px py (pick_monitor_for_pointer d) ≡ true
unfolding pick_monitor_for_pointer
pick_monitor_for_pointer-Covers d px py before after o r at outs e inside =
    let found = covered d px py at before none o after r e inside in
    rw outs (from_Covers px py (default_monitor d) (pick_output d none (before ++ o ∷ after)) found)
