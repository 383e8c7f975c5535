-- ===== src/Dock/HitTest/Found.antt =====
-- What a hit says of the point.
use mathlib.Core.Path.{subst}
use native.Mathlib.Nat.{div-add-mod', mod-lt}
use nizam.Prelude.{
  ℕ, zero, suc, ◌+◌, ◌*◌, ◌≤◌, ◌<◌, ◌≡◌, true, false, ◌||◌, List, [], ◌∷◌, arith, ◌==◌, some,
  Bool-cases, inl, inr,
}
use nizam.Prelude.Int.{ℤ, pos, pos_part, ◌+ℤ◌, ◌-ℤ◌, ◌≤ℤ◌, ◌<ℤ◌, ltb_ℤ, leb_ℤ}
use nizam.Dock.State.{Rect, Geometry}
use nizam.Dock.HitTest.{
  in_rect, hit_from, hit_test_launcher, tray_spacing, tray_right, tray_slot, hit_test_tray,
}

-- The width of an icon of the tray with the gap that follows it.
abbrev pub stride : Geometry → ℕ
stride g = pos_part g.tray_size + tray_spacing g

tray_slot_found :
    (g : Geometry) (rel i : ℕ)
    → 0 < pos_part g.tray_size
    → tray_slot g rel ≡ some i
    → (i < g.tray_count) × (i * stride g ≤ rel) × (rel < i * stride g + pos_part g.tray_size)
unfolding tray_slot
tray_slot_found g rel i z h =
    ground (arith, div-add-mod' rel (stride g), mod-lt rel {m = stride g} (omega arith))

edge_le : (a x : ℤ) (n : ℕ) → ltb_ℤ x a ≡ false → n ≤ pos_part (x -ℤ a) → a +ℤ pos n ≤ℤ x
unfolding ◌+ℤ◌ ◌-ℤ◌
edge_le a x n h l = ground arith

edge_lt : (a x : ℤ) (n : ℕ) → ltb_ℤ x a ≡ false → pos_part (x -ℤ a) < n → x <ℤ a +ℤ pos n
unfolding ◌+ℤ◌ ◌-ℤ◌
edge_lt a x n h l = ground arith

-- An icon of the tray is hit only by a point between its edges, and there are as many icons as the
-- tray counts.
pub hit_test_tray_inside :
    (g : Geometry) (x y : ℤ) (i : ℕ)
    → hit_test_tray g x y ≡ some i
    → (i < g.tray_count)
      × (g.tray_x +ℤ pos (i * stride g) ≤ℤ x)
      × (x <ℤ g.tray_x +ℤ pos (i * stride g + pos_part g.tray_size))
      × (g.tray_y ≤ℤ y)
      × (y ≤ℤ g.tray_y +ℤ g.tray_size)
unfolding hit_test_tray ◌+ℤ◌ ◌-ℤ◌
hit_test_tray_inside g x y i h =
    elim (Bool-cases (g.tray_count == 0 || leb_ℤ g.tray_size (pos 0))) [
      | inl a ↦ absurd (ground arith)
      | inr a ↦
          elim (Bool-cases (
            ltb_ℤ x g.tray_x
            || ltb_ℤ (tray_right g) x
            || ltb_ℤ y g.tray_y
            || ltb_ℤ (g.tray_y +ℤ g.tray_size) y)) [
              | inl b ↦ absurd (ground arith)
              | inr b ↦
                  let (c, lo, hi) =
                    tray_slot_found g (pos_part (x -ℤ g.tray_x)) i (ground arith)
                      (rw (a, b) at h) in
                  (
                    c,
                    edge_le g.tray_x x _ (ground arith) lo,
                    edge_lt g.tray_x x _ (ground arith) hi,
                    ground arith,
                    ground arith,
                  )
            ]
    ]

-- The launcher at the index, if there is one, is under the point.
abbrev pub IsUnder : List Rect → ℤ → ℤ → ℕ → Type 0
IsUnder [] x y i = ⊥
IsUnder (r ∷ rs) x y zero = in_rect x y r ≡ true
IsUnder (r ∷ rs) x y (suc i) = (in_rect x y r ≡ false) × IsUnder rs x y i

hit_from-IsUnder :
    (rs : List Rect) (x y : ℤ) (base i : ℕ)
    → hit_from rs x y base ≡ some i
    → (d : ℕ) × (i ≡ base + d) × IsUnder rs x y d
unfolding hit_from
hit_from-IsUnder [] x y base i h = absurd (ground arith)
hit_from-IsUnder (r ∷ rs) x y base i h = elim (Bool-cases (in_rect x y r)) [
  | inl e ↦ (0, ground arith, e)
  | inr e ↦
      let (d, p, u) = hit_from-IsUnder rs x y (base + 1) i (ground arith) in
      (suc d, omega (arith, p), (e, u))
]

-- The launcher that is hit is the first whose rectangle holds the point.
pub hit_test_launcher_first :
    (g : Geometry) (x y : ℤ) (i : ℕ)
    → hit_test_launcher g x y ≡ some i
    → IsUnder g.launcher_rects x y i
unfolding hit_test_launcher
hit_test_launcher_first g x y i h =
    let (d, p, u) = hit_from-IsUnder g.launcher_rects x y 0 i h in
    subst (IsUnder g.launcher_rects x y) (omega (arith, p)) u
