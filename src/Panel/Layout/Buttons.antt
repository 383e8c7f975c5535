-- ===== src/Panel/Layout/Buttons.antt =====
-- The buttons of the windows do not overlap and do not reach the clock.
use native.Mathlib.Nat.{suc-mul, mul-le-mul_right, div-mul-le_self, zero-div}
use nizam.Prelude.{
  ℕ, zero, suc, ◌+◌, ◌*◌, ◌/◌, ◌≤◌, ◌≡◌, refl, ◌⊎◌, inl, inr, Bool, List, [], ◌∷◌, arith, length,
}
use nizam.Prelude.Int.{
  ℤ, pos, negsuc, pos_part, neg_part, ◌+ℤ◌, ◌-ℤ◌, ◌/ℤ◌, ◌≤ℤ◌, at_most, at_least, +ℤ_parts, -ℤ_parts,
}
use nizam.Panel.Tasklist.{ClientItem}
use nizam.Panel.Layout.{Button, task_width, per_button, max_buttons, place_buttons, task_buttons}

-- From `lo` to `right`, each button either is none, or begins behind the one before it, and ends with
-- a gap of 4 before the next.
unfoldable pub InRow : ℤ → ℤ → List Button → Type 0
InRow lo right [] = Unit
InRow lo right (b ∷ bs) =
    ((b.w ≡ pos 0) × InRow lo right bs)
    ⊎ ((lo ≤ℤ b.x) × (b.x +ℤ b.w +ℤ pos 4 ≤ℤ right) × InRow (b.x +ℤ b.w +ℤ pos 4) right bs)

no_buttons :
    (xs : ℕ → ℤ) (per x lo right : ℤ) (cs : List ClientItem)
    → InRow lo right (place_buttons xs per x 0 cs)
unfolding place_buttons InRow
no_buttons xs per x lo right [] = tt
no_buttons xs per x lo right (c ∷ cs) = inl (refl, no_buttons (λ i. xs (i + 1)) per x lo right cs)

step_fits :
    (x right : ℤ) (p n : ℕ) → x +ℤ pos (suc n * p) ≤ℤ right → x +ℤ pos p +ℤ pos (n * p) ≤ℤ right
step_fits x right p n h = omega (
  arith,
  suc-mul n p,
  +ℤ_parts x (pos (suc n * p)),
  +ℤ_parts x (pos p),
  +ℤ_parts (x +ℤ pos p) (pos (n * p)),
)

end_fits :
    (x right : ℤ) (p n : ℕ)
    → x +ℤ pos (suc n * p) ≤ℤ right
    → x +ℤ (pos p -ℤ pos 4) +ℤ pos 4 ≤ℤ right
end_fits x right p n h = omega (
  arith,
  suc-mul n p,
  +ℤ_parts x (pos (suc n * p)),
  -ℤ_parts (pos p) (pos 4),
  +ℤ_parts x (pos p -ℤ pos 4),
  +ℤ_parts (x +ℤ (pos p -ℤ pos 4)) (pos 4),
)

next_lo : (x : ℤ) (p : ℕ) → x +ℤ (pos p -ℤ pos 4) +ℤ pos 4 ≤ℤ x +ℤ pos p
next_lo x p = omega (
  arith,
  -ℤ_parts (pos p) (pos 4),
  +ℤ_parts x (pos p),
  +ℤ_parts x (pos p -ℤ pos 4),
  +ℤ_parts (x +ℤ (pos p -ℤ pos 4)) (pos 4),
)

placed-InRow :
    (xs : ℕ → ℤ) (p : ℕ) (x lo right : ℤ) (n : ℕ) (cs : List ClientItem)
    → lo ≤ℤ x
    → x +ℤ pos (n * p) ≤ℤ right
    → InRow lo right (place_buttons xs (pos p) x n cs)
unfolding place_buttons InRow
placed-InRow xs p x lo right n [] h k = tt
placed-InRow xs p x lo right zero (c ∷ cs) h k =
    inl (refl, no_buttons (λ i. xs (i + 1)) (pos p) x lo right cs)
placed-InRow xs p x lo right (suc n) (c ∷ cs) h k = inr (
  h,
  end_fits x right p n k,
  placed-InRow (λ i. xs (i + 1)) p (x +ℤ pos p) (x +ℤ (pos p -ℤ pos 4) +ℤ pos 4) right n cs
      (next_lo x p) (step_fits x right p n k),
)

few_of_room : (w c p : ℕ) → pos_part (at_most (pos c) (pos w /ℤ p)) ≤ w / p
unfolding ◌/ℤ◌ at_most
few_of_room w c p = ground (arith, zero-div p)

none_of_room : (w c p : ℕ) → pos_part (at_most (pos c) (negsuc w /ℤ p)) ≡ 0
unfolding ◌/ℤ◌ at_most
none_of_room w c p = ground (arith, zero-div p)

-- There are no buttons, or their widths fit into the room.
buttons_fit :
    (task_w : ℤ) (c p : ℕ)
    → (pos_part (at_most (pos c) (task_w /ℤ p)) ≡ 0)
      ⊎ ((pos_part (at_most (pos c) (task_w /ℤ p)) * p ≤ pos_part task_w) × (neg_part task_w ≡ 0))
buttons_fit (pos w) c p =
    inr (omega (arith, mul-le-mul_right p (few_of_room w c p), div-mul-le_self w p), refl)
buttons_fit (negsuc w) c p = inl (none_of_room w c p)

per_is : (task_w : ℤ) (n : ℕ) → per_button task_w n ≡ pos (pos_part (per_button task_w n))
unfolding per_button at_most at_least
per_is task_w n = ground arith

placed_if :
    (xs : ℕ → ℤ) (p : ℕ) (x task_w : ℤ) (n : ℕ) (cs : List ClientItem)
    → (n ≡ 0) ⊎ ((n * p ≤ pos_part task_w) × (neg_part task_w ≡ 0))
    → InRow x (x +ℤ task_w) (place_buttons xs (pos p) x n cs)
placed_if xs p x task_w n cs (inl e) = rw e (no_buttons xs (pos p) x x (x +ℤ task_w) cs)
placed_if xs p x task_w n cs (inr (f, z)) =
    placed-InRow xs p x x (x +ℤ task_w) n cs (omega arith)
      (omega (arith, +ℤ_parts x (pos (n * p)), +ℤ_parts x task_w))

-- Whatever room there is between the launcher and the clock, the buttons of the windows stand in it
-- from left to right, each behind the gap that follows the one before, and none reaches beyond it;
-- where it is too small the windows at the end have none.
pub task_buttons-InRow :
    (xs : ℕ → ℤ) (taskbar_enabled : Bool) (ws_start task_x : ℤ) (clients : List ClientItem)
    → InRow task_x
        (task_x +ℤ task_width taskbar_enabled ws_start task_x)
        (task_buttons xs taskbar_enabled ws_start task_x clients)
unfolding task_buttons max_buttons
task_buttons-InRow xs on ws_start task_x clients =
    let room = task_width on ws_start task_x in
    let n = length clients in
    rw (per_is room n) (
      placed_if xs (pos_part (per_button room n)) task_x room (pos_part (max_buttons room n))
        clients (buttons_fit room n (pos_part (per_button room n))))
