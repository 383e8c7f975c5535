-- ===== src/Dock/Screen/Rows.antt =====
-- The dock is wide enough for each row of launchers, nizam-dock/src/xcb_app.c.
use mathlib.Core.Path.{subst}
use nizam.Prelude.{
  ℕ, suc, ◌+◌, ◌-◌, ◌*◌, ◌≤◌, ◌≡◌, ◌∙◌, refl, sym, true, List, [], ◌∷◌, ◌++◌, map, arith, Option,
  none, some, Bool-cases, inl, inr, length, All,
}
use nizam.Prelude.Int.{ℤ, pos, ◌+ℤ◌, ◌*ℤ◌, ◌≤ℤ◌, at_least, le-at_least}
use nizam.Text.{Bytes, lower, case_eq}
use nizam.Text.Equal.{eq_of_str_eq, str_eq_refl}
use nizam.Launcher.Desktop.{Launcher}
use nizam.Dock.Screen.Width.{
  launcher_category_key, larger, count_rows, max_launchers_per_category, Contents, row_width,
  compute_content_width, tray_width, max_sysinfo_len, max_category_label_len,
}

-- The launcher is in the category of the first.
abbrev pub InCategory : Launcher → Launcher → Type 0
InCategory first l = case_eq (launcher_category_key l) (launcher_category_key first) ≡ true

folded : Bytes → Bytes
folded s = map lower s

of_case_eq : (a b : Bytes) → case_eq a b ≡ true → folded a ≡ folded b
unfolding case_eq folded
of_case_eq a b h = eq_of_str_eq (map lower a) (map lower b) h

case_eq_same : (a b c : Bytes) → case_eq a b ≡ true → folded c ≡ folded b → case_eq a c ≡ true
unfolding case_eq folded
case_eq_same a b c h e =
    let same : map lower a ≡ map lower c = of_case_eq a b h ∙ sym e in
    rw same (str_eq_refl (map lower c))

larger_left : (m n : ℕ) → m ≤ larger m n
larger_left m n = ground arith

count_rows-le_max :
    (m n : ℕ) (cat : Option Bytes) (ls : List Launcher) → larger m n ≤ count_rows m n cat ls
unfolding count_rows
count_rows-le_max m n cat [] = omega arith
count_rows-le_max m n none (l ∷ ls) =
    ground (arith, count_rows-le_max (larger m n) 1 (some (launcher_category_key l)) ls)
count_rows-le_max m n (some cat) (l ∷ ls) =
    elim (Bool-cases (case_eq (launcher_category_key l) cat)) [
      | inl e ↦ rw (e, count_rows) (ground (arith, count_rows-le_max m (n + 1) (some cat) ls))
      | inr e ↦
          rw (e, count_rows)
            (ground (arith, count_rows-le_max (larger m n) 1 (some (launcher_category_key l)) ls))
    ]

-- The launchers of a row that was begun are counted on.
row_counted :
    (m n : ℕ) (cat : Bytes) (first : Launcher) (row after : List Launcher)
    → folded cat ≡ folded (launcher_category_key first)
    → All (InCategory first) row
    → n + length row ≤ count_rows m n (some cat) (row ++ after)
unfolding count_rows
row_counted m n cat first [] after e h = ground (arith, count_rows-le_max m n (some cat) after)
row_counted m n cat first (l ∷ row) after e (h, hs) =
    rw (case_eq_same (launcher_category_key l) (launcher_category_key first) cat h e, count_rows)
      (omega (arith, row_counted m (n + 1) cat first row after e hs))

row_found :
    (before : List Launcher) (m n : ℕ) (cat : Option Bytes) (first : Launcher)
    (row after : List Launcher)
    → All (InCategory first) row
    → suc (length row) ≤ count_rows m n cat (before ++ first ∷ (row ++ after))
unfolding count_rows
row_found [] m n none first row after h =
    omega (arith, row_counted (larger m n) 1 (launcher_category_key first) first row after refl h)
row_found [] m n (some cat) first row after h =
    elim (Bool-cases (case_eq (launcher_category_key first) cat)) [
      | inl e ↦
          rw (e, count_rows)
            (omega (
              arith,
              row_counted m (n + 1) cat first row after
                  (sym (of_case_eq (launcher_category_key first) cat e)) h,
            ))
      | inr e ↦
          rw (e, count_rows)
            (omega (
              arith,
              row_counted (larger m n) 1 (launcher_category_key first) first row after refl h,
            ))
    ]
row_found (l ∷ before) m n none first row after h =
    row_found before (larger m n) 1 (some (launcher_category_key l)) first row after h
row_found (l ∷ before) m n (some cat) first row after h =
    elim (Bool-cases (case_eq (launcher_category_key l) cat)) [
      | inl e ↦ rw (e, count_rows) (row_found before m (n + 1) (some cat) first row after h)
      | inr e ↦
          rw (e, count_rows)
            (row_found before (larger m n) 1 (some (launcher_category_key l)) first row after h)
    ]

longest_row :
    (before : List Launcher) (first : Launcher) (row after : List Launcher)
    → All (InCategory first) row
    → suc (length row) ≤ max_launchers_per_category (before ++ first ∷ (row ++ after))
unfolding max_launchers_per_category
longest_row [] first row after h = row_found [] 1 0 none first row after h
longest_row (l ∷ before) first row after h = row_found (l ∷ before) 1 0 none first row after h

mul_pos : (a b : ℕ) → pos a *ℤ pos b ≡ pos (a * b)
unfolding ◌*ℤ◌
mul_pos a b = ground arith

add_pos : (a b : ℕ) → pos a +ℤ pos b ≡ pos (a + b)
unfolding ◌+ℤ◌
add_pos a b = ground arith

row_width_pos :
    (c : Contents) (s g n : ℕ)
    → c.icon_size ≡ pos s
    → c.spacing ≡ pos g
    → row_width c n ≡ pos (n * s + (n - 1) * g)
unfolding row_width
row_width_pos c s g n e f =
    rw (e, f, mul_pos n s, mul_pos (n - 1) g, add_pos (n * s) ((n - 1) * g)) refl

times_mono : (a b s : ℕ) → a ≤ b → a * s ≤ b * s
times_mono a b s h = grind arith

row_width_mono :
    (c : Contents) (s g n k : ℕ)
    → c.icon_size ≡ pos s
    → c.spacing ≡ pos g
    → n ≤ k
    → row_width c n ≤ℤ row_width c k
row_width_mono c s g n k e f h =
    rw (row_width_pos c s g n e f, row_width_pos c s g k e f)
      (omega (arith, times_mono n k s h, times_mono (n - 1) (k - 1) g (omega arith)))

le_trans_ℤ : (a b c : ℤ) → a ≤ℤ b → b ≤ℤ c → a ≤ℤ c
le_trans_ℤ a b c h k = omega arith

widest : (t i l r : ℤ) → r ≤ℤ at_least t (at_least i (at_least l r))
widest t i l r =
    le_trans_ℤ r (at_least l r) (at_least t (at_least i (at_least l r))) (le-at_least l r) (
      le_trans_ℤ (at_least l r) (at_least i (at_least l r)) (at_least t (at_least i (at_least l r)))
        (le-at_least i (at_least l r)) (le-at_least t (at_least i (at_least l r))))

-- The dock's contents are as wide as the icons of any launchers of one category that follow one
-- another, with the gaps between them.
pub compute_content_width-row :
    (c : Contents) (s g : ℕ) (before : List Launcher) (first : Launcher) (row after : List Launcher)
    → c.icon_size ≡ pos s
    → c.spacing ≡ pos g
    → c.launchers ≡ before ++ first ∷ (row ++ after)
    → All (InCategory first) row
    → row_width c (suc (length row)) ≤ℤ compute_content_width c
unfolding compute_content_width
compute_content_width-row c s g before first row after e f same h =
    let n = larger 1 (max_launchers_per_category c.launchers) in
    let long : suc (length row) ≤ max_launchers_per_category c.launchers =
      subst (λ ls. suc (length row) ≤ max_launchers_per_category ls) (sym same)
        (longest_row before first row after h) in
    let wide = row_width_mono c s g (suc (length row)) n e f (ground (arith, long)) in
    le_trans_ℤ (row_width c (suc (length row))) (row_width c n) (compute_content_width c) wide (
      widest (pos (tray_width (c.sni_count + c.xembed_count)))
        (pos (max_sysinfo_len 0 c.sysinfo_lines * 7 + 8))
        (pos (max_category_label_len c.launchers * 9 + 8)) (row_width c n))
