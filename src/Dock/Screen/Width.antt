-- ===== src/Dock/Screen/Width.antt =====
-- The width of the dock's contents, nizam-dock/src/xcb_app.c: `compute_content_width` and what it
-- reads. The launchers are in the order of their categories.
use nizam.Prelude.{
  ℕ, zero, suc, ◌+◌, ◌-◌, ◌*◌, true, false, List, [], ◌∷◌, ltb, if◌then◌else◌, Option, none, some,
  length,
}
use nizam.Prelude.Int.{ℤ, pos, ◌+ℤ◌, ◌*ℤ◌, at_least}
use nizam.Text.{Bytes, codes, case_eq}
use nizam.Launcher.Desktop.{Launcher, or_empty}

unfoldable pub launcher_category_key : Launcher → Bytes
launcher_category_key l = or_empty l.category

unfoldable pub category_display_name : Bytes → Bytes
unfolding case_eq
category_display_name [] = codes "System"
category_display_name (c ∷ cat) =
    if case_eq (c ∷ cat) (codes "Development")
    then codes "Development"
    else if case_eq (c ∷ cat) (codes "Games")
    then codes "Games"
    else if case_eq (c ∷ cat) (codes "Graphics")
    then codes "Graphics"
    else if case_eq (c ∷ cat) (codes "Multimedia")
    then codes "Multimedia"
    else if case_eq (c ∷ cat) (codes "Office")
    then codes "Learning"
    else if case_eq (c ∷ cat) (codes "System")
    then codes "System"
    else if case_eq (c ∷ cat) (codes "Network")
    then codes "Network"
    else if case_eq (c ∷ cat) (codes "Utilities")
    then codes "Accessories"
    else codes "System"

-- `if (n > m) m = n;`
abbrev pub larger : ℕ → ℕ → ℕ
larger m n = if ltb m n then n else m

-- The loop over the launchers: the longest row so far, the row that is being counted, its category.
unfoldable pub count_rows : ℕ → ℕ → Option Bytes → List Launcher → ℕ
unfolding launcher_category_key case_eq
count_rows max_count current cat [] = larger max_count current
count_rows max_count current none (l ∷ ls) =
    count_rows (larger max_count current) 1 (some (launcher_category_key l)) ls
count_rows max_count current (some cat) (l ∷ ls) = elim (case_eq (launcher_category_key l) cat) [
  | true ↦ count_rows max_count (current + 1) (some cat) ls
  | false ↦ count_rows (larger max_count current) 1 (some (launcher_category_key l)) ls
]

unfoldable pub max_launchers_per_category : List Launcher → ℕ
unfolding count_rows
max_launchers_per_category [] = 1
max_launchers_per_category (l ∷ ls) = count_rows 1 0 none (l ∷ ls)

abbrev pub category_label : Bytes → Bytes
category_label [] = codes "Other"
category_label (c ∷ cat) = category_display_name (c ∷ cat)

-- The loop over the categories: the launchers of one category are passed over.
unfoldable pub label_len : ℕ → Bytes → List Launcher → ℕ
unfolding launcher_category_key case_eq category_display_name
label_len max_len cat [] = max_len
label_len max_len cat (l ∷ ls) = elim (case_eq (launcher_category_key l) cat) [
  | true ↦ label_len max_len cat ls
  | false ↦
      label_len (larger max_len (length (category_label (launcher_category_key l))))
        (launcher_category_key l) ls
]

unfoldable pub max_category_label_len : List Launcher → ℕ
unfolding label_len launcher_category_key category_display_name
max_category_label_len [] = 5
max_category_label_len (l ∷ ls) =
    label_len (larger 0 (length (category_label (launcher_category_key l))))
      (launcher_category_key l) ls

unfoldable pub max_sysinfo_len : ℕ → List Bytes → ℕ
max_sysinfo_len max_len [] = max_len
max_sysinfo_len max_len (line ∷ lines) = max_sysinfo_len (larger max_len (length line)) lines

-- The settings that the width depends on, and the counts of what is shown.
pub record Contents : Type 0 where
  pub launchers : List Launcher
  pub icon_size : ℤ
  pub spacing : ℤ
  pub padding : ℤ
  pub sysinfo_lines : List Bytes
  pub sni_count : ℕ
  pub xembed_count : ℕ

-- The room that `n` launchers take in a row.
unfoldable pub row_width : Contents → ℕ → ℤ
unfolding ◌+ℤ◌ ◌*ℤ◌
row_width c n = pos n *ℤ c.icon_size +ℤ pos (n - 1) *ℤ c.spacing

unfoldable pub tray_width : ℕ → ℕ
tray_width zero = 0
tray_width (suc n) = suc n * 24 + n * 3

unfoldable pub compute_content_width : Contents → ℤ
unfolding row_width max_launchers_per_category max_category_label_len max_sysinfo_len tray_width
    at_least
compute_content_width c =
    let max_row = larger 1 (max_launchers_per_category c.launchers) in
    let row_w = row_width c max_row in
    let label_w = pos (max_category_label_len c.launchers * 9 + 8) in
    let info_w = pos (max_sysinfo_len 0 c.sysinfo_lines * 7 + 8) in
    let tray_w = pos (tray_width (c.sni_count + c.xembed_count)) in
    at_least tray_w (at_least info_w (at_least label_w row_w))
