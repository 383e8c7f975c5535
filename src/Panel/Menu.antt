-- ===== src/Panel/Menu.antt =====
-- The application menu of the panel, nizam-panel/src/menu.c: the groups of applications, the rows of
-- the two windows, and where they stand. `qsort` is a parameter.
pub mod Groups
pub mod Rows
pub mod Place
use nizam.Prelude.{
  ℕ, zero, suc, ◌+◌, ◌-◌, ◌*◌, Bool, true, false, not, ◌&&◌, ◌||◌, List, [], ◌∷◌, ◌++◌, ◌==◌, ltb,
  leb, if◌then◌else◌, Option, none, some, length, take, drop,
}
use nizam.Prelude.Int.{ℤ, pos, ◌+ℤ◌, ◌-ℤ◌, ltb_ℤ, leb_ℤ, at_most, at_least}
use nizam.Text.{Bytes, codes, str_eq, case_eq}

pub record AppEntry : Type 0 where
  pub name : Bytes
  pub exec : Bytes
  pub icon : Bytes
  pub category : Bytes

pub record Rect : Type 0 where
  pub x : ℤ
  pub y : ℤ
  pub w : ℤ
  pub h : ℤ

pub record MenuItem : Type 0 where
  pub rect : Rect
  pub label : Bytes
  pub app : Option AppEntry

pub record CategoryGroup : Type 0 where
  pub name : Bytes
  pub start : ℕ
  pub count : ℕ

unfoldable pub category_display_name : Bytes → Bytes
category_display_name [] = codes "System"
category_display_name (c ∷ t) =
    let cat = c ∷ t in
    if case_eq cat (codes "Development")
    then codes "Development"
    else if case_eq cat (codes "Games")
    then codes "Games"
    else if case_eq cat (codes "Graphics")
    then codes "Graphics"
    else if case_eq cat (codes "Multimedia")
    then codes "Multimedia"
    else if case_eq cat (codes "Office")
    then codes "Learning"
    else if case_eq cat (codes "System")
    then codes "System"
    else if case_eq cat (codes "Network")
    then codes "Network"
    else if case_eq cat (codes "Utilities")
    then codes "Accessories"
    else codes "System"

-- `!last || strcmp(last, category) != 0`
is_new : Option Bytes → Bytes → Bool
is_new none cat = true
is_new (some last) cat = not (str_eq last cat)

bump : List CategoryGroup → List CategoryGroup
bump [] = []
bump (g ∷ gs) = record g { count = suc g.count } ∷ gs

unfoldable pub new_group : ℕ → Bytes → CategoryGroup
new_group i category = record { name = take 63 category; start = i; count = 1 }

-- The loop of `build_categories` from index `i` on, with the groups so far, the newest first.
unfoldable pub group_from :
    ℕ → Option Bytes → List CategoryGroup → List AppEntry → List CategoryGroup
unfolding is_new bump
group_from i last cats [] = cats
group_from i last cats (a ∷ rest) =
    let fresh = group_from (suc i) (some a.category) (new_group i a.category ∷ cats) rest in
    let same = group_from (suc i) last (bump cats) rest in
    if is_new last a.category then fresh else same

unfoldable pub turned : List CategoryGroup → List CategoryGroup
turned [] = []
turned (g ∷ gs) = turned gs ++ (g ∷ [])

-- The groups of the applications, which are sorted in place.
unfoldable pub build_categories :
    (List AppEntry → List AppEntry) → List AppEntry → List AppEntry × List CategoryGroup
build_categories qsort apps =
    let sorted = qsort apps in (sorted, turned (group_from 0 none [] sorted))

abbrev pub row_h : ℕ
row_h = 30

-- The row that begins at height `y`.
abbrev pub row : ℤ → ℕ → Rect
row w y = record { x = pos 0; y = pos y; w = w; h = pos row_h }

-- The loop of `build_sub_items_for` over the applications of a group.
unfoldable pub sub_rows : ℤ → ℕ → List AppEntry → List MenuItem
sub_rows w y [] = []
sub_rows w y (a ∷ rest) =
    record { rect = row w y; label = take 127 a.name; app = some a } ∷ sub_rows w (y + row_h) rest

empty_row : ℤ → List MenuItem
empty_row w = record { rect = row w 0; label = codes "(empty)"; app = none } ∷ []

nth_group : List CategoryGroup → ℕ → Option CategoryGroup
nth_group [] i = none
nth_group (g ∷ gs) zero = some g
nth_group (g ∷ gs) (suc i) = nth_group gs i

unfoldable pub group_apps : CategoryGroup → List AppEntry → List AppEntry
group_apps g apps = take g.count (drop g.start apps)

-- The rows of a category, with the height of what they take.
unfoldable pub group_rows : ℤ → List AppEntry → Option CategoryGroup → List MenuItem × ℕ
unfolding empty_row
group_rows w apps none = (empty_row w, row_h)
group_rows w apps (some g) =
    if g.count == 0
    then (empty_row w, row_h)
    else (sub_rows w 0 (group_apps g apps), g.count * row_h)

unfoldable pub build_sub_items_for : ℤ → List AppEntry → List CategoryGroup → ℕ → List MenuItem × ℕ
unfolding nth_group
build_sub_items_for sub_w apps cats cat_idx = group_rows sub_w apps (nth_group cats cat_idx)

-- The rows of the categories below the tools, from height `y` on, with the height after them.
unfoldable pub category_rows : ℤ → ℕ → List CategoryGroup → List MenuItem × ℕ
category_rows w y [] = ([], y)
category_rows w y (g ∷ gs) =
    let (rows, y') = category_rows w (y + row_h) gs in
    (
      record { rect = row w y; label = take 127 (category_display_name g.name); app = none } ∷ rows,
      y',
    )

no_applications : ℤ → ℕ → List MenuItem × ℕ
no_applications w y =
    (record { rect = row w y; label = codes "No applications found"; app = none } ∷ [], y + row_h)

some_categories : ℤ → ℕ → List CategoryGroup → List MenuItem × ℕ
some_categories w y [] = no_applications w y
some_categories w y (g ∷ gs) = category_rows w y (g ∷ gs)

-- The tools, four of them in the program, a gap of 8, and the categories.
unfoldable pub build_category_items : ℤ → List AppEntry → List CategoryGroup → List MenuItem × ℕ
unfolding some_categories no_applications
build_category_items cat_w tools cats =
    let (rows, height) = some_categories cat_w (length tools * row_h + 8) cats in
    (sub_rows cat_w 0 tools ++ rows, height)

row_hit : ℤ → ℤ → Rect → Bool
row_hit x cy r = leb_ℤ r.x x && leb_ℤ x (r.x +ℤ r.w) && leb_ℤ r.y cy && leb_ℤ cy (r.y +ℤ r.h)

unfoldable pub item_from : List MenuItem → ℤ → ℤ → ℕ → Option ℕ
unfolding row_hit
item_from [] x cy i = none
item_from (m ∷ ms) x cy i =
    let rest = item_from ms x cy (i + 1) in if row_hit x cy m.rect then some i else rest

unfoldable pub item_at : List MenuItem → ℤ → ℤ → ℤ → ℤ → Option ℕ
item_at items scroll x y view_h =
    if ltb_ℤ (pos 0) view_h && leb_ℤ view_h y then none else item_from items x (y +ℤ scroll) 0

unfoldable pub scroll_by : ℤ → ℤ → ℤ → ℤ → ℤ
scroll_by scroll content_h view_h delta =
    at_most (at_least (pos 0) (content_h -ℤ view_h)) (at_least (pos 0) (scroll +ℤ delta))

-- The panel at the bottom or the top of the screen.
pub record Panel : Type 0 where
  pub bottom : Bool
  pub panel_y : ℤ
  pub panel_h : ℤ
  pub screen_h : ℤ

unfoldable pub clamp_menu_y_gap : Panel → ℤ → ℤ → ℤ → ℤ
clamp_menu_y_gap p y h gap_px =
    let y1 =
      if p.bottom
      then at_most (p.panel_y -ℤ gap_px -ℤ h) y
      else at_least (p.panel_y +ℤ p.panel_h +ℤ gap_px) y in
    at_most (at_least (pos 0) (p.screen_h -ℤ h)) (at_least (pos 0) y1)

-- Where the submenu stands beside the menu.
unfoldable pub submenu_x : ℤ → ℤ → ℤ → ℤ → ℤ → ℤ
submenu_x screen_w gap cat_w sub_w cat_x =
    let sx =
      if leb_ℤ (cat_x +ℤ cat_w +ℤ sub_w) screen_w
      then cat_x +ℤ cat_w +ℤ gap
      else cat_x -ℤ sub_w -ℤ gap in
    let sx' = at_least (pos 0) sx in
    if ltb_ℤ screen_w (sx' +ℤ sub_w) then screen_w -ℤ sub_w else sx'
