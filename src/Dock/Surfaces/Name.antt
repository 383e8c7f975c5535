-- ===== src/Dock/Surfaces/Name.antt =====
-- The name under which the dock caches an icon: nizam-dock/src/icon_policy.c.
pub mod Base
use nizam.Prelude.{
  ℕ, zero, suc, ◌+◌, ◌-◌, Bool, ◌||◌, List, [], ◌∷◌, map, ◌==◌, ltb, leb, if◌then◌else◌, Option,
  none, some, length, take, drop,
}
use nizam.Text.{Bytes, lower, trim_len, last_index}

unfoldable pub is_blank : ℕ → Bool
is_blank c = c == b' ' || c == 9 || c == 10 || c == 13

-- `trim_left`: the number of blanks in front.
unfoldable pub trim_left : Bytes → ℕ
unfolding is_blank
trim_left [] = 0
trim_left (c ∷ s) = if is_blank c then suc (trim_left s) else 0

-- `trim_right`: the length without the blanks at the end.
unfoldable pub trim_right : Bytes → ℕ → ℕ
unfolding is_blank trim_len
trim_right s len = trim_len is_blank s len

-- The part of `n` bytes behind the last slash, unless the slash ends it.
abbrev pub after_slash : Bytes → ℕ → Option ℕ → Bytes × ℕ
after_slash s n none = (s, n)
after_slash s n (some slash) =
    if ltb (slash + 1) n then (drop (slash + 1) s, n - (slash + 1)) else (s, n)

-- The length without the extension, unless the dot comes first.
abbrev pub before_dot : ℕ → Option ℕ → ℕ
before_dot n none = n
before_dot n (some dot) = if ltb 0 dot then dot else n

abbrev pub lower_name : ℕ → Bytes × ℕ → Bytes
lower_name out_len (s, n) =
    map lower (take (out_len - 1) (take (before_dot n (last_index b'.' (take n s))) s))

-- `nizam_dock_icon_normalize` into a buffer of `out_len` bytes, which is not 0. The empty string is
-- what `out[0] = '\0'` leaves.
unfoldable pub icon_normalize : Bytes → ℕ → Bytes
unfolding trim_left trim_right last_index lower
icon_normalize text out_len =
    let start = trim_left text in
    let len = trim_right text (length text) in
    let s = drop start text in
    if leb len start
    then []
    else lower_name out_len (after_slash s (len - start) (last_index b'/' s))
