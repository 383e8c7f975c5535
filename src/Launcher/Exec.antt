-- ===== src/Launcher/Exec.antt =====
-- The command of a launcher, nizam-dock/src/config.c: `str_trim` and `sanitize_exec`.
pub mod Clean
use nizam.Prelude.{ℕ, zero, suc, ◌-◌, Bool, true, false, ◌||◌, List, [], ◌∷◌, ◌==◌}
use nizam.Text.{Bytes, skip_while, cut_right}

-- '\n', '\r', ' ' and '\t'
unfoldable pub is_trailing : ℕ → Bool
is_trailing c = c == 10 || c == 13 || c == b' ' || c == 9

-- ' ' and '\t'
unfoldable pub is_blank : ℕ → Bool
is_blank c = c == b' ' || c == 9

pub str_trim : Bytes → Bytes
unfolding is_trailing is_blank skip_while cut_right
str_trim s = skip_while is_blank (cut_right is_trailing s)

-- The loop of `sanitize_exec`; the first argument is `out_len - 1 - j`, the room left.
pub strip_codes : ℕ → Bytes → Bytes
strip_codes zero s = []
strip_codes (suc room) [] = []
strip_codes (suc room) (c ∷ []) = elim (c == b'%') [ true ↦ [] | false ↦ c ∷ [] ]
strip_codes (suc room) (c ∷ d ∷ s) = elim (c == b'%') [
  | true ↦ strip_codes (suc room) s
  | false ↦ c ∷ strip_codes room (d ∷ s)
]

-- `out_len` is at least 1: both callers pass the size of an array.
unfoldable pub sanitize_exec : Bytes → ℕ → Bytes
unfolding strip_codes str_trim
sanitize_exec input out_len = str_trim (strip_codes (out_len - 1) input)
