-- ===== src/Dock/Surfaces/Lru.antt =====
-- What the icon cache of the dock promises: a list of icons, most recently used first, that holds
-- one key once and is never longer than the capacity, or than one icon.
use nizam.Prelude.{ℕ, ◌-◌, List, [], ◌∷◌, if◌then◌else◌, Option, none, some, take, max}
use nizam.Prelude.Int.{ℤ, pos_part}
use nizam.Dock.Surfaces.{IconKey, IconEntry, icon_key_equal}

pub record Cached : Type 0 where
  pub key : IconKey
  pub surface : Option ℕ

abbrev pub cached : IconEntry → Cached
cached e = record { key = e.key; surface = e.surface }

unfoldable pub find : IconKey → List Cached → Option Cached
find k [] = none
find k (x ∷ l) = if icon_key_equal x.key k then some x else find k l

unfoldable pub drop_key : IconKey → List Cached → List Cached
drop_key k [] = []
drop_key k (x ∷ l) = if icon_key_equal x.key k then drop_key k l else x ∷ drop_key k l

-- A capacity below 1 still lets one icon in.
abbrev pub room : ℤ → ℕ
room capacity = max 1 (pos_part capacity)

-- A new icon comes first, and of the others as many stay as the capacity lets.
abbrev pub spec_store : ℤ → IconKey → Option ℕ → List Cached → List Cached × Option ℕ
spec_store capacity k none l = (l, none)
spec_store capacity k (some s) l =
    (record { key = k; surface = some s } ∷ take (room capacity - 1) l, some s)

-- What is cached moves to the front; what is not is loaded.
abbrev pub spec_found :
    ℤ → IconKey → Option ℕ → List Cached → Option Cached → List Cached × Option ℕ
spec_found capacity k load l (some x) = (x ∷ drop_key k l, x.surface)
spec_found capacity k load l none = spec_store capacity k load l

unfoldable pub spec_get : ℤ → IconKey → Option ℕ → List Cached → List Cached × Option ℕ
spec_get capacity k load l = spec_found capacity k load l (find k l)
