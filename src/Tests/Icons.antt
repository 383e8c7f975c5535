-- ===== src/Tests/Icons.antt =====
-- The icon cache at concrete inputs.
use nizam.Prelude.{◌∷◌, ℕ, ◌≡◌, refl, false, List, [], Option, none, some}
use nizam.Text.{Bytes, codes, has_char}
use nizam.Panel.IconCache.{IconCache, icon_cache_init}
use nizam.Panel.IconCache.Search.{
  Key, uncached_name, matches, find_from, find_key, insert_key, load_icon_from_name,
}
use nizam.Panel.IconCache.Refine.{view}
use nizam.Panel.IconCache.Refine.Insert.{Inserted, insert_key_refines}
use nizam.Panel.IconCache.History.{HoldsList, spec_run, run_loads, run_loads-HoldsList}
use nizam.Panel.IconCache.Load.{
  icon_key, init-IsValid, spec_load, Holds, load_icon_from_name_refines,
}

-- A theme in which every icon is found.
abbrev theme : Bytes → ℕ → Option ℕ
theme name size = some 7

abbrev firefox : Bytes
firefox = codes "firefox"

firefox_cached : uncached_name firefox ≡ false
unfolding uncached_name has_char
firefox_cached = refl

load_icon_from_name_example :
    Holds
      (spec_load (view icon_cache_init.entries []) (icon_key firefox) (theme firefox 16))
      (load_icon_from_name theme icon_cache_init firefox)
load_icon_from_name_example =
    load_icon_from_name_refines theme icon_cache_init [] firefox firefox_cached init-IsValid

nothing_found : (k : Key) → find_key icon_cache_init k ≡ none
unfolding find_key icon_cache_init find_from matches
nothing_found k = refl

-- The cache after an icon has been put in.
inserted :
    Inserted
      (view icon_cache_init.entries [])
      (icon_key firefox)
      7
      (insert_key icon_cache_init (icon_key firefox) 7)
inserted =
    insert_key_refines icon_cache_init [] (icon_key firefox) 7 init-IsValid
      (nothing_found (icon_key firefox))

abbrev one_icon : IconCache
one_icon = (insert_key icon_cache_init (icon_key firefox) 7).0

abbrev one_order : List ℕ
one_order = inserted.1.0

abbrev names : List Bytes
names = firefox ∷ codes "/usr/share/icon.png" ∷ codes "Terminal.svg" ∷ firefox ∷ []

run_loads_example : HoldsList (spec_run theme [] names) (run_loads theme icon_cache_init names)
run_loads_example = run_loads-HoldsList theme names
