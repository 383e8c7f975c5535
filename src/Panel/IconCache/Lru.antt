-- ===== src/Panel/IconCache/Lru.antt =====
-- What the icon cache of the panel promises: a list of at most 64 icons, most recently used first.
use nizam.Prelude.{
  ℕ, Bool, true, false, ◌&&◌, List, [], ◌∷◌, ◌==◌, if◌then◌else◌, Option, none, some, take,
}
use nizam.Text.{Bytes}
use nizam.Panel.IconCache.{Entry}
use nizam.Panel.IconCache.Search.{Key, name_is}

-- An entry without its place in the list.
pub record Item : Type 0 where
  pub name : Option Bytes
  pub size : ℕ
  pub scale : ℕ
  pub variant : ℕ
  pub surface : Option ℕ

abbrev pub item : Entry → Item
item e = record {
  name = e.name;
  size = e.size;
  scale = e.scale;
  variant = e.variant;
  surface = e.surface;
}

abbrev pub item_is : Key → Item → Bool
item_is k x =
    (x.size == k.size && x.scale == k.scale && x.variant == k.variant) && name_is x.name k.name

unfoldable pub find : Key → List Item → Option Item
find k [] = none
find k (x ∷ l) = if item_is k x then some x else find k l

unfoldable pub drop_key : Key → List Item → List Item
drop_key k [] = []
drop_key k (x ∷ l) = if item_is k x then drop_key k l else x ∷ drop_key k l

-- A lookup moves what it finds to the front.
abbrev pub use_found : Key → List Item → Option Item → List Item
use_found k l none = l
use_found k l (some x) = x ∷ drop_key k l

abbrev pub surface_of : Option Item → Option ℕ
surface_of none = none
surface_of (some x) = x.surface

unfoldable pub touch : Key → List Item → List Item
touch k l = use_found k l (find k l)

unfoldable pub get : Key → List Item → Option ℕ
get k l = surface_of (find k l)

abbrev pub new_item : Key → ℕ → Item
new_item k surf = record {
  name = some k.name;
  size = k.size;
  scale = k.scale;
  variant = k.variant;
  surface = some surf;
}

-- A new icon comes first, and of the others the 63 most recent stay.
unfoldable pub insert : Key → ℕ → List Item → List Item
insert k surf l = new_item k surf ∷ take 63 l

-- An icon that is cached has a surface.
abbrev pub has_surface : Item → Bool
has_surface x = elim x.surface [ none ↦ false | some _ ↦ true ]
