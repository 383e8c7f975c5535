-- ===== src/Dock/Notifier/Files.antt =====
-- The search for the file of an icon in a directory, `sni_best_icon_path_in_dir` of
-- nizam-dock/src/sni.c. `none` means that the fuel ran out, `some none` that no file is there.
pub mod Ends
use mathlib.Core.List.{flat_map}
use nizam.Prelude.{
  ℕ, zero, suc, ◌-◌, Bool, true, false, List, [], ◌∷◌, ◌++◌, map, if◌then◌else◌, Option, none, some,
  take,
}
use nizam.Text.{Bytes, fit, codes}

pub record FileSystem : Type 0 where
  pub readable : Bytes → Bool
  pub is_dir : Bytes → Bool
  pub list_dir : Bytes → List Bytes

-- The first path that can be read, each in a buffer of `n` bytes.
unfoldable pub first_readable : FileSystem → ℕ → List Bytes → Option Bytes
first_readable fs n [] = none
first_readable fs n (p ∷ l) =
    let rest = first_readable fs n l in if fs.readable (fit n p) then some (fit n p) else rest

abbrev pub with_ends : Bytes → List Bytes → List Bytes
with_ends p ends = map (λ e. p ++ e) ends

abbrev pub base_exts : List Bytes
base_exts = codes ".png" ∷ codes ".svg" ∷ codes ".svgz" ∷ codes ".xpm" ∷ []

abbrev pub scalable_exts : List Bytes
scalable_exts = codes ".svg" ∷ codes ".svgz" ∷ codes ".png" ∷ []

abbrev pub icon_sizes : List Bytes
icon_sizes =
    codes "128x128"
    ∷ codes "64x64"
    ∷ codes "48x48"
    ∷ codes "32x32"
    ∷ codes "24x24"
    ∷ codes "16x16"
    ∷ []

abbrev pub icon_groups : List Bytes
icon_groups = codes "status" ∷ codes "apps" ∷ []

abbrev pub size_exts : List Bytes
size_exts =
    codes ".png"
    ∷ codes ".svg"
    ∷ codes ".svgz"
    ∷ codes ".xpm"
    ∷ codes ".icon"
    ∷ codes "-symbolic.png"
    ∷ []

abbrev pub join : Bytes → Bytes → Bytes
join a b = a ++ b'/' ∷ b

-- The files that are tried in a directory, in their order.
unfoldable pub candidates : Bytes → Bytes → List Bytes
unfolding flat_map
candidates base name =
    with_ends (join base name) base_exts
    ++ (join base (name ++ codes "@2x.png") ∷ [])
    ++ flat_map
        (λ e.
          join base (codes "scalable/status/" ++ name ++ e)
          ∷ join base (codes "scalable/apps/" ++ name ++ e)
          ∷ [])
        scalable_exts
    ++ flat_map
        (λ size.
          flat_map (λ group. with_ends (join base (join size (join group name))) size_exts)
            icon_groups)
        icon_sizes
    ++ (join base (name ++ codes ".png") ∷ [])

abbrev pub Found : Type 0
Found = Option (Option Bytes)

-- The second search is made where the first finds nothing.
abbrev pub or_search : Found → Found → Found
or_search none rest = none
or_search (some none) rest = rest
or_search (some (some p)) rest = some (some p)

unfoldable pub is_empty : Bytes → Bool
is_empty [] = true
is_empty (c ∷ s) = false

abbrev pub hicolor : Bytes → Bytes
hicolor base = fit 512 (join base (codes "hicolor"))

unfoldable pub in_files : FileSystem → Bytes → Bytes → Found
unfolding candidates first_readable
in_files fs base name = some (first_readable fs 512 (candidates base name))

unfoldable pub icon_path_in_dir : FileSystem → ℕ → Bytes → Bytes → Found
unfolding in_files is_empty
icon_path_in_dir fs zero base name = none
icon_path_in_dir fs (suc fuel) base name = elim (is_empty base) [
  | true ↦ some none
  | false ↦ elim (is_empty name) [
    | true ↦ some none
    | false ↦ elim (fs.is_dir (hicolor base)) [
      | true ↦ or_search (icon_path_in_dir fs fuel (hicolor base) name) (in_files fs base name)
      | false ↦ in_files fs base name
    ]
  ]
]
