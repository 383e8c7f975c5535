-- ===== src/Dock/Notifier/Found.antt =====
-- The file that the search for a named icon finds, and that the search ends.
use nizam.Prelude.{
  ℕ, All, ◌≡◌, ◌<◌, true, false, ◌||◌, not, List, [], ◌∷◌, none, some, length, arith, ap, ◌∙◌, refl,
  take_of_length-le, Bool-cases, Option-cases, inl, inr,
}
use nizam.Text.{Bytes, fit, codes, has_char}
use nizam.Dock.Notifier.Files.{
  FileSystem, Found, first_readable, or_search, with_ends, join, hicolor, icon_path_in_dir,
}
use nizam.Dock.Notifier.Files.Ends.{first_readable_reads, icon_path_in_dir_reads}
use nizam.Dock.Notifier.Search.{
  Environment, data_dirs, is_hidden, icon_path_in_themes, in_icons, pix_exts, in_pixmaps,
  icon_path_in_dirs, near_files, last_files, best_icon_path,
}

-- What is found can be read.
abbrev pub Reads : FileSystem → Found → Type 0
Reads fs none = Unit
Reads fs (some none) = Unit
Reads fs (some (some p)) = fs.readable p ≡ true

or_search-Reads :
    (fs : FileSystem) (a b : Found) → Reads fs a → Reads fs b → Reads fs (or_search a b)
or_search-Reads fs none b ha hb = tt
or_search-Reads fs (some none) b ha hb = hb
or_search-Reads fs (some (some p)) b ha hb = ha

-- What holds of the directory of each theme, a name in a directory of icons.
abbrev pub AllThemes : (Bytes → Type 0) → Bytes → List Bytes → Type 0
AllThemes Q root entries = All (λ entry. Q (fit 512 (join root entry))) entries

-- What holds of the directory of each theme that is searched, for some of the data directories.
abbrev pub AllSearched : FileSystem → (Bytes → Type 0) → List Bytes → Type 0
AllSearched fs Q dirs =
    All
      (λ d.
        AllThemes Q (fit 256 (join d (codes "icons")))
          (fs.list_dir (fit 256 (join d (codes "icons")))))
      dirs

-- The `hicolor` directory of a theme holds no further one.
abbrev pub IsFlat : FileSystem → Bytes → Type 0
IsFlat fs base = fs.is_dir (hicolor (hicolor base)) ≡ false

all_lem : {A : Type 0} (l : List A) (Q : A → Type 0) → ((x : A) → Q x) → All Q l
all_lem [] Q h = tt
all_lem (x ∷ l) Q h = (h x, all_lem l Q h)

-- What holds of the search in one directory and of a list of files holds of the whole search.
module _ (fs : FileSystem) (fuel : ℕ) (P : Found → Type 0) (nothing : P (some none))
    (closed : (a b : Found) → P a → P b → P (or_search a b))
    (files : (n : ℕ) (l : List Bytes) → P (some (first_readable fs n l))) (Q : Bytes → Type 0)
    (in_dir : (base name : Bytes) → Q base → P (icon_path_in_dir fs fuel base name)) where
  themes_have :
      (root name : Bytes) (entries : List Bytes)
      → AllThemes Q root entries
      → P (icon_path_in_themes fs fuel root name entries)
  unfolding icon_path_in_themes
  themes_have root name [] q = nothing
  themes_have root name (entry ∷ entries) q =
      elim (Bool-cases (is_hidden entry || not (fs.is_dir (fit 512 (join root entry))))) [
        | inl e ↦ rw e (themes_have root name entries q.1)
        | inr e ↦ rw e (
            closed (icon_path_in_dir fs fuel (fit 512 (join root entry)) name)
              (icon_path_in_themes fs fuel root name entries)
              (in_dir (fit 512 (join root entry)) name q.0) (themes_have root name entries q.1))
      ]

  icons_have :
      (root name : Bytes) → AllThemes Q root (fs.list_dir root) → P (in_icons fs fuel root name)
  unfolding in_icons
  icons_have root name q = elim (Bool-cases (fs.is_dir root)) [
    | inl e ↦ rw e (themes_have root name (fs.list_dir root) q)
    | inr e ↦ rw e nothing
  ]

  pixmaps_have : (root name : Bytes) → P (in_pixmaps fs root name)
  unfolding in_pixmaps
  pixmaps_have root name = elim (Bool-cases (fs.is_dir root)) [
    | inl e ↦ rw e (files 512 (with_ends (join root name) pix_exts))
    | inr e ↦ rw e nothing
  ]

  dirs_have :
      (name : Bytes) (dirs : List Bytes)
      → AllSearched fs Q dirs
      → P (icon_path_in_dirs fs fuel name dirs)
  unfolding icon_path_in_dirs
  dirs_have name [] q = nothing
  dirs_have name (d ∷ dirs) q =
      let icons = fit 256 (join d (codes "icons")) in
      let pixmaps = fit 256 (join d (codes "pixmaps")) in
      let rest = icon_path_in_dirs fs fuel name dirs in
      closed (in_icons fs fuel icons name) (or_search (in_pixmaps fs pixmaps name) rest)
        (icons_have icons name q.0)
        (closed (in_pixmaps fs pixmaps name) rest (pixmaps_have pixmaps name)
          (dirs_have name dirs q.1))

  best_has :
      (env : Environment) (name : Bytes)
      → AllSearched fs Q (data_dirs env)
      → (fs.readable name ≡ true → P (some (some (fit 512 name))))
      → P (best_icon_path fs env fuel name)
  unfolding best_icon_path
  best_has env [] q given = nothing
  best_has env (c ∷ s) q given = elim (Bool-cases (has_char b'/' (c ∷ s))) [
    | inl e ↦
        rw e (elim (Bool-cases (fs.readable (c ∷ s))) [
          | inl f ↦ rw f (given f)
          | inr f ↦ rw f nothing
        ])
    | inr e ↦
        let name = c ∷ s in
        let dirs = icon_path_in_dirs fs fuel name (data_dirs env) in
        let last = some (first_readable fs 512 (last_files name)) in
        rw e (
          closed (some (first_readable fs 512 (near_files name))) (or_search dirs last)
            (files 512 (near_files name))
            (closed dirs last (dirs_have name (data_dirs env) q) (files 512 (last_files name))))
  ]

module _ (fs : FileSystem) where
  files-Reads : (n : ℕ) (l : List Bytes) → Reads fs (some (first_readable fs n l))
  files-Reads n l = elim (Option-cases (first_readable fs n l)) [
    | inl e ↦ rw e tt
    | inr (p, e) ↦ rw e (first_readable_reads fs n l p e)
  ]

  found-Reads : (f : Found) → ((p : Bytes) → f ≡ some (some p) → fs.readable p ≡ true) → Reads fs f
  found-Reads none h = tt
  found-Reads (some none) h = tt
  found-Reads (some (some p)) h = h p refl

  dir-Reads : (fuel : ℕ) (base name : Bytes) → Reads fs (icon_path_in_dir fs fuel base name)
  dir-Reads fuel base name =
      found-Reads (icon_path_in_dir fs fuel base name)
        (λ p e. icon_path_in_dir_reads fs fuel base name p e)

  -- The file that the search for a named icon finds, in any of the directories and under any of the
  -- extensions, is one that can be read, where the name is shorter than the buffer of the path.
  pub best_icon_path-Reads :
      (env : Environment) (fuel : ℕ) (name : Bytes)
      → length name < 512
      → Reads fs (best_icon_path fs env fuel name)
  best_icon_path-Reads env fuel name short =
      best_has fs fuel (Reads fs) tt (or_search-Reads fs) files-Reads (λ _. Unit)
        (λ base other _. dir-Reads fuel base other) env name
        (all_lem (data_dirs env) _ (λ d. all_lem (fs.list_dir _) _ (λ _. tt)))
        (λ e. ap fs.readable (take_of_length-le 511 name (omega arith)) ∙ e)
