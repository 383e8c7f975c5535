-- ===== src/Panel/IconFiles/Roots/Nearest.antt =====
-- The directory with icons that the panel finds above its executable, nizam-panel/src/main.c.
use nizam.Prelude.{
  ℕ, zero, suc, ◌+◌, ◌<◌, ◌≡◌, ◌⊎◌, refl, ap, true, false, [], ◌∷◌, ◌++◌, arith, ltb, some, length,
  length-append, Bool-cases, inl, inr,
}
use nizam.Text.{Bytes, has_char, fit}
use nizam.Text.Trim.{EndsClear, EndsClear-append, cut_right_id}
use nizam.Text.Last.{last_index-append, last_index-none, take-length}
use nizam.Panel.IconFiles.{
  Disk, dir_exists, is_slash, path_parent, common_icons, build_common_icons_path,
}
use nizam.Panel.IconFiles.Roots.{is_empty, at_level, walk_up, exe_icons_root}

flat-EndsClear : (c : ℕ) (s : Bytes) → has_char b'/' (c ∷ s) ≡ false → EndsClear is_slash (c ∷ s)
unfolding has_char
flat-EndsClear c [] h = ground arith
flat-EndsClear c (x ∷ s) h = flat-EndsClear x s (ground arith)

-- The parent of a name in a directory is the directory.
pub path_parent-slash :
    (dir name : Bytes)
    → 0 < length dir
    → 0 < length name
    → has_char b'/' name ≡ false
    → path_parent (dir ++ b'/' ∷ name) ≡ dir
unfolding path_parent
path_parent-slash [] name pos long flat = absurd (omega arith)
path_parent-slash (c ∷ dir) [] pos long flat = absurd (omega arith)
path_parent-slash (c ∷ dir) (x ∷ name) pos long flat =
    let clear =
      EndsClear-append is_slash dir b'/' (x ∷ name)
        (EndsClear-append is_slash (b'/' ∷ []) x name (flat-EndsClear x name flat)) in
    rw (cut_right_id is_slash (dir ++ b'/' ∷ x ∷ name) clear) (
      rw (last_index-append b'/' (c ∷ dir) (x ∷ name) (last_index-none b'/' (x ∷ name) flat))
        (ap (◌∷◌ c) (take-length dir (b'/' ∷ x ∷ name))))

-- The path, cut to its parent a number of times.
abbrev pub ancestor : ℕ → Bytes → Bytes
ancestor zero path = path
ancestor (suc k) path = ancestor k (path_parent path)

-- None of the first `k` directories has icons.
abbrev pub Missing : Disk → ℕ → Bytes → Type 0
Missing d zero path = Unit
Missing d (suc k) path =
    (dir_exists d (path ++ common_icons) ≡ false) × Missing d k (path_parent path)

abbrev pub Nearest : Disk → ℕ → Bytes → Bytes → Type 0
Nearest d n path root =
    (root ≡ [])
    ⊎ ((k : ℕ) × (k < n)
        × (root ≡ ancestor k path ++ common_icons)
        × (dir_exists d root ≡ true)
        × (length root < 1024)
        × Missing d k path)

further :
    (d : Disk) (n : ℕ) (path root : Bytes)
    → dir_exists d (path ++ common_icons) ≡ false
    → Nearest d n (path_parent path) root
    → Nearest d (suc n) path root
further d n path root e (inl h) = inl h
further d n path root e (inr (k, lt, same, is_dir, short, missing)) =
    inr (suc k, omega arith, same, is_dir, short, (e, missing))

at_path :
    (d : Disk) (n : ℕ) (path rest : Bytes)
    → Nearest d n (path_parent path) rest
    → Nearest d
        (suc n)
        path
        (at_level d (build_common_icons_path 1024 path) (path_parent path) rest)
unfolding build_common_icons_path
at_path d n path rest h = elim (Bool-cases (ltb 1024 (length path + length common_icons + 1))) [
  | inl e ↦ rw e (inl refl)
  | inr e ↦ rw e (elim (Bool-cases (dir_exists d (path ++ common_icons))) [
    | inl f ↦
        rw f (inr (0, omega arith, refl, f, ground (arith, length-append path common_icons), tt))
    | inr f ↦ rw f (elim (Bool-cases (is_empty (path_parent path))) [
      | inl g ↦ rw g (inl refl)
      | inr g ↦ rw g (further d n path rest f h)
    ])
  ])
]

walk_up-Nearest : (d : Disk) (n : ℕ) (path : Bytes) → Nearest d n path (walk_up d n path)
unfolding walk_up
walk_up-Nearest d zero path = inl refl
walk_up-Nearest d (suc n) path =
    at_path d n path (walk_up d n (path_parent path)) (walk_up-Nearest d n (path_parent path))

-- The directory with icons that is found above the executable is that of the nearest of eight
-- directories above it that has one; it exists, and fits a buffer of 1024 bytes. Or none is found.
pub exe_icons_root-Nearest :
    (d : Disk) (exe : Bytes)
    → 0 < length exe
    → Nearest d 8 (path_parent (fit 1024 exe)) (exe_icons_root d (some exe))
unfolding exe_icons_root
exe_icons_root-Nearest d [] pos = absurd (omega arith)
exe_icons_root-Nearest d (c ∷ exe) pos = walk_up-Nearest d 8 (path_parent (fit 1024 (c ∷ exe)))
