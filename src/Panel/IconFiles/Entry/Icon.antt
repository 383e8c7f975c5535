-- ===== src/Panel/IconFiles/Entry/Icon.antt =====
-- The icon that a .desktop file names, nizam-panel/src/main.c, fits the buffer it is written to.
use nizam.Prelude.{
  ℕ, ◌-◌, ◌<◌, Bool, true, false, List, [], ◌∷◌, ◌++◌, arith, ◌==◌, Option, none, some, length,
  length-take, take, drop, Bool-cases, Option-cases, inl, inr,
}
use nizam.Text.{Bytes, codes, str_eq, skip_while, cut_right, fgets_all, fit}
use nizam.Panel.IconFiles.{Disk}
use nizam.Panel.IconFiles.Entry.{
  is_tab, is_end, icon_value, entry_line, scan_icon, read_desktop_icon, entry_file, in_user_dir,
  or_icon, icon_of_names, class_names, find_desktop_icon_for_class,
}

-- The icon fits a buffer of `n` bytes.
abbrev pub Fits : ℕ → Option Bytes → Type 0
Fits n none = Unit
Fits n (some icon) = length icon < n

fit-Fits : (n : ℕ) (s : Bytes) → 0 < n → length (fit n s) < n
fit-Fits n s h = omega (arith, length-take (n - 1) s)

module _ (n : ℕ) (room : 0 < n) where
  entry_line-Fits :
      (line : Bytes) (rest : Option Bytes) → Fits n rest → Fits n (entry_line n line rest)
  unfolding icon_value
  entry_line-Fits line rest h = elim (Bool-cases (str_eq (take 5 line) (codes "Icon="))) [
    | inl e ↦ rw e (fit-Fits n (cut_right is_end (skip_while is_tab (drop 5 line))) room)
    | inr e ↦ rw e h
  ]

  scan_icon-Fits : (in_entry : Bool) (lines : List Bytes) → Fits n (scan_icon n in_entry lines)
  unfolding scan_icon
  scan_icon-Fits in_entry [] = tt
  scan_icon-Fits in_entry ([] ∷ lines) = scan_icon-Fits in_entry lines
  scan_icon-Fits in_entry ((c ∷ line) ∷ lines) = elim (Bool-cases (c == b'[')) [
    | inl e ↦
        rw (e, scan_icon)
          (scan_icon-Fits (str_eq (take 15 (c ∷ line)) (codes "[Desktop Entry]")) lines)
    | inr e ↦
        rw (e, scan_icon)
          (elim (Bool-cases in_entry) [
            | inl f ↦
                rw f
                  (entry_line-Fits (c ∷ line) (scan_icon n true lines) (scan_icon-Fits true lines))
            | inr f ↦ rw f (scan_icon-Fits false lines)
          ])
  ]

  read_desktop_icon-Fits : (d : Disk) (path : Bytes) → Fits n (read_desktop_icon d path n)
  unfolding read_desktop_icon
  read_desktop_icon-Fits d path = elim (Option-cases (d.read_file path)) [
    | inl e ↦ rw e tt
    | inr (text, e) ↦ rw e (scan_icon-Fits false (fgets_all 512 text))
  ]

  or_icon-Fits : (a b : Option Bytes) → Fits n a → Fits n b → Fits n (or_icon a b)
  or_icon-Fits none b h k = k
  or_icon-Fits (some a) b h k = h

  in_user_dir-Fits :
      (d : Disk) (home : Option Bytes) (name : Bytes) → Fits n (in_user_dir d home name n)
  in_user_dir-Fits d none name = tt
  in_user_dir-Fits d (some home) name =
      read_desktop_icon-Fits d (entry_file (home ++ codes "/.local/share/applications/") name)

  icon_of_names-Fits : (d : Disk) (names : List Bytes) → Fits n (icon_of_names d n names)
  unfolding icon_of_names
  icon_of_names-Fits d [] = tt
  icon_of_names-Fits d (name ∷ names) =
      let path = entry_file (codes "/usr/share/applications/") name in
      let own = in_user_dir d d.home name n in
      let system = read_desktop_icon d path n in
      or_icon-Fits own (or_icon system (icon_of_names d n names)) (in_user_dir-Fits d d.home name) (
        or_icon-Fits system (icon_of_names d n names) (read_desktop_icon-Fits d path)
          (icon_of_names-Fits d names))

-- The icon that is found for the class of a window leaves room for the closing NUL in its buffer.
pub find_desktop_icon_for_class-Fits :
    (d : Disk) (instance_name class_name : Bytes) (out_len : ℕ)
    → 0 < out_len
    → Fits out_len (find_desktop_icon_for_class d instance_name class_name out_len)
unfolding find_desktop_icon_for_class
find_desktop_icon_for_class-Fits d instance_name class_name out_len h =
    icon_of_names-Fits out_len h d (class_names instance_name class_name)
