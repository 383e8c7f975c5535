-- ===== src/Launcher/Desktop/Entry.antt =====
-- Which desktop entries give a launcher, and what the launcher holds.
use nizam.Prelude.{◌<◌, ◌≡◌, ◌≢◌, refl, true, false, [], ◌∷◌, arith, Option, none, some, length}
use nizam.Text.{Bytes}
use nizam.Launcher.Exec.{sanitize_exec}
use nizam.Launcher.Exec.Clean.{Lacks, sanitize_exec_clean}
use nizam.Launcher.Category.{pick_category_mapped, is_allowed_category_bucket}
use nizam.Launcher.Category.Bucket.{pick_category_mapped-is_allowed}
use nizam.Launcher.Desktop.{
  Scan, Launcher, non_empty, or_empty, launcher_icon, non_empty_buffer, make_launcher,
  scan_launcher,
}

-- What the dock relies on in a launcher: a command that is not empty, fits its buffer and holds no
-- field code, an icon name that is not empty, and one of the eight categories.
pub record IsLaunchable (l : Launcher) : Type 0 where
  pub exec : Bytes
  pub cmd_is : l.cmd ≡ some exec
  pub runs : exec ≢ []
  pub fits : length exec < 1024
  pub no_codes : Lacks b'%' exec
  pub icon : Bytes
  pub icon_is : l.icon ≡ some icon
  pub shows : icon ≢ []
  pub bucket : Bytes
  pub category_is : l.category ≡ some bucket
  pub allowed : is_allowed_category_bucket bucket ≡ true

launcher_icon-ne-nil : (o : Option Bytes) → launcher_icon o ≢ []
unfolding launcher_icon
launcher_icon-ne-nil none = cc
launcher_icon-ne-nil (some []) = cc
launcher_icon-ne-nil (some (c ∷ s)) = cc

allowed-ne-nil : (b : Bytes) → is_allowed_category_bucket b ≡ true → non_empty_buffer b ≡ some b
unfolding is_allowed_category_bucket
allowed-ne-nil [] h = absurd (ground arith)
allowed-ne-nil (c ∷ s) h = refl

pub make_launcher-IsLaunchable :
    (exec : Bytes) (icon : Option Bytes) (cat : Bytes) {l : Launcher}
    → Lacks b'%' exec
    → length exec < 1024
    → is_allowed_category_bucket cat ≡ true
    → make_launcher exec icon cat ≡ some l
    → IsLaunchable l
unfolding make_launcher
make_launcher-IsLaunchable [] icon cat lacks fits ok h = absurd (ground arith)
make_launcher-IsLaunchable (c ∷ exec) icon cat lacks fits ok h = record {
  exec = c ∷ exec;
  cmd_is = ground arith;
  runs = cc;
  fits = fits;
  no_codes = lacks;
  icon = launcher_icon icon;
  icon_is = ground arith;
  shows = launcher_icon-ne-nil icon;
  bucket = cat;
  category_is = ground (arith, allowed-ne-nil cat ok);
  allowed = ok;
}

-- A scanned entry gives a launcher only if it is managed and enabled, neither hidden nor marked
-- NoDisplay, and has a command; and the launcher can then be shown and run.
pub scan_launcher_accepts :
    (s : Scan) {l : Launcher}
    → scan_launcher s ≡ some l
    → (s.managed ≡ true)
      × (s.enabled ≡ true)
      × (s.hidden ≡ false)
      × (s.nodisplay ≡ false)
      × (non_empty s.exec ≡ true)
      × IsLaunchable l
unfolding scan_launcher
scan_launcher_accepts s h =
    let (lacks, fits, _, _) = sanitize_exec_clean (or_empty s.exec) 1024 (omega arith) in
    (
      ground arith,
      ground arith,
      ground arith,
      ground arith,
      ground arith,
      make_launcher-IsLaunchable (sanitize_exec (or_empty s.exec) 1024) s.icon
          (pick_category_mapped 64 (or_empty s.cats)) lacks fits
          (pick_category_mapped-is_allowed (or_empty s.cats)) (ground arith),
    )
