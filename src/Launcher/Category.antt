-- ===== src/Launcher/Category.antt =====
-- Categories, nizam-dock/src/config.c: the table of desktop categories, the first entry of a
-- list of categories that the table knows, and the eight buckets.
pub mod Pick
pub mod Bucket
use Prim.Native.String.{String}
use nizam.Prelude.{
  ℕ, zero, suc, ◌-◌, Bool, true, false, ◌||◌, ◌&&◌, not, List, [], ◌∷◌, ◌==◌, if◌then◌else◌, Option,
  none, some, length, take,
}
use nizam.Text.{Bytes, codes, case_eq, skip_while, cut_right}
use nizam.Launcher.Exec.{is_blank}

-- `!strcasecmp(tok, a) || !strcasecmp(tok, b) || …`
unfoldable pub is_one_of : Bytes → List String → Bool
unfolding case_eq
is_one_of tok [] = false
is_one_of tok (n ∷ names) = case_eq tok (codes n) || is_one_of tok names

unfoldable pub map_category_token : Bytes → Option Bytes
map_category_token [] = none
map_category_token (c ∷ s) =
    let tok = c ∷ s in
    if is_one_of tok (
      "Development" ∷ "IDE" ∷ "Programming" ∷ "Debugger" ∷ "Profiling" ∷ "RevisionControl"
      ∷ "Translation" ∷ [])
    then some (codes "Development")
    else if is_one_of tok ("Game" ∷ "Games" ∷ [])
    then some (codes "Games")
    else if is_one_of tok (
        "Graphics" ∷ "2DGraphics" ∷ "3DGraphics" ∷ "Photography" ∷ "RasterGraphics"
        ∷ "VectorGraphics" ∷ [])
    then some (codes "Graphics")
    else if is_one_of tok
        ("AudioVideo" ∷ "Audio" ∷ "Video" ∷ "Player" ∷ "Recorder" ∷ "Music" ∷ "TV" ∷ [])
    then some (codes "Multimedia")
    else if is_one_of tok (
        "Education" ∷ "Science" ∷ "Math" ∷ "Astronomy" ∷ "Biology" ∷ "Chemistry" ∷ "Physics"
        ∷ "Geography" ∷ "History" ∷ "Office" ∷ "WordProcessor" ∷ "Spreadsheet" ∷ "Presentation"
        ∷ [])
    then some (codes "Office")
    else if is_one_of tok ("Utility" ∷ "Utilities" ∷ "Accessories" ∷ [])
    then some (codes "Utilities")
    else if is_one_of tok
        ("System" ∷ "Settings" ∷ "Preferences" ∷ "Monitor" ∷ "Security" ∷ "PackageManager" ∷ [])
    then some (codes "System")
    else if is_one_of tok (
        "Network" ∷ "WebBrowser" ∷ "Email" ∷ "Chat" ∷ "IRCClient" ∷ "FileTransfer" ∷ "P2P"
        ∷ "InstantMessaging" ∷ "RemoteAccess" ∷ [])
    then some (codes "Network")
    else none

unfoldable pub is_allowed_category_bucket : Bytes → Bool
is_allowed_category_bucket [] = false
is_allowed_category_bucket (c ∷ s) = is_one_of (c ∷ s) (
    "Development" ∷ "Games" ∷ "Graphics" ∷ "Multimedia" ∷ "Office" ∷ "System" ∷ "Network"
    ∷ "Utilities" ∷ [])

-- ' ', '\t' and ';'
pub is_gap : ℕ → Bool
is_gap c = c == b' ' || c == 9 || c == b';'

pub not_semicolon : ℕ → Bool
not_semicolon c = not (c == b';')

-- The bytes up to the first that fails the test: `while (*p && *p != ';') p++`.
pub span_while : (ℕ → Bool) → Bytes → Bytes
span_while test [] = []
span_while test (c ∷ s) = if test c then c ∷ span_while test s else []

-- One token: its end moved back over blanks, at most 63 bytes.
pub token_of : Bytes → Bytes
unfolding cut_right is_blank
token_of field = take 63 (cut_right is_blank field)

-- `if (*p == ';') p++;`
pub skip_one : Bytes → Bytes
skip_one [] = []
skip_one (c ∷ s) = if c == b';' then s else c ∷ s

-- The loop of `pick_category_mapped`. `none` on the outside is the end of the fuel.
pub pick_loop : ℕ → Bytes → Option (Option Bytes)
unfolding is_gap not_semicolon span_while token_of skip_one map_category_token skip_while
pick_loop zero p = none
pick_loop (suc fuel) p = elim (skip_while is_gap p) [
  | [] ↦ some none
  | c ∷ s ↦ elim (map_category_token (token_of (span_while not_semicolon (c ∷ s)))) [
    | some mapped ↦ some (some mapped)
    | none ↦ pick_loop fuel (skip_one (skip_while not_semicolon (c ∷ s)))
  ]
]

-- `strncpy` into the zeroed buffer keeps `out_len - 1` bytes.
unfoldable pub pick_category_mapped : ℕ → Bytes → Bytes
unfolding pick_loop
pick_category_mapped out_len [] = take (out_len - 1) (codes "System")
pick_category_mapped out_len (c ∷ cats) = elim (pick_loop (suc (length (c ∷ cats))) (c ∷ cats)) [
  | some (some mapped) ↦ take (out_len - 1) mapped
  | _ ↦ take (out_len - 1) (codes "System")
]
