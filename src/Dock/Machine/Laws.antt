-- ===== src/Dock/Machine/Laws.antt =====
-- What holds of the machine, by induction on its moves.
use nizam.Prelude.{ℕ, ◌+◌, ◌≤◌, ◌<◌, ◌≡◌, refl, false, arith, ◌⊎◌, inl, inr}
use nizam.Dock.State.{World}
use nizam.Dock.Machine.{
  View, IsSettled, Move, cancel, start, show, open_menu, close_menu, suppress, Moves, stay, next,
}

-- A pending hide is of a dock that is shown, and is due within 30 seconds.
abbrev pub IsTimed : ℕ → View → Type 0
IsTimed now s =
    (s.hide_pending ≡ false)
    ⊎ ((s.is_hidden ≡ false) × (0 < s.hide_deadline_ms) × (s.hide_deadline_ms ≤ now + 30000))

move-IsTimed : {wd : World} {s t : View} → Move wd s t → IsTimed wd.now_ms s → IsTimed wd.now_ms t
move-IsTimed (cancel e) h = rw e (ground arith)
move-IsTimed (start a b c d e) h = rw e (ground arith)
move-IsTimed (show a b e) h = rw e (ground arith)
move-IsTimed (open_menu e) h = rw e (ground arith)
move-IsTimed (close_menu a e) h = rw e (ground arith)
move-IsTimed (suppress e) h = rw e (ground arith)

pub Moves-IsTimed :
    {wd : World} {s t : View} → Moves wd s t → IsTimed wd.now_ms s → IsTimed wd.now_ms t
Moves-IsTimed (stay e) h = rw e h
Moves-IsTimed (next ms m) h = move-IsTimed m (Moves-IsTimed ms h)

-- Whether the dock is shown stays, or it changes now, once 200 ms have passed since the last change.
abbrev pub IsSpaced : World → View → View → Type 0
IsSpaced wd s t =
    ((t.is_hidden ≡ s.is_hidden) × (t.last_toggle_ms ≡ s.last_toggle_ms))
    ⊎ ((t.last_toggle_ms ≡ wd.now_ms) × IsSettled wd s)

move-IsSpaced : (wd : World) (s t u : View) → IsSpaced wd s t → Move wd t u → IsSpaced wd s u
move-IsSpaced wd s t u h (cancel e) = rw e h
move-IsSpaced wd s t u h (start a b c d e) = rw e h
move-IsSpaced wd s t u (inl (p, q)) (show a b e) = rw e (inr (refl, rw q at b))
move-IsSpaced wd s t u (inr (p, q)) (show a b e) = rw e (inr (refl, q))
move-IsSpaced wd s t u h (open_menu e) = rw e h
move-IsSpaced wd s t u h (close_menu a e) = rw e h
move-IsSpaced wd s t u h (suppress e) = rw e h

pub Moves-IsSpaced : {wd : World} {s t : View} → Moves wd s t → IsSpaced wd s t
Moves-IsSpaced {s = s} (stay e) = rw e (inl (refl, refl))
Moves-IsSpaced {s = s} (next ms m) = move-IsSpaced _ s _ _ (Moves-IsSpaced ms) m

-- No event hides the dock.
move_shown : {wd : World} {s t : View} → Move wd s t → s.is_hidden ≡ false → t.is_hidden ≡ false
move_shown (cancel e) h = rw e h
move_shown (start a b c d e) h = rw e h
move_shown (show a b e) h = rw e refl
move_shown (open_menu e) h = rw e h
move_shown (close_menu a e) h = rw e h
move_shown (suppress e) h = rw e h

pub Moves-shown :
    {wd : World} {s t : View} → Moves wd s t → s.is_hidden ≡ false → t.is_hidden ≡ false
Moves-shown (stay e) h = rw e h
Moves-shown (next ms m) h = move_shown m (Moves-shown ms h)
