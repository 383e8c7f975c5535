-- ===== src/Dock/Screen.antt =====
-- The monitor of the dock, nizam-dock/src/xcb_app.c: `dock_pick_monitor_for_pointer`. What the X
-- server replies is a record; a reply that is missing is `none`, and XCB_NONE is 0.
pub mod Picked
pub mod Width
pub mod Rows
pub mod Place
pub mod Edge
use nizam.Prelude.{
  ℕ, ◌+◌, ◌-◌, Bool, true, false, ◌&&◌, ◌||◌, not, List, [], ◌∷◌, ◌==◌, if◌then◌else◌, Option, none,
  some,
}
use nizam.Prelude.Int.{ℤ, pos, ◌+ℤ◌, ltb_ℤ, leb_ℤ}
use nizam.Dock.State.{Rect}

-- The reply about an output, and that about its crtc.
pub record Output : Type 0 where
  pub out : ℕ
  pub info : Bool
  pub connected : Bool
  pub crtc : ℕ
  pub crtc_info : Option Rect

pub record Display : Type 0 where
  pub pointer : Option (ℤ × ℤ)
  pub primary : ℕ
  pub outputs : Option (List Output)
  pub screen_w : ℕ
  pub screen_h : ℕ

unfoldable pub point_in_rect : ℤ → ℤ → Rect → Bool
point_in_rect x y r = leb_ℤ r.x x && ltb_ℤ x (r.x +ℤ r.w) && leb_ℤ r.y y && ltb_ℤ y (r.y +ℤ r.h)

unfoldable pub default_monitor : Display → Rect
default_monitor d = record { x = pos 0; y = pos 0; w = pos d.screen_w; h = pos d.screen_h }

abbrev pub has_area : Rect → Bool
has_area r = ltb_ℤ (pos 0) r.w && ltb_ℤ (pos 0) r.h

abbrev pub non_empty_rect : Option Rect → Option Rect
non_empty_rect none = none
non_empty_rect (some r) = if has_area r then some r else none

-- The rectangle of a connected output, unless a reply is missing or the rectangle is empty.
unfoldable pub output_rect : Output → Option Rect
output_rect o =
    if not o.info || not o.connected || o.crtc == 0 then none else non_empty_rect o.crtc_info

-- `have_ptr && point_in_rect(..)`
abbrev pub under_pointer : Option (ℤ × ℤ) → Rect → Bool
under_pointer none r = false
under_pointer (some (px, py)) r = point_in_rect px py r

-- One turn of the loop: `primary_geom` is the primary output's rectangle, as far as it was met.
abbrev pub keep_primary : Bool → Rect → Option Rect → Option Rect
keep_primary is_primary r primary_geom = if is_primary then some r else primary_geom

-- The rectangle under the pointer, else the primary one, if there is one.
unfoldable pub pick_output : Display → Option Rect → List Output → Option Rect
unfolding output_rect point_in_rect
pick_output d primary_geom [] = primary_geom
pick_output d primary_geom (o ∷ outs) = elim (output_rect o) [
  | none ↦ pick_output d primary_geom outs
  | some r ↦
      let rest = pick_output d (keep_primary (o.out == d.primary) r primary_geom) outs in
      if under_pointer d.pointer r then some r else rest
]

abbrev pub picked_or : Rect → Option Rect → Rect
picked_or r none = r
picked_or r (some picked) = picked

abbrev pub pick_from : Display → Option (List Output) → Rect
pick_from d none = default_monitor d
pick_from d (some outs) = picked_or (default_monitor d) (pick_output d none outs)

unfoldable pub pick_monitor_for_pointer : Display → Rect
unfolding pick_output default_monitor
pick_monitor_for_pointer d = pick_from d d.outputs
