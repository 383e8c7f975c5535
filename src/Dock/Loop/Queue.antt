-- ===== src/Dock/Loop/Queue.antt =====
-- The order in which the queued events are handled.
use nizam.Prelude.{◌≡◌, refl, Option, none, some, List, [], ◌∷◌, ◌++◌, Option-cases, inl, inr}
use nizam.Dock.State.{App, World}
use nizam.Dock.Events.{Event, motion_notify, process_event}
use nizam.Dock.Loop.{Motion, as_motion, drain_motion, drain_events}

-- Events one after the other.
unfoldable pub run_events : World → App → List Event → App
run_events wd app [] = app
run_events wd app (ev ∷ es) = run_events wd (process_event wd app ev) es

unfoldable pub no_motion : List Event → List Event
no_motion [] = []
no_motion (ev ∷ es) = elim (as_motion ev) [ some m ↦ no_motion es | none ↦ ev ∷ no_motion es ]

abbrev pub or_last : Option Motion → Option Motion → Option Motion
or_last none o = o
or_last (some m) o = some m

unfoldable pub last_motion : List Event → Option Motion
last_motion [] = none
last_motion (ev ∷ es) = or_last (last_motion es) (as_motion ev)

abbrev pub motion_events : Option Motion → List Event
motion_events none = []
motion_events (some m) = motion_notify m.event m.x m.y ∷ []

or_last-none : (a : Option Motion) → or_last a none ≡ a
or_last-none none = refl
or_last-none (some m) = refl

or_last_assoc : (a b c : Option Motion) → or_last (or_last a b) c ≡ or_last a (or_last b c)
or_last_assoc none b c = refl
or_last_assoc (some m) b c = refl

drain_motion-run :
    (wd : World) (app : App) (m : Motion) (es : List Event)
    → drain_motion wd app m es
      ≡ run_events wd app (no_motion es ++ motion_events (or_last (last_motion es) (some m)))
unfolding drain_motion run_events no_motion last_motion
drain_motion-run wd app m [] = refl
drain_motion-run wd app m (ev ∷ es) = elim (Option-cases (as_motion ev)) [
  | inl e ↦
      rw (e, drain_motion, no_motion, or_last_assoc (last_motion es) none (some m))
        (drain_motion-run wd (process_event wd app ev) m es)
  | inr (m', e) ↦
      rw (e, drain_motion, no_motion, or_last_assoc (last_motion es) (some m') (some m))
        (drain_motion-run wd app m' es)
]

-- Of a queue, the events that are not of motion are handled in their order, and after them the last
-- event of motion alone.
pub drain_events-run :
    (wd : World) (app : App) (es : List Event)
    → drain_events wd app es ≡ run_events wd app (no_motion es ++ motion_events (last_motion es))
unfolding drain_events run_events no_motion last_motion
drain_events-run wd app [] = refl
drain_events-run wd app (ev ∷ es) = elim (Option-cases (as_motion ev)) [
  | inl e ↦
      rw (e, drain_events, no_motion, or_last-none (last_motion es))
        (drain_events-run wd (process_event wd app ev) es)
  | inr (m, e) ↦ rw (e, drain_events, no_motion) (drain_motion-run wd app m es)
]
