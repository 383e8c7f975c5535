-- ===== src/Dock/Surfaces/Counts.antt =====
-- The surfaces that the icon cache of the dock was given, nizam-dock/src/icon_surface_cache.c: each
-- is in an entry of the cache or was destroyed.
use nizam.Prelude.{
  ℕ, ◌+◌, ◌≡◌, refl, ap, true, List, [], ◌∷◌, arith, ◌==◌, if◌then◌else◌, Option, none, some,
  Bool-cases, inl, inr, ==_iff,
}
use nizam.Prelude.Members.{elem, remove, Distinct, remove_absent}
use nizam.Dock.Surfaces.{IconEntry, SurfaceCache, destroy_call}
use nizam.Dock.Surfaces.Lru.{Cached}
use nizam.Dock.Surfaces.Valid.{view}

abbrev pub shows : ℕ → Option ℕ → ℕ
shows s none = 0
shows s (some t) = if t == s then 1 else 0

-- How often a surface is in a list.
abbrev pub times : ℕ → List ℕ → ℕ
times s [] = 0
times s (t ∷ l) = shows s (some t) + times s l

-- How often a surface is in the icons of the cache.
abbrev pub times_shown : ℕ → List Cached → ℕ
times_shown s [] = 0
times_shown s (x ∷ l) = shows s x.surface + times_shown s l

-- Every surface was loaded as often as it is in an entry of the list or was destroyed.
abbrev pub IsAccounted : {T : Type 0} → SurfaceCache T → List ℕ → Type 0
IsAccounted c order =
    (s : ℕ) → times s c.loaded ≡ times_shown s (view c.heap order) + times s c.destroyed

pub times-destroy :
    (s : ℕ) (l : List ℕ) (o : Option ℕ) → times s (destroy_call l o) ≡ shows s o + times s l
times-destroy s l none = omega arith
times-destroy s l (some t) = refl

pub times_shown-remove :
    (s : ℕ) (h : ℕ → IconEntry) (k : ℕ) (l : List ℕ)
    → Distinct l
    → elem k l ≡ true
    → times_shown s (view h l) ≡ shows s (h k).surface + times_shown s (view h (remove k l))
unfolding view
times_shown-remove s h k [] d m = absurd (ground arith)
times_shown-remove s h k (i ∷ l) d m = elim (Bool-cases (i == k)) [
  | inl e ↦
      let same = (==_iff i k).0 e in
      let gone : remove k l ≡ l = remove_absent k l (rw same at d.0) in
      rw (e, gone) (ap (λ t. shows s (h t).surface + times_shown s (view h l)) same)
  | inr e ↦ rw e (omega (arith, times_shown-remove s h k l d.1 (rw e at m)))
]

-- The surfaces of the entries, destroyed one behind the other.
abbrev pub destroy_all : (ℕ → IconEntry) → List ℕ → List ℕ → List ℕ
destroy_all h [] l = l
destroy_all h (p ∷ order) l = destroy_all h order (destroy_call l (h p).surface)

pub times-destroy_all :
    (s : ℕ) (h : ℕ → IconEntry) (order l : List ℕ)
    → times s (destroy_all h order l) ≡ times_shown s (view h order) + times s l
unfolding view
times-destroy_all s h [] l = omega arith
times-destroy_all s h (p ∷ order) l = omega (
  arith,
  times-destroy_all s h order (destroy_call l (h p).surface),
  times-destroy s l (h p).surface,
)
