-- ===== src/Panel/IconFiles/First.antt =====
-- Loops that return the first icon, one after the other and one inside the other.
use mathlib.Core.List.{flat_map}
use nizam.Prelude.{◌≡◌, ◌∙◌, refl, sym, ap, ℕ, List, [], ◌∷◌, ◌++◌, map, All, Option, none, some}
use nizam.Panel.IconFiles.{or_next, first_icon}

or_next_assoc : (a b c : Option ℕ) → or_next (or_next a b) c ≡ or_next a (or_next b c)
or_next_assoc none b c = refl
or_next_assoc (some a) b c = refl

pub or_next-none : (a : Option ℕ) → or_next a none ≡ a
or_next-none none = refl
or_next-none (some a) = refl

module _ {A : Type 0} where
  pub first_icon-append :
      (f : A → Option ℕ) (l m : List A)
      → first_icon f (l ++ m) ≡ or_next (first_icon f l) (first_icon f m)
  unfolding first_icon
  first_icon-append f [] m = refl
  first_icon-append f (a ∷ l) m =
      ap (or_next (f a)) (first_icon-append f l m)
      ∙ sym (or_next_assoc (f a) (first_icon f l) (first_icon f m))

  pub first_icon_ext :
      (f g : A → Option ℕ) (l : List A) → All (λ a. f a ≡ g a) l → first_icon f l ≡ first_icon g l
  unfolding first_icon
  first_icon_ext f g [] h = refl
  first_icon_ext f g (a ∷ l) (e, h) = rw (e, first_icon_ext f g l h) refl

  pub each_of : (P Q : A → Type 0) (l : List A) → ((a : A) → P a → Q a) → All P l → All Q l
  each_of P Q [] h all = tt
  each_of P Q (a ∷ l) h (p, all) = (h a p, each_of P Q l h all)

  pub each : (P : A → Type 0) (l : List A) → ((a : A) → P a) → All P l
  each P [] h = tt
  each P (a ∷ l) h = (h a, each P l h)

module _ {A B : Type 0} where
  pub first_icon-map :
      (f : B → Option ℕ) (g : A → B) (l : List A)
      → first_icon f (map g l) ≡ first_icon (λ a. f (g a)) l
  unfolding first_icon
  first_icon-map f g [] = refl
  first_icon-map f g (a ∷ l) = ap (or_next (f (g a))) (first_icon-map f g l)

  pub first_icon-flat_map :
      (f : B → Option ℕ) (g : A → List B) (h : A → Option ℕ) (l : List A)
      → All (λ a. h a ≡ first_icon f (g a)) l
      → first_icon h l ≡ first_icon f (flat_map g l)
  unfolding first_icon flat_map
  first_icon-flat_map f g h [] e = refl
  first_icon-flat_map f g h (a ∷ l) (e, es) =
      rw (e, first_icon-flat_map f g h l es) (sym (first_icon-append f (g a) (flat_map g l)))

pub nested :
    {A B : Type 0} (f : B → Option ℕ) (g : A → List B) (h : A → Option ℕ) (l : List A)
    → ((a : A) → h a ≡ first_icon f (g a))
    → first_icon h l ≡ first_icon f (flat_map g l)
nested f g h l e = first_icon-flat_map f g h l (each (λ a. h a ≡ first_icon f (g a)) l e)
