-- ===== src/Panel/Menu/Groups.antt =====
-- The groups of the menu hold every application once, in order, each under its category.
use nizam.Prelude.{
  ℕ, zero, suc, ◌+◌, ◌≡◌, ◌∙◌, sym, refl, ap, arith, List, [], ◌∷◌, ◌++◌, Option, none, some, take,
  drop, All, Bool-cases, inl, inr, append_assoc, append-nil,
}
use nizam.Text.{Bytes, str_eq}
use nizam.Text.Equal.{eq_of_str_eq}
use nizam.Panel.Menu.{
  AppEntry, CategoryGroup, is_new, bump, new_group, group_from, turned, build_categories,
  group_apps,
}

module _ {A : Type 0} where
  drop_next :
      (i : ℕ) (xs : List A) {x : A} {rest : List A} → drop i xs ≡ x ∷ rest → drop (suc i) xs ≡ rest
  drop_next zero [] h = absurd (ground arith)
  drop_next zero (y ∷ ys) h = ground arith
  drop_next (suc i) [] h = absurd (ground arith)
  drop_next (suc i) (y ∷ ys) h = drop_next i ys h

  take_next :
      (i : ℕ) (xs : List A) {x : A} {rest : List A}
      → drop i xs ≡ x ∷ rest
      → take (suc i) xs ≡ take i xs ++ (x ∷ [])
  take_next zero [] h = absurd (ground arith)
  take_next zero (y ∷ ys) h = ground arith
  take_next (suc i) [] h = absurd (ground arith)
  take_next (suc i) (y ∷ ys) h = ap (◌∷◌ y) (take_next i ys h)

  take_all : (i : ℕ) (xs : List A) → drop i xs ≡ [] → take i xs ≡ xs
  take_all zero [] h = refl
  take_all zero (y ∷ ys) h = absurd (ground arith)
  take_all (suc i) [] h = refl
  take_all (suc i) (y ∷ ys) h = ap (◌∷◌ y) (take_all i ys h)

  drop_at : (xs : List A) (m n : ℕ) → m ≡ n → drop m xs ≡ drop n xs
  drop_at xs m n e = ap (λ k. drop k xs) e

  drop_nil : (n : ℕ) → drop {A = A} n [] ≡ []
  drop_nil zero = refl
  drop_nil (suc n) = refl

  drop-drop : (a b : ℕ) (xs : List A) → drop b (drop a xs) ≡ drop (a + b) xs
  drop-drop zero b xs = drop_at xs b (zero + b) (omega arith)
  drop-drop (suc a) b [] = drop_nil b ∙ sym (drop_nil (suc a + b))
  drop-drop (suc a) b (y ∷ ys) =
      drop-drop a b ys ∙ drop_at (y ∷ ys) (suc (a + b)) (suc a + b) (omega arith)

  All-append_one : (P : A → Type 0) (xs : List A) (x : A) → All P xs → P x → All P (xs ++ (x ∷ []))
  All-append_one P [] x h p = (p, tt)
  All-append_one P (y ∷ ys) x h p = (h.0, All-append_one P ys x h.1 p)

-- All the applications of the groups, in the order of the groups.
unfoldable pub grouped : List AppEntry → List CategoryGroup → List AppEntry
grouped apps [] = []
grouped apps (g ∷ gs) = group_apps g apps ++ grouped apps gs

-- The same where the groups stand newest first.
grouped_back : List AppEntry → List CategoryGroup → List AppEntry
grouped_back apps [] = []
grouped_back apps (g ∷ gs) = grouped_back apps gs ++ group_apps g apps

-- The applications of a group are of its category, as far as its name holds it.
abbrev pub IsOfCategory : List AppEntry → CategoryGroup → Type 0
IsOfCategory apps g = All (λ a. take 63 a.category ≡ g.name) (group_apps g apps)

-- The newest group ends at index `i` and is named after the last category.
Ends : ℕ → Option Bytes → List CategoryGroup → Type 0
Ends i none cats = Unit
Ends i (some last) [] = ⊥
Ends i (some last) (g ∷ gs) = (g.start + g.count ≡ i) × (g.name ≡ take 63 last)

module _ (apps : List AppEntry) where
  new_group-apps :
      (i : ℕ) (a : AppEntry) (rest : List AppEntry)
      → drop i apps ≡ a ∷ rest
      → group_apps (new_group i a.category) apps ≡ a ∷ []
  unfolding group_apps new_group
  new_group-apps i a rest h = rw h refl

  bump-apps :
      (g : CategoryGroup) (i : ℕ) (a : AppEntry) (rest : List AppEntry)
      → g.start + g.count ≡ i
      → drop i apps ≡ a ∷ rest
      → group_apps (record g { count = suc g.count }) apps ≡ group_apps g apps ++ (a ∷ [])
  unfolding group_apps
  bump-apps g i a rest e h =
      take_next g.count (drop g.start apps) {x = a} {rest = rest}
        (drop-drop g.start g.count apps ∙ drop_at apps (g.start + g.count) i e ∙ h)

  -- What the loop keeps true at index `i`.
  record Grouped (i : ℕ) (last : Option Bytes) (cats : List CategoryGroup) : Type 0 where
    held : grouped_back apps cats ≡ take i apps
    named : All (IsOfCategory apps) cats
    ends : Ends i last cats

  fresh_Grouped :
      (i : ℕ) (last : Option Bytes) (cats : List CategoryGroup) (a : AppEntry)
      (rest : List AppEntry)
      → drop i apps ≡ a ∷ rest
      → Grouped i last cats
      → Grouped (suc i) (some a.category) (new_group i a.category ∷ cats)
  unfolding grouped_back Ends new_group
  fresh_Grouped i last cats a rest h g = record {
    held = rw (new_group-apps i a rest h, g.held) (sym (take_next i apps h));
    named = (rw (new_group-apps i a rest h) (refl, tt), g.named);
    ends = (omega arith, refl);
  }

  same_Grouped :
      (i : ℕ) (last : Bytes) (cats : List CategoryGroup) (a : AppEntry) (rest : List AppEntry)
      → drop i apps ≡ a ∷ rest
      → last ≡ a.category
      → Grouped i (some last) cats
      → Grouped (suc i) (some last) (bump cats)
  unfolding grouped_back Ends bump
  same_Grouped i last [] a rest h e g = absurd g.ends
  same_Grouped i last (c ∷ cats) a rest h e g = record {
    held = rw (bump-apps c i a rest g.ends.0 h) (
        sym (append_assoc (grouped_back apps cats) (group_apps c apps) (a ∷ []))
        ∙ rw g.held (sym (take_next i apps h)));
    named = (
      rw (bump-apps c i a rest g.ends.0 h) (
          All-append_one (λ t. take 63 t.category ≡ c.name) (group_apps c apps) a g.named.0
            (rw⁻¹ e (sym g.ends.1))),
      g.named.1,
    );
    ends = (omega (arith, g.ends.0), g.ends.1);
  }

  group_from-Grouped :
      (rest : List AppEntry) (i : ℕ) (last : Option Bytes) (cats : List CategoryGroup)
      → drop i apps ≡ rest
      → Grouped i last cats
      → (grouped_back apps (group_from i last cats rest) ≡ apps)
        × All (IsOfCategory apps) (group_from i last cats rest)
  unfolding group_from is_new
  group_from-Grouped [] i last cats h g = (g.held ∙ take_all i apps h, g.named)
  group_from-Grouped (a ∷ rest) i none cats h g =
      group_from-Grouped rest (suc i) (some a.category) (new_group i a.category ∷ cats)
        (drop_next i apps h) (fresh_Grouped i none cats a rest h g)
  group_from-Grouped (a ∷ rest) i (some last) cats h g =
      elim (Bool-cases (str_eq last a.category)) [
        | inl e ↦ rw e (
            group_from-Grouped rest (suc i) (some last) (bump cats) (drop_next i apps h)
              (same_Grouped i last cats a rest h (eq_of_str_eq last a.category e) g))
        | inr e ↦ rw e (
            group_from-Grouped rest (suc i) (some a.category) (new_group i a.category ∷ cats)
              (drop_next i apps h) (fresh_Grouped i (some last) cats a rest h g))
      ]

  grouped-append_one :
      (gs : List CategoryGroup) (g : CategoryGroup)
      → grouped apps (gs ++ (g ∷ [])) ≡ grouped apps gs ++ group_apps g apps
  unfolding grouped
  grouped-append_one [] g = append-nil (group_apps g apps)
  grouped-append_one (c ∷ cs) g =
      ap (◌++◌ (group_apps c apps)) (grouped-append_one cs g)
      ∙ sym (append_assoc (group_apps c apps) (grouped apps cs) (group_apps g apps))

  grouped-turned : (gs : List CategoryGroup) → grouped apps (turned gs) ≡ grouped_back apps gs
  unfolding turned grouped grouped_back
  grouped-turned [] = refl
  grouped-turned (g ∷ gs) =
      grouped-append_one (turned gs) g ∙ ap (λ t. t ++ group_apps g apps) (grouped-turned gs)

  All-turned :
      (gs : List CategoryGroup) → All (IsOfCategory apps) gs → All (IsOfCategory apps) (turned gs)
  unfolding turned
  All-turned [] h = tt
  All-turned (g ∷ gs) h = All-append_one (IsOfCategory apps) (turned gs) g (All-turned gs h.1) h.0

-- The categories of the menu hold every application exactly once, in the order that the sort gives,
-- and each application in a category has that category, as far as the 63 bytes of its name tell.
pub build_categories_cover :
    (qsort : List AppEntry → List AppEntry) (apps : List AppEntry)
    → (grouped (qsort apps) (build_categories qsort apps).1 ≡ qsort apps)
      × All (IsOfCategory (qsort apps)) (build_categories qsort apps).1
unfolding build_categories grouped_back Ends
build_categories_cover qsort apps =
    let cats = group_from 0 none [] (qsort apps) in
    let (held, named) =
      group_from-Grouped (qsort apps) (qsort apps) 0 none [] refl
        (record { held = refl; named = tt; ends = tt }) in
    (grouped-turned (qsort apps) cats ∙ held, All-turned (qsort apps) cats named)
