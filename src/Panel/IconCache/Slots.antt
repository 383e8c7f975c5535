-- ===== src/Panel/IconCache/Slots.antt =====
-- The entries of the cache beside their links: what unlinking and linking leave alone, what the
-- search loops find, and how many indices a list can hold.
use nizam.Prelude.{
  ℕ, zero, suc, ◌+◌, ◌≤◌, ◌<◌, ◌≡◌, refl, Bool, true, false, List, [], ◌∷◌, arith, ◌==◌, none, some,
  length, Bool-cases, inl, inr,
}
use nizam.Panel.IconCache.{IconCache, icon_cache_unlink, icon_cache_link_head, icon_cache_touch}
use nizam.Panel.IconCache.Search.{find_from}
use nizam.Prelude.Members.{elem, remove, Distinct, elem-remove, Distinct-remove, length-remove}
use nizam.Panel.IconCache.Lru.{item}

module _ (c : IconCache) (k i : ℕ) where
  pub item-unlink : item ((icon_cache_unlink c k).entries i) ≡ item (c.entries i)
  unfolding icon_cache_unlink
  item-unlink = ground arith

  pub in_use-unlink : ((icon_cache_unlink c k).entries i).in_use ≡ (c.entries i).in_use
  unfolding icon_cache_unlink
  in_use-unlink = ground arith

  pub item-link : item ((icon_cache_link_head c k).entries i) ≡ item (c.entries i)
  unfolding icon_cache_link_head
  item-link = ground arith

  pub in_use-link : ((icon_cache_link_head c k).entries i).in_use ≡ (c.entries i).in_use
  unfolding icon_cache_link_head
  in_use-link = ground arith

  pub item-touch : item ((icon_cache_touch c k).entries i) ≡ item (c.entries i)
  unfolding icon_cache_touch icon_cache_unlink icon_cache_link_head
  item-touch = ground arith

  pub in_use-touch : ((icon_cache_touch c k).entries i).in_use ≡ (c.entries i).in_use
  unfolding icon_cache_touch icon_cache_unlink icon_cache_link_head
  in_use-touch = ground arith

pub used-unlink : (c : IconCache) (k : ℕ) → (icon_cache_unlink c k).used ≡ c.used
unfolding icon_cache_unlink
used-unlink c k = refl

pub used-touch : (c : IconCache) (k : ℕ) → (icon_cache_touch c k).used ≡ c.used
unfolding icon_cache_touch icon_cache_unlink icon_cache_link_head
used-touch c k = ground arith

module _ (test : ℕ → Bool) where
  pub find_from-some :
      (rounds i : ℕ) {j : ℕ} → find_from test rounds i ≡ some j → (test j ≡ true) × (j < i + rounds)
  unfolding find_from
  find_from-some zero i h = absurd (ground arith)
  find_from-some (suc rounds) i {j} h = elim (Bool-cases (test i)) [
    | inl e ↦ ground arith
    | inr e ↦ let (t, b) = find_from-some rounds (suc i) {j = j} (ground arith) in (t, omega arith)
  ]

  pub find_from-none :
      (rounds i j : ℕ) → find_from test rounds i ≡ none → i ≤ j → j < i + rounds → test j ≡ false
  unfolding find_from
  find_from-none zero i j h l b = absurd (omega arith)
  find_from-none (suc rounds) i j h l b = elim (Bool-cases (test i)) [
    | inl e ↦ absurd (ground arith)
    | inr e ↦ elim (Bool-cases (i == j)) [
      | inl f ↦ ground arith
      | inr f ↦ find_from-none rounds (suc i) j (ground arith) (ground arith) (omega arith)
    ]
  ]

-- A list of different numbers below `n` has at most `n` items.
pub length-le_of_range :
    (n : ℕ) (l : List ℕ) → Distinct l → ((i : ℕ) → elem i l ≡ true → i < n) → length l ≤ n
length-le_of_range zero [] d r = omega arith
length-le_of_range zero (i ∷ l) d r = absurd (grind (arith, r i))
length-le_of_range (suc n) l d r = elim (Bool-cases (elem n l)) [
  | inl e ↦ omega (
    arith,
    length-remove n l d e,
    length-le_of_range n (remove n l) (Distinct-remove n l d)
        (λ i h. ground (arith, elem-remove n i l, r i)),
  )
  | inr e ↦ omega (arith, length-le_of_range n l d (λ i h. ground (arith, r i)))
]

-- A list that holds every number below `n` has at least `n` items.
pub le-length_of_all :
    (n : ℕ) (l : List ℕ) → Distinct l → ((i : ℕ) → i < n → elem i l ≡ true) → n ≤ length l
le-length_of_all zero l d r = omega arith
le-length_of_all (suc n) l d r = omega (
  arith,
  length-remove n l d (r n (omega arith)),
  le-length_of_all n (remove n l) (Distinct-remove n l d)
      (λ i h. ground (arith, elem-remove n i l, r i)),
)
