-- ===== src/Dock/Surfaces/Refine/Counters.antt =====
-- What the validity of the icon cache of the dock does not depend on: its counters, and what it was
-- given and destroyed.
use nizam.Prelude.{ℕ, ◌≡◌, ◌≢◌, false, List, Option, none, some, Bool-cases, inl, inr}
use nizam.Prelude.Members.{elem}
use nizam.Dock.Surfaces.{IconKey, HashTable}
use nizam.Dock.Surfaces.Get.{Cache}
use nizam.Dock.Surfaces.Valid.{IsValid}

-- `calloc` does not hand out the memory of an entry that the table still maps to.
abbrev pub IsFresh : (H : HashTable) → Option ℕ → H.Table → Type 0
IsFresh H none t = Unit
IsFresh H (some p) t = (k : IconKey) → H.lookup k t ≢ some p

module _ (H : HashTable) (c : Cache H) (order : List ℕ) (v : IsValid H c order) where
  -- The counters are no part of the validity.
  pub hits-IsValid : (n : ℕ) → IsValid H (record c { hits = n }) order
  hits-IsValid n = record {
    linked = v.linked;
    size_is = v.size_is;
    alive_is = v.alive_is;
    bounded = v.bounded;
    mapped = v.mapped;
    only = v.only;
    shown = v.shown;
  }

  pub misses-IsValid : (n : ℕ) → IsValid H (record c { misses = n }) order
  misses-IsValid n = record {
    linked = v.linked;
    size_is = v.size_is;
    alive_is = v.alive_is;
    bounded = v.bounded;
    mapped = v.mapped;
    only = v.only;
    shown = v.shown;
  }

  pub loaded-IsValid : (l : List ℕ) → IsValid H (record c { loaded = l }) order
  loaded-IsValid l = record {
    linked = v.linked;
    size_is = v.size_is;
    alive_is = v.alive_is;
    bounded = v.bounded;
    mapped = v.mapped;
    only = v.only;
    shown = v.shown;
  }

  pub destroyed-IsValid : (l : List ℕ) → IsValid H (record c { destroyed = l }) order
  destroyed-IsValid l = record {
    linked = v.linked;
    size_is = v.size_is;
    alive_is = v.alive_is;
    bounded = v.bounded;
    mapped = v.mapped;
    only = v.only;
    shown = v.shown;
  }

  pub fresh_absent : (p : ℕ) → IsFresh H (some p) c.table → elem p order ≡ false
  fresh_absent p f = elim (Bool-cases (elem p order)) [
    | inl e ↦ absurd (f (c.heap p).key (v.mapped p e))
    | inr e ↦ e
  ]
