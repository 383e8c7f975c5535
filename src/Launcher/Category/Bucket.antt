-- ===== src/Launcher/Category/Bucket.antt =====
-- Which category a launcher is given, and that it is always one of the eight buckets.
use nizam.Prelude.{
  ℕ, suc, ◌-◌, ◌≡◌, ◌⊎◌, refl, true, List, [], ◌∷◌, arith, Option, none, some, length, take,
  Option-cases, inl, inr,
}
use nizam.Text.{Bytes, codes, case_eq}
use nizam.Launcher.Category.{
  is_one_of, map_category_token, is_allowed_category_bucket, pick_category_mapped,
}
use nizam.Launcher.Category.Pick.{
  fields, first_mapped, first_mapped-fields_nil, field_bucket, pick_loop-first_mapped,
}

abbrev pub or_default : Option Bytes → Bytes → Bytes
or_default none d = d
or_default (some b) d = b

-- The category picked from a list of categories is the bucket of the first of its fields, cut at
-- the semicolons and without their blanks, that the table knows, and "System" if there is none;
-- it is cut to the room in the buffer.
pub pick_category_mapped-first_mapped :
    (out_len : ℕ) (cats : Bytes)
    → pick_category_mapped out_len cats
      ≡ take (out_len - 1) (or_default (first_mapped (fields cats)) (codes "System"))
unfolding pick_category_mapped
pick_category_mapped-first_mapped out_len [] = rw first_mapped-fields_nil
pick_category_mapped-first_mapped out_len (c ∷ cats) =
    ground (arith, pick_loop-first_mapped (suc (length (c ∷ cats))) (c ∷ cats))

-- The table's right sides.
IsBucket : Bytes → Type 0
IsBucket b =
    (b ≡ codes "Development")
    ⊎ (b ≡ codes "Games")
    ⊎ (b ≡ codes "Graphics")
    ⊎ (b ≡ codes "Multimedia")
    ⊎ (b ≡ codes "Office")
    ⊎ (b ≡ codes "Utilities")
    ⊎ (b ≡ codes "System")
    ⊎ (b ≡ codes "Network")

map_category_token-IsBucket : (tok b : Bytes) → map_category_token tok ≡ some b → IsBucket b
unfolding map_category_token IsBucket
map_category_token-IsBucket [] b h = ground arith
map_category_token-IsBucket (c ∷ s) b h = ground arith

allowed_buckets : (b : Bytes) → IsBucket b → is_allowed_category_bucket (take 63 b) ≡ true
unfolding IsBucket is_allowed_category_bucket is_one_of case_eq
allowed_buckets b (inl e) = rw e
allowed_buckets b (inr (inl e)) = rw e
allowed_buckets b (inr (inr (inl e))) = rw e
allowed_buckets b (inr (inr (inr (inl e)))) = rw e
allowed_buckets b (inr (inr (inr (inr (inl e))))) = rw e
allowed_buckets b (inr (inr (inr (inr (inr (inl e)))))) = rw e
allowed_buckets b (inr (inr (inr (inr (inr (inr (inl e))))))) = rw e
allowed_buckets b (inr (inr (inr (inr (inr (inr (inr e))))))) = rw e

field_bucket-IsBucket : (f b : Bytes) → field_bucket f ≡ some b → IsBucket b
unfolding field_bucket
field_bucket-IsBucket f b h = map_category_token-IsBucket _ b h

System-IsBucket : IsBucket (codes "System")
unfolding IsBucket
System-IsBucket = inr (inr (inr (inr (inr (inr (inl refl))))))

first_mapped-IsBucket : (fs : List Bytes) (b : Bytes) → first_mapped fs ≡ some b → IsBucket b
unfolding first_mapped
first_mapped-IsBucket [] b h = absurd (ground arith)
first_mapped-IsBucket (f ∷ fs) b h = elim (Option-cases (field_bucket f)) [
  | inl e ↦ first_mapped-IsBucket fs b (ground arith)
  | inr (m, e) ↦ field_bucket-IsBucket f b (ground arith)
]

allowed_default :
    (r : Option Bytes)
    → ((b : Bytes) → r ≡ some b → IsBucket b)
    → is_allowed_category_bucket (take 63 (or_default r (codes "System"))) ≡ true
allowed_default none h = allowed_buckets (codes "System") System-IsBucket
allowed_default (some b) h = allowed_buckets b (h b refl)

-- Whatever a desktop entry lists, the category that is picked for it, in the buffer of 64 bytes
-- that both callers pass, is one of the eight buckets that the dock and the menu show.
pub pick_category_mapped-is_allowed :
    (cats : Bytes) → is_allowed_category_bucket (pick_category_mapped 64 cats) ≡ true
pick_category_mapped-is_allowed cats =
    rw (pick_category_mapped-first_mapped 64 cats)
      (allowed_default (first_mapped (fields cats)) (first_mapped-IsBucket (fields cats)))
