-- ===== src/Metrics/FindBucket.antt =====
-- The loop of BucketsForScrapeDuration stops at the first bucket above the timeout.
use my_learning_journey.Base.{
  ℕ, suc, ◌+◌, ◌≡◌, refl, inl, inr, true, false, Bool-cases, List, [], ◌∷◌, ◌++◌, length, All,
  arith, ap, ◌∙◌,
}
use my_learning_journey.Base.Int.{ltb_ℤ, ◌<ℤ◌, ◌≤ℤ◌}
use my_learning_journey.Float.Double.{Double}
use my_learning_journey.Metrics.{find_bucket}

find_bucket-true :
    (t : Double) (at i : ℕ) (bucket b : Double) (bs : List Double)
    → ltb_ℤ t b ≡ true
    → find_bucket t at i bucket (b ∷ bs) ≡ (at, b)
unfolding find_bucket
find_bucket-true t at i bucket b bs e = rw (e, find_bucket) refl

find_bucket-false :
    (t : Double) (at i : ℕ) (bucket b : Double) (bs : List Double)
    → ltb_ℤ t b ≡ false
    → find_bucket t at i bucket (b ∷ bs) ≡ find_bucket t (suc at) at b bs
unfolding find_bucket
find_bucket-false t at i bucket b bs e = rw (e, find_bucket) refl

-- Where the loop stops: at the first bucket above the timeout.
pub record Stop (t : Double) (at : ℕ) (bs : List Double) (found : ℕ × Double) : Type 0 where
  pub before : List Double
  pub bucket : Double
  pub rest : List Double
  pub split : bs ≡ before ++ bucket ∷ rest
  pub low : All (λ b. b ≤ℤ t) before
  pub high : t <ℤ bucket
  pub found_at : found ≡ (at + length before, bucket)

find_bucket-Stop_here :
    (t : Double) (at i : ℕ) (bucket b : Double) (bs : List Double)
    → ltb_ℤ t b ≡ true
    → Stop t at (b ∷ bs) (find_bucket t at i bucket (b ∷ bs))
find_bucket-Stop_here t at i bucket b bs e = record {
  before = [];
  bucket = b;
  rest = bs;
  split = refl;
  low = tt;
  high = ground arith;
  found_at = find_bucket-true t at i bucket b bs e ∙ ap (λ n. (n, b)) (omega arith);
}

pub find_bucket-Stop :
    (t : Double) (at i : ℕ) (bucket : Double) (bs : List Double) (max : Double)
    → t <ℤ max
    → Stop t at (bs ++ max ∷ []) (find_bucket t at i bucket (bs ++ max ∷ []))
find_bucket-Stop t at i bucket [] max h = find_bucket-Stop_here t at i bucket max [] (ground arith)
find_bucket-Stop t at i bucket (b ∷ bs) max h = elim (Bool-cases (ltb_ℤ t b)) [
  | inl e ↦ find_bucket-Stop_here t at i bucket b (bs ++ max ∷ []) e
  | inr e ↦
      let s = find_bucket-Stop t (suc at) at b bs max h in
      record {
        before = b ∷ s.before;
        bucket = s.bucket;
        rest = s.rest;
        split = ap (◌∷◌ b) s.split;
        low = (ground arith, s.low);
        high = s.high;
        found_at =
            find_bucket-false t at i bucket b (bs ++ max ∷ []) e
            ∙ s.found_at
            ∙ ap (λ n. (n, s.bucket)) (omega arith);
      }
]
