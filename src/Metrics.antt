-- ===== src/Metrics.antt =====
-- pkg/metrics/util.go: the buckets of the histograms of scrape durations; and their registration,
-- in pkg/manager/manager.go and pkg/sources/manager.go (`RegisterDurationMetrics`).
pub mod Histograms
pub mod Names
pub mod Increasing
pub mod FindBucket
pub mod Inside
pub mod Buckets
use my_learning_journey.Base.{
  ℕ, zero, suc, Bool, true, false, Option, none, some, List, [], ◌∷◌, ◌++◌, ◌-◌, Run, returns,
  panics, ◌>>=◌, ◌&&◌, ◌||◌, length, get_elem?, take, drop, ltb,
}
use my_learning_journey.Base.Int.{pos, ltb_ℤ}
use my_learning_journey.Golang.{Duration}
use my_learning_journey.Float.Double.{Double, seconds, add, half, three_halves, twice}
use my_learning_journey.Float.Double as Double

-- `bs[i]`, which panics out of range.
abbrev pub index : {A : Type 0} → List A → ℕ → Run A
index bs i = elim (get_elem? bs i) [ none ↦ panics | some b ↦ returns b ]

-- `buckets[len(buckets)-1]`
abbrev pub last_bucket : List Double → Run Double
last_bucket [] = panics
last_bucket (b ∷ bs) = index (b ∷ bs) (length bs)

-- The loop over the buckets from position `at`: the index and the bucket that the variables hold in
-- the end, where the iteration before left `i` and `bucket`.
unfoldable pub find_bucket :
    (timeout_seconds : Double) (at : ℕ) (i : ℕ) (bucket : Double) → List Double → ℕ × Double
find_bucket timeout_seconds at i bucket [] = (i, bucket)
find_bucket timeout_seconds at i bucket (b ∷ bs) = elim (ltb_ℤ timeout_seconds b) [
  | true ↦ (at, b)
  | false ↦ find_bucket timeout_seconds (suc at) at b bs
]

-- `i > 0 && timeoutSeconds-buckets[i-1] < buckets[0]`
unfoldable pub close_below : List Double → (timeout_seconds least : Double) → ℕ → Run Bool
close_below buckets timeout_seconds least zero = returns false
close_below buckets timeout_seconds least (suc i) =
    index buckets i >>= λ before. returns (ltb_ℤ (Double.sub timeout_seconds before) least)

-- The condition under which no bucket is added; `||` evaluates its right side only if the left is
-- false.
unfoldable pub is_close :
    List Double → (timeout_seconds : Double) → ℕ → (bucket : Double) → Run Bool
is_close buckets timeout_seconds i bucket = index buckets 0 >>= λ least.
    elim (ltb_ℤ (Double.sub bucket timeout_seconds) least) [
      | true ↦ returns true
      | false ↦ close_below buckets timeout_seconds least i
    ]

-- The branch of a timeout below the last bucket.
unfoldable pub with_timeout_inside : List Double → (timeout_seconds : Double) → Run (List Double)
with_timeout_inside buckets timeout_seconds =
    let (i, bucket) = find_bucket timeout_seconds 0 0 (pos 0) buckets in
    is_close buckets timeout_seconds i bucket >>= λ close. elim close [
      | true ↦ returns buckets
      | false ↦ returns ((take i buckets ++ timeout_seconds ∷ []) ++ drop i buckets)
    ]

-- The branch of a timeout above the last bucket.
unfoldable pub with_timeout_beyond :
    List Double → (timeout_seconds max_bucket : Double) → List Double
with_timeout_beyond buckets timeout_seconds max_bucket =
    let halfway_to_scrape_timeout = add max_bucket (half (Double.sub timeout_seconds max_bucket)) in
    buckets
    ++ halfway_to_scrape_timeout
      ∷ timeout_seconds
      ∷ three_halves timeout_seconds
      ∷ twice timeout_seconds
      ∷ []

-- `BucketsForScrapeDuration`, where `def_buckets` is `prometheus.DefBuckets`. The index of the last
-- bucket is -1 where there is none.
unfoldable pub buckets_for_scrape_duration :
    (def_buckets : List Double) → Duration → Run (List Double)
buckets_for_scrape_duration def_buckets scrape_timeout =
    let timeout_seconds = seconds scrape_timeout in
    last_bucket def_buckets >>= λ max_bucket. elim (ltb_ℤ max_bucket timeout_seconds) [
      | true ↦ returns (with_timeout_beyond def_buckets timeout_seconds max_bucket)
      | false ↦ elim (ltb_ℤ timeout_seconds max_bucket) [
        | true ↦ with_timeout_inside def_buckets timeout_seconds
        | false ↦ returns def_buckets
      ]
    ]
