-- ===== src/Tests/Buckets.antt =====
-- The buckets of a scrape timeout of 54 seconds, and of one within the default buckets.
use my_learning_journey.Base.{ℕ, ◌≡◌, refl, ◌*◌, List, [], ◌∷◌, returns, map, ◌++◌, arith}
use my_learning_journey.Base.Int.{pos, ◌<ℤ◌}
use my_learning_journey.Golang.{second, millisecond}
use my_learning_journey.Float.Double.{
  Double, one, nearest, seconds, add, sub, half, three_halves, twice,
}
use my_learning_journey.Metrics.{
  find_bucket, close_below, is_close, with_timeout_inside, with_timeout_beyond,
  buckets_for_scrape_duration,
}
use my_learning_journey.Metrics.Increasing.{Increasing}
use my_learning_journey.Metrics.Inside.{IsBucketsFor}
use my_learning_journey.Metrics.Buckets.{buckets_for_scrape_duration-IsBucketsFor}

-- A double of so many milliseconds.
abbrev pub ms : ℕ → Double
ms n = seconds (pos (n * millisecond))

-- The default buckets of the library.
abbrev pub init_buckets : List Double
init_buckets = map ms (5 ∷ 10 ∷ 25 ∷ 50 ∷ 100 ∷ 250 ∷ 500 ∷ 1000 ∷ 2500 ∷ 5000 ∷ [])

abbrev pub def_buckets : List Double
def_buckets = init_buckets ++ pos (10 * one) ∷ []

pub def_buckets-Increasing : Increasing def_buckets
unfolding seconds nearest
def_buckets-Increasing = (
  omega arith,
  (
    omega arith,
    (
      omega arith,
      (
        omega arith,
        (
          omega arith,
          (omega arith, (omega arith, (omega arith, (omega arith, (omega arith, tt))))),
        ),
      ),
    ),
  ),
)

pub first_bucket-positive : pos 0 <ℤ ms 5
unfolding seconds nearest
first_bucket-positive = omega arith

-- 54 seconds are above the default buckets.
minute_buckets :
    buckets_for_scrape_duration def_buckets (pos (54 * second))
    ≡ returns (def_buckets ++ ms 32000 ∷ ms 54000 ∷ ms 81000 ∷ ms 108000 ∷ [])
unfolding buckets_for_scrape_duration with_timeout_beyond seconds nearest add sub half three_halves
    twice
minute_buckets = refl

-- Three seconds stand between two buckets, and 2.502 seconds are close to one.
inner_buckets :
    buckets_for_scrape_duration def_buckets (pos (3 * second))
    ≡ returns (map ms (5 ∷ 10 ∷ 25 ∷ 50 ∷ 100 ∷ 250 ∷ 500 ∷ 1000 ∷ 2500 ∷ 3000 ∷ 5000 ∷ 10000 ∷ []))
unfolding buckets_for_scrape_duration with_timeout_inside find_bucket is_close close_below seconds
    nearest sub
inner_buckets = refl

close_buckets :
    buckets_for_scrape_duration def_buckets (pos (2502 * millisecond)) ≡ returns def_buckets
unfolding buckets_for_scrape_duration with_timeout_inside find_bucket is_close close_below seconds
    nearest sub
close_buckets = refl

buckets_for_scrape_duration-IsBucketsFor_example :
    (bs : List Double) × (buckets_for_scrape_duration def_buckets (pos (54 * second)) ≡ returns bs)
    × IsBucketsFor (ms 5) (ms 54000) def_buckets bs
buckets_for_scrape_duration-IsBucketsFor_example =
    buckets_for_scrape_duration-IsBucketsFor (ms 5) def_buckets init_buckets refl
      first_bucket-positive refl def_buckets-Increasing (pos (54 * second))
