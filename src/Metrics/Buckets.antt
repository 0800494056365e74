-- ===== src/Metrics/Buckets.antt =====
-- BucketsForScrapeDuration: its buckets are in order, the default ones stay, and the timeout is
-- there.
use mathlib.Core.List.{
  append_assoc, mem-cons_self, mem-cons_of_mem, mem-append_left, mem-append_right,
}
use my_learning_journey.Base.{
  ◌*◌, ◌≡◌, refl, inl, inr, true, false, Bool-cases, List, [], ◌∷◌, ◌++◌, returns, some, get_elem?,
  get_elem?-append, length-snoc, arith, ◌∙◌, ◌>>=◌,
}
use my_learning_journey.Base.Int.{pos, eq_of_parts, ltb_ℤ, ◌<ℤ◌}
use my_learning_journey.Golang.{Duration}
use my_learning_journey.Float.Double.{Double, one, seconds}
use my_learning_journey.Float.Rounding.{spread_doubles}
use my_learning_journey.Metrics.{
  index, last_bucket, with_timeout_inside, with_timeout_beyond, buckets_for_scrape_duration,
}
use my_learning_journey.Metrics.Increasing.{Increasing, Increasing-join}
use my_learning_journey.Metrics.Inside.{IsBucketsFor, with_timeout_inside-IsBucketsFor}

last_bucket-snoc :
    (init : List Double) (max : Double) → last_bucket (init ++ max ∷ []) ≡ returns max
last_bucket-snoc [] max = refl
last_bucket-snoc (x ∷ xs) max =
    rw (length-snoc xs max) (rw (get_elem?-append xs max [], index) refl)

module _ (buckets : List Double) (max : Double) (d : Duration)
    (last : last_bucket buckets ≡ returns max) where
  beyond :
      ltb_ℤ max (seconds d) ≡ true
      → buckets_for_scrape_duration buckets d
        ≡ returns (with_timeout_beyond buckets (seconds d) max)
  unfolding buckets_for_scrape_duration
  beyond h = rw last (rw (h, ◌>>=◌) refl)

  inside :
      ltb_ℤ max (seconds d) ≡ false
      → ltb_ℤ (seconds d) max ≡ true
      → buckets_for_scrape_duration buckets d ≡ with_timeout_inside buckets (seconds d)
  unfolding buckets_for_scrape_duration
  inside h k = rw last (rw (h, k, ◌>>=◌) refl)

  equal :
      ltb_ℤ max (seconds d) ≡ false
      → ltb_ℤ (seconds d) max ≡ false
      → buckets_for_scrape_duration buckets d ≡ returns buckets
  unfolding buckets_for_scrape_duration
  equal h k = rw last (rw (h, k, ◌>>=◌) refl)

-- The branch of a timeout above ten seconds.
with_timeout_beyond-IsBucketsFor :
    (least : Double) (init : List Double) (d : Duration)
    → Increasing (init ++ pos (10 * one) ∷ [])
    → pos (10 * one) <ℤ seconds d
    → IsBucketsFor least
        (seconds d)
        (init ++ pos (10 * one) ∷ [])
        (with_timeout_beyond (init ++ pos (10 * one) ∷ []) (seconds d) (pos (10 * one)))
unfolding with_timeout_beyond
with_timeout_beyond-IsBucketsFor least init d sorted over =
    let (a, b, c, e) = spread_doubles d over in
    record {
      increasing =
          rw (append_assoc init (pos (10 * one) ∷ []) _)
            (Increasing-join init (pos (10 * one)) [] _ sorted (a, (b, (c, (e, tt)))));
      keeps = λ x m. mem-append_left _ m;
      has_timeout =
          inl (mem-append_right (init ++ pos (10 * one) ∷ []) (mem-cons_of_mem _ mem-cons_self));
    }

-- Where the default buckets are in order, from a positive least one to 10, the call returns for
-- every timeout: its buckets are in strictly increasing order, the default ones are among them, and
-- so is the timeout, unless there is a default bucket whose rounded difference from the timeout is
-- less than the least bucket.
pub buckets_for_scrape_duration-IsBucketsFor :
    (least : Double) (buckets init : List Double)
    → get_elem? buckets 0 ≡ some least
    → pos 0 <ℤ least
    → buckets ≡ init ++ pos (10 * one) ∷ []
    → Increasing buckets
    → (d : Duration)
    → (bs : List Double) × (buckets_for_scrape_duration buckets d ≡ returns bs)
      × IsBucketsFor least (seconds d) buckets bs
buckets_for_scrape_duration-IsBucketsFor least buckets init first positive e sorted d =
    let last : last_bucket buckets ≡ returns (pos (10 * one)) =
      rw e (last_bucket-snoc init (pos (10 * one))) in
    elim (Bool-cases (ltb_ℤ (pos (10 * one)) (seconds d))) [
      | inl over ↦ (
        with_timeout_beyond buckets (seconds d) (pos (10 * one)),
        beyond buckets (pos (10 * one)) d last over,
        rw e (with_timeout_beyond-IsBucketsFor least init d (rw e at sorted) (ground arith)),
      )
      | inr h ↦ elim (Bool-cases (ltb_ℤ (seconds d) (pos (10 * one)))) [
        | inl k ↦
            let (bs, made, good) =
              with_timeout_inside-IsBucketsFor (seconds d) least positive buckets init
                (pos (10 * one)) first e sorted (ground arith) in
            (bs, inside buckets (pos (10 * one)) d last h k ∙ made, good)
        | inr k ↦
            let same : seconds d ≡ pos (10 * one) =
              eq_of_parts (seconds d) (pos (10 * one)) (ground arith) in
            (
              buckets,
              equal buckets (pos (10 * one)) d last h k,
              record {
                increasing = sorted;
                keeps = λ x m. m;
                has_timeout = inl (rw (same, e) (mem-append_right init mem-cons_self));
              },
            )
      ]
    ]
