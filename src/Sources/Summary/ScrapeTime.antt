-- ===== src/Sources/Summary/ScrapeTime.antt =====
-- getScrapeTime, on the times that the stats report.
use my_learning_journey.Base.{
  ◌≡◌, refl, ◌⊎◌, Option, none, some, Result, ok, err, arith, List, [], ◌∷◌, filter, not,
}
use my_learning_journey.Base.Int.{◌≤ℤ◌}
use my_learning_journey.Golang.{Time, is_zero}
use my_learning_journey.Errors.{Error}
use my_learning_journey.Sources.Stats.{CpuStats, MemoryStats}
use my_learning_journey.Sources.Summary.{get_scrape_time}

-- The times that CPU and memory stats report, those that are not set left out.
abbrev pub set_time : Option Time → List Time
set_time none = []
set_time (some t) = filter (λ t. not (is_zero t)) (t ∷ [])

abbrev pub reported_times : Option CpuStats → Option MemoryStats → List Time
reported_times none none = []
reported_times none (some m) = set_time (some m.time)
reported_times (some c) none = set_time (some c.time)
reported_times (some c) (some m) = filter (λ t. not (is_zero t)) (c.time ∷ m.time ∷ [])

-- The result is the least of the times, and an error exactly when there is none.
abbrev pub IsLeast : List Time → Result Error Time → Type 0
IsLeast [] r = r ≡ err Error.no_timestamp
IsLeast (t ∷ []) r = r ≡ ok t
IsLeast (t ∷ u ∷ _) r = ((r ≡ ok t) × (t ≤ℤ u)) ⊎ ((r ≡ ok u) × (u ≤ℤ t))

-- The scrape time is the least of the non-zero times that the CPU and the memory stats report; with
-- no such time it is an error.
pub get_scrape_time-IsLeast :
    (cpu : Option CpuStats) (memory : Option MemoryStats)
    → IsLeast (reported_times cpu memory) (get_scrape_time cpu memory)
unfolding get_scrape_time
get_scrape_time-IsLeast none none = refl
get_scrape_time-IsLeast none (some m) = ground arith
get_scrape_time-IsLeast (some c) none = ground arith
get_scrape_time-IsLeast (some c) (some m) = ground arith
