-- ===== src/Sources/SourceManager/Delays.antt =====
-- sourceManager.Collect: the staggering of the goroutines.
use my_learning_journey.Base.{ℕ, ◌*◌, ◌<◌, ◌≤◌, ◌≡◌, ◌⊎◌, arith}
use my_learning_journey.Base.Int.{◌+ℤ◌, ◌-ℤ◌, int_laws}
use my_learning_journey.Golang.{Time, Duration, Context, with_timeout}
use my_learning_journey.Sources.SourceManager.{delay_ms, scrape_context}

-- Where there is a source, the bound given to `rand.Intn` is positive, so it does not panic. It is
-- 8 ms for each source, and 4000 ms from 500 sources on.
pub delay_ms_bounds :
    (sources : ℕ)
    → 0 < sources
    → (0 < delay_ms sources)
      × (delay_ms sources ≤ 4000)
      × (delay_ms sources ≤ 8 * sources)
      × ((delay_ms sources ≡ 8 * sources) ⊎ ((delay_ms sources ≡ 4000) × (500 < sources)))
unfolding delay_ms
delay_ms_bounds sources h = ground arith

deadline_sum :
    (now : Time) (timeout sleep : Duration) → (now +ℤ sleep) +ℤ (timeout -ℤ sleep) ≡ now +ℤ timeout
deadline_sum now timeout sleep = omega int_laws

-- However long a goroutine sleeps, its source gets the deadline of the whole scrape: the earlier of
-- the caller's and the start plus the scrape timeout.
pub scrape_context_lem :
    (base_ctx : Context) (scrape_timeout : Duration) (now : Time) (sleep : Duration)
    → scrape_context base_ctx scrape_timeout now sleep ≡ with_timeout base_ctx now scrape_timeout
unfolding scrape_context with_timeout
scrape_context_lem base_ctx scrape_timeout now sleep =
    ground (arith, deadline_sum now scrape_timeout sleep)
