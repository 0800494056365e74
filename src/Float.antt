-- ===== src/Float.antt =====
-- The float64 arithmetic of pkg/manager/manager.go (`CheckHealth`) and
-- cmd/metrics-server/app/start.go (`Run`), on integers: products with the constants 1.1 and 0.90.
-- Float.Double has the rest.
pub mod Bounds
pub mod Double
pub mod Rounding
use my_learning_journey.Base.{
  true, false, ℕ, zero, suc, ◌+◌, ◌*◌, ◌/◌, ◌%◌, ◌^◌, ltb, leb, if◌then◌else◌,
}
use my_learning_journey.Base.Int.{pos, negsuc}
use my_learning_journey.Golang.{Duration, max_int64}

-- By how many bits `n` is longer than 53, the length of a significand; `fuel` bounds the answer.
unfoldable pub excess : (fuel : ℕ) → ℕ → ℕ
excess zero n = 0
excess (suc fuel) n = elim (ltb n (2 ^ 53)) [ true ↦ 0 | false ↦ suc (excess fuel (n / 2)) ]

-- Of `q` and `q + 1` the one nearer to `q + r / step`, a tie to the even one.
unfoldable pub nearer : (q r step : ℕ) → ℕ
nearer q r step = if ltb (2 * r) step then q else if ltb step (2 * r) then q + 1 else q + q % 2

-- `n` rounded to a multiple of 2 ^ k.
unfoldable pub round_to : (k n : ℕ) → ℕ
unfolding nearer
round_to k n = 2 ^ k * nearer (n / 2 ^ k) (n % 2 ^ k) (2 ^ k)

-- The float64 nearest to `n`, where `n < 2 ^ 128`.
unfoldable pub float64 : ℕ → ℕ
unfolding excess round_to
float64 n = round_to (excess 75 n) n

-- The float64 nearest to 1.1 is this over 2 ^ 52.
abbrev pub eleven_tenths : ℕ
eleven_tenths = 4953959590107546

-- The magnitude of `1.1 * float64(n)` without its fraction.
unfoldable pub wiggle : ℕ → ℕ
unfolding float64
wiggle n = float64 (eleven_tenths * float64 n) / 2 ^ 52

-- `time.Duration(1.1 * float64(d))`: out of the range of int64 the language leaves the result open,
-- and it is the least int64 on amd64.
unfoldable pub max_tick_wait_of : Duration → Duration
unfolding wiggle
max_tick_wait_of (pos n) = if leb (wiggle n) max_int64 then pos (wiggle n) else negsuc max_int64
max_tick_wait_of (negsuc n) = elim (wiggle (suc n)) [
  | zero ↦ pos 0
  | suc w ↦ if leb w max_int64 then negsuc w else negsuc max_int64
]

-- The float64 nearest to 0.90 is this over 2 ^ 53.
abbrev pub nine_tenths : ℕ
nine_tenths = 8106479329266893

-- The magnitude of `float64(n) * 0.90` without its fraction.
unfoldable pub shorten : ℕ → ℕ
unfolding float64
shorten n = float64 (nine_tenths * float64 n) / 2 ^ 53

-- `time.Duration(float64(d) * 0.90)`, which is always in the range of int64.
unfoldable pub scrape_timeout_of : Duration → Duration
unfolding shorten
scrape_timeout_of (pos n) = pos (shorten n)
scrape_timeout_of (negsuc n) = elim (shorten (suc n)) [ zero ↦ pos 0 | suc m ↦ negsuc m ]
