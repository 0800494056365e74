-- ===== src/Float/Double.antt =====
-- The float64 arithmetic of pkg/metrics/util.go (`BucketsForScrapeDuration`): finite doubles as
-- integers, in units of 2 ^ -1074, the least positive one. Zero and negative zero compare as equal
-- in Go, and are one number here. Results beyond the largest double, which Go makes infinite, do
-- not arise.
use my_learning_journey.Base.{ℕ, zero, suc, ◌*◌, ◌/◌, ◌%◌, ◌^◌}
use my_learning_journey.Base.Int.{ℤ, pos, negsuc, ◌+ℤ◌, ◌-ℤ◌}
use my_learning_journey.Golang.{Duration, second}
use my_learning_journey.Float.{excess, nearer, float64}

abbrev pub Double : Type 0
Double = ℤ

-- The units in 1.0.
abbrev pub one : ℕ
one = 2 ^ 1074

-- The doubles of n / 2 ^ 1074 have up to 2098 bits, so 2045 halvings leave 53 of them.
abbrev pub excess_of : ℕ → ℕ
excess_of n = excess 2045 n

-- The double nearest to `num / den`.
unfoldable pub nearest : (den num : ℕ) → ℕ
unfolding nearer excess
nearest den num =
    let k = excess_of (num / den) in
    let step = den * 2 ^ k in 2 ^ k * nearer (num / step) (num % step) step

-- An integer by its sign and its magnitude.
abbrev pub neg : ℕ → ℤ
neg zero = pos 0
neg (suc n) = negsuc n

abbrev pub scale : ℕ → ℤ → ℤ
scale c (pos n) = pos (c * n)
scale c (negsuc n) = neg (c * suc n)

-- `x / den`, rounded.
abbrev pub rounded : (den : ℕ) → ℤ → Double
rounded den (pos n) = pos (nearest den n)
rounded den (negsuc n) = neg (nearest den (suc n))

-- `float64(d) / float64(time.Second)`
unfoldable pub seconds : Duration → Double
unfolding float64
seconds (pos n) = pos (nearest second (float64 n * one))
seconds (negsuc n) = neg (nearest second (float64 (suc n) * one))

-- `a + b`, `a - b`, `a / 2`, `a * 1.5` and `a * 2.0`.
unfoldable pub add : Double → Double → Double
unfolding ◌+ℤ◌
add a b = rounded 1 (a +ℤ b)

unfoldable pub sub : Double → Double → Double
unfolding ◌-ℤ◌
sub a b = rounded 1 (a -ℤ b)

unfoldable pub half : Double → Double
half a = rounded 2 a

unfoldable pub three_halves : Double → Double
three_halves a = rounded 2 (scale 3 a)

unfoldable pub twice : Double → Double
twice a = rounded 1 (scale 2 a)
