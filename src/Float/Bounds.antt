-- ===== src/Float/Bounds.antt =====
-- How far the rounded products are from the exact ones.
use native.Mathlib.Nat as Nat
use my_learning_journey.Base.{
  ℕ, zero, suc, ◌+◌, ◌*◌, ◌/◌, ◌%◌, ◌^◌, ◌≤◌, ◌<◌, ◌≡◌, refl, ◌⊎◌, inl, inr, true, false,
  Bool-cases, ltb, leb, arith, le→leb, ap,
}
use my_learning_journey.Base.Int.{pos, ◌≤ℤ◌}
use my_learning_journey.Golang.{max_int64}
use my_learning_journey.Float.{
  excess, nearer, round_to, float64, eleven_tenths, wiggle, max_tick_wait_of, nine_tenths, shorten,
  scrape_timeout_of,
}

pub two_pow : (k : ℕ) → (0 < 2 ^ k) × (2 ^ suc k ≡ 2 * 2 ^ k)
two_pow k = (Nat.one-le-pow k 2 (omega arith), Nat.pow-succ' 2 k)

excess-zero : (fuel n : ℕ) → ltb n (2 ^ 53) ≡ true → excess (suc fuel) n ≡ 0
unfolding excess
excess-zero fuel n e = rw (e, excess) refl

excess-suc : (fuel n : ℕ) → ltb n (2 ^ 53) ≡ false → excess (suc fuel) n ≡ suc (excess fuel (n / 2))
unfolding excess
excess-suc fuel n e = rw (e, excess) refl

-- Where `n` is rounded at all, the step of the rounding is at most `n / 2 ^ 52`.
pub excess-step : (fuel n : ℕ) → (excess fuel n ≡ 0) ⊎ (2 ^ excess fuel n * 2 ^ 52 ≤ n)
excess-step zero n = inl (unfold excess in refl)
excess-step (suc fuel) n = elim (Bool-cases (ltb n (2 ^ 53))) [
  | inl e ↦ inl (excess-zero fuel n e)
  | inr e ↦
      let big : 2 ^ 53 ≤ n = ground arith in
      rw (excess-suc fuel n e) (
        inr (elim (excess-step fuel (n / 2)) [
          | inl z ↦ rw z (omega arith)
          | inr z ↦ let (_, two) = two_pow (excess fuel (n / 2)) in rw two (omega arith)
        ]))
]

pub nearer-cases :
    (q r step : ℕ)
    → ((nearer q r step ≡ q) × (2 * r ≤ step)) ⊎ ((nearer q r step ≡ suc q) × (step ≤ 2 * r))
unfolding nearer
nearer-cases q r step = ground arith

-- The rounded number is at most half a step away.
round_to-nearest :
    (k n : ℕ) → (2 * round_to k n ≤ 2 * n + 2 ^ k) × (2 * n ≤ 2 * round_to k n + 2 ^ k)
unfolding round_to
round_to-nearest k n =
    let step = 2 ^ k in
    let whole : step * (n / step) + n % step ≡ n = Nat.div-add-mod n step in
    let next : step * suc (n / step) ≡ step * (n / step) + step = Nat.mul-suc step (n / step) in
    let less : n % step < step = Nat.mod-lt n (two_pow k).0 in
    elim (nearer-cases (n / step) (n % step) step) [
      | inl (e, h) ↦ rw e (omega arith, omega arith)
      | inr (e, h) ↦ rw (e, next) (omega arith, omega arith)
    ]

pub float64-near :
    (n : ℕ) → (2 ^ 52 * float64 n ≤ 2 ^ 52 * n + n) × (2 ^ 52 * n ≤ 2 ^ 52 * float64 n + n)
unfolding float64
float64-near n =
    let (above, below) = round_to-nearest (excess 75 n) n in
    elim (excess-step 75 n) [
      | inl z ↦ let one_step : 2 ^ excess 75 n ≡ 1 = ap (λ k. 2 ^ k) z in (omega arith, omega arith)
      | inr z ↦ (omega arith, omega arith)
    ]

pub float64-exact : (n : ℕ) → n < 2 ^ 53 → float64 n ≡ n
unfolding float64
float64-exact n h =
    let short : ltb n (2 ^ 53) ≡ true = ground arith in
    let step : 2 ^ excess 75 n ≡ 1 = ap (λ k. 2 ^ k) (excess-zero 74 n short) in
    let (above, below) = round_to-nearest (excess 75 n) n in omega arith

-- For a resolution of up to 104 days, which is 2 ^ 53 nanoseconds, the wait that the health check
-- allows is the resolution or more, and it is 1.1 times the resolution, but for 4 nanoseconds at
-- most in both directions.
pub max_tick_wait_of-bounds :
    (n : ℕ)
    → n < 2 ^ 53
    → (pos n ≤ℤ max_tick_wait_of (pos n))
      × (w : ℕ) × (max_tick_wait_of (pos n) ≡ pos w)
      × (10 * w ≤ 11 * n + 40)
      × (11 * n ≤ 10 * w + 40)
unfolding max_tick_wait_of wiggle
max_tick_wait_of-bounds n h =
    let exact = float64-exact n h in
    let (above, below) = float64-near (eleven_tenths * float64 n) in
    let low : n ≤ wiggle n = omega arith in
    let high : 10 * wiggle n ≤ 11 * n + 40 = omega arith in
    let fits : leb (wiggle n) max_int64 ≡ true = le→leb (wiggle n) max_int64 (omega arith) in
    let near : 11 * n ≤ 10 * wiggle n + 40 = omega arith in
    rw (fits, max_tick_wait_of) (omega arith, wiggle n, refl, high, near)

-- For a resolution of up to 104 days the timeout of a scrape is 0.9 times the resolution, but for 3
-- nanoseconds at most in both directions.
pub scrape_timeout_of-bounds :
    (n : ℕ)
    → n < 2 ^ 53
    → (t : ℕ) × (scrape_timeout_of (pos n) ≡ pos t) × (10 * t ≤ 9 * n + 30) × (9 * n ≤ 10 * t + 30)
unfolding scrape_timeout_of shorten
scrape_timeout_of-bounds n h =
    let exact = float64-exact n h in
    let (above, below) = float64-near (nine_tenths * float64 n) in
    let high : 10 * shorten n ≤ 9 * n + 30 = omega arith in
    let low : 9 * n ≤ 10 * shorten n + 30 = omega arith in (shorten n, refl, high, low)
