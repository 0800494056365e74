-- ===== src/Float/Rounding.antt =====
-- How far the operations of Float.Double are from the exact ones.
use native.Mathlib.Nat as Nat
use my_learning_journey.Base.{
  ℕ, zero, suc, ◌+◌, ◌-◌, ◌*◌, ◌/◌, ◌%◌, ◌^◌, ◌≤◌, ◌<◌, ◌≡◌, refl, ◌⊎◌, inl, inr, arith, ap, sym,
}
use my_learning_journey.Base.Int.{pos, negsuc, ◌+ℤ◌, ◌-ℤ◌, int_laws, eq_of_parts, ◌<ℤ◌}
use my_learning_journey.Golang.{Duration, second}
use my_learning_journey.Float.{nearer, float64}
use my_learning_journey.Float.Bounds.{
  two_pow, excess-step, nearer-cases, float64-near, float64-exact,
}
use my_learning_journey.Float.Double.{
  Double, one, neg, excess_of, nearest, rounded, seconds, add, sub, half, three_halves, twice,
}

-- The nearest multiple of a step is at most half a step away.
nearer-near :
    (num step : ℕ)
    → 0 < step
    → (2 * (step * nearer (num / step) (num % step) step) ≤ 2 * num + step)
      × (2 * num ≤ 2 * (step * nearer (num / step) (num % step) step) + step)
nearer-near num step h =
    let whole : step * (num / step) + num % step ≡ num = Nat.div-add-mod num step in
    let next : step * suc (num / step) ≡ step * (num / step) + step =
      Nat.mul-suc step (num / step) in
    let less : num % step < step = Nat.mod-lt num h in
    elim (nearer-cases (num / step) (num % step) step) [
      | inl (e, g) ↦ rw e (omega arith, omega arith)
      | inr (e, g) ↦ rw (e, next) (omega arith, omega arith)
    ]

-- The step of the rounding is a unit, or at most a part in 2 ^ 52 of the quotient.
scaled_near :
    (den num p m : ℕ)
    → (p ≡ 1) ⊎ (p * 2 ^ 52 ≤ num / den)
    → 2 * (den * p * m) ≤ 2 * num + den * p
    → 2 * num ≤ 2 * (den * p * m) + den * p
    → (2 ^ 53 * (den * (p * m)) ≤ 2 ^ 53 * num + num + 2 ^ 52 * den)
      × (2 ^ 53 * num ≤ 2 ^ 53 * (den * (p * m)) + num + 2 ^ 52 * den)
scaled_near den num p m small above below =
    let same : den * (p * m) ≡ den * p * m = sym (Nat.mul_assoc den p m) in
    rw same (elim small [
      | inl e ↦ let unit : den * p ≡ den = rw e (omega arith) in (omega arith, omega arith)
      | inr h ↦
          let whole : den * (num / den) ≤ num = Nat.mul-div-le num den in
          let scaled : den * (p * 2 ^ 52) ≤ den * (num / den) = Nat.mul-le-mul_left den h in
          let parts : den * (p * 2 ^ 52) ≡ den * p * 2 ^ 52 = sym (Nat.mul_assoc den p (2 ^ 52)) in
          (omega arith, omega arith)
    ])

-- The rounded quotient is off by half a unit, or by a part in 2 ^ 53.
pub nearest-near :
    (den num : ℕ)
    → 0 < den
    → (2 ^ 53 * (den * nearest den num) ≤ 2 ^ 53 * num + num + 2 ^ 52 * den)
      × (2 ^ 53 * num ≤ 2 ^ 53 * (den * nearest den num) + num + 2 ^ 52 * den)
unfolding nearest
nearest-near den num h =
    let k = excess_of (num / den) in
    let step = den * 2 ^ k in
    let some_step : 0 < step = Nat.mul-pos h (two_pow k).0 in
    let (above, below) = nearer-near num step some_step in
    let small : (2 ^ k ≡ 1) ⊎ (2 ^ k * 2 ^ 52 ≤ num / den) = elim (excess-step 2045 (num / den)) [
      | inl z ↦ inl (ap (λ k. 2 ^ k) z)
      | inr z ↦ inr z
    ] in
    scaled_near den num (2 ^ k) (nearer (num / step) (num % step) step) small above below

-- A little more than ten seconds leaves room between ten and the result: `u` is the units in 1.0.
over_ten :
    (u n f t : ℕ)
    → 2 ^ 60 ≤ u
    → 10 * second < n
    → 2 ^ 52 * n ≤ 2 ^ 52 * f + n
    → 2 ^ 53 * (f * u) ≤ 2 ^ 53 * (second * t) + f * u + 2 ^ 52 * second
    → 2 ^ 31 * (10 * u) + u ≤ 2 ^ 31 * t
over_ten u n f t big far near h =
    let float_scaled : (2 ^ 52 * n) * u ≤ (2 ^ 52 * f + n) * u = Nat.mul-le-mul_right u near in
    let far_scaled : (10 * second + 1) * u ≤ n * u = Nat.mul-le-mul_right u far in omega arith

under_ten :
    (u n t : ℕ)
    → 2 ^ 60 ≤ u
    → n < 10 * second
    → 2 ^ 53 * (second * t) ≤ 2 ^ 53 * (n * u) + n * u + 2 ^ 52 * second
    → t ≤ 10 * u
under_ten u n t big near h =
    let scaled : suc n * u ≤ (10 * second) * u = Nat.mul-le-mul_right u near in omega arith

-- The two buckets below and the two above a timeout of more than ten seconds.
spread :
    (u t d h m : ℕ)
    → 2 ^ 60 ≤ u
    → 2 ^ 31 * (10 * u) + u ≤ 2 ^ 31 * t
    → (2 ^ 53 * (1 * d) ≤ 2 ^ 53 * (t - 10 * u) + (t - 10 * u) + 2 ^ 52 * 1)
      × (2 ^ 53 * (t - 10 * u) ≤ 2 ^ 53 * (1 * d) + (t - 10 * u) + 2 ^ 52 * 1)
    → (2 ^ 53 * (2 * h) ≤ 2 ^ 53 * d + d + 2 ^ 52 * 2)
      × (2 ^ 53 * d ≤ 2 ^ 53 * (2 * h) + d + 2 ^ 52 * 2)
    → (2 ^ 53 * (1 * m) ≤ 2 ^ 53 * (10 * u + h) + (10 * u + h) + 2 ^ 52 * 1)
      × (2 ^ 53 * (10 * u + h) ≤ 2 ^ 53 * (1 * m) + (10 * u + h) + 2 ^ 52 * 1)
    → (10 * u < m) × (m < t)
spread u t d h m big gap (d1, d2) (h1, h2) (m1, m2) = (omega arith, omega arith)

large_one : 2 ^ 60 ≤ one
large_one = omega arith

ten : nearest second (10 * second * one) ≡ 10 * one
unfolding nearest
ten = refl

-- A duration of at most ten seconds is at most 10.0.
seconds-small : (n : ℕ) → n ≤ 10 * second → nearest second (float64 n * one) ≤ 10 * one
seconds-small n h = rw (float64-exact n (omega arith)) (
    let split : (n < 10 * second) ⊎ (n ≡ 10 * second) = omega arith in
    elim split [
      | inl less ↦
          under_ten one n (nearest second (n * one)) large_one less
            (nearest-near second (n * one) (omega arith)).0
      | inr e ↦ rw (e, ten) (omega arith)
    ])

neg-not-large : (m : ℕ) → pos (10 * one) <ℤ neg m → ⊥
neg-not-large zero h = omega arith
neg-not-large (suc m) h = omega arith

-- A double of more than 10.0 that is a duration is not just above it.
seconds-large :
    (d : Duration)
    → pos (10 * one) <ℤ seconds d
    → (t : ℕ) × (seconds d ≡ pos t) × (2 ^ 31 * (10 * one) + one ≤ 2 ^ 31 * t)
unfolding seconds
seconds-large (pos n) h =
    let split : (n ≤ 10 * second) ⊎ (10 * second < n) = omega arith in
    elim split [
      | inl small ↦ let low = seconds-small n small in absurd (omega arith)
      | inr far ↦
          let (_, near) = float64-near n in
          let (_, below) = nearest-near second (float64 n * one) (omega arith) in
          (
            nearest second (float64 n * one),
            refl,
            over_ten one n (float64 n) (nearest second (float64 n * one)) large_one far near below,
          )
    ]
seconds-large (negsuc n) h = absurd (neg-not-large (nearest second (float64 (suc n) * one)) h)

sub-pos : (a b : ℕ) → b ≤ a → sub (pos a) (pos b) ≡ pos (nearest 1 (a - b))
unfolding sub
sub-pos a b h =
    let e : pos a -ℤ pos b ≡ pos (a - b) =
      eq_of_parts (pos a -ℤ pos b) (pos (a - b)) (omega int_laws) in
    ap (λ x. rounded 1 x) e

add-pos : (a b : ℕ) → add (pos a) (pos b) ≡ pos (nearest 1 (a + b))
unfolding add
add-pos a b =
    let e : pos a +ℤ pos b ≡ pos (a + b) =
      eq_of_parts (pos a +ℤ pos b) (pos (a + b)) (omega int_laws) in
    ap (λ x. rounded 1 x) e

spread_pos :
    (u t : ℕ)
    → 2 ^ 60 ≤ u
    → 2 ^ 31 * (10 * u) + u ≤ 2 ^ 31 * t
    → (pos (10 * u) <ℤ add (pos (10 * u)) (half (sub (pos t) (pos (10 * u)))))
      × (add (pos (10 * u)) (half (sub (pos t) (pos (10 * u)))) <ℤ pos t)
      × (pos t <ℤ three_halves (pos t))
      × (three_halves (pos t) <ℤ twice (pos t))
unfolding half three_halves twice
spread_pos u t big gap =
    let d : ℕ = nearest 1 (t - 10 * u) in
    let h : ℕ = nearest 2 d in
    let (low, high) =
      spread u t d h (nearest 1 (10 * u + h)) big gap (nearest-near 1 (t - 10 * u) (omega arith))
        (nearest-near 2 d (omega arith)) (nearest-near 1 (10 * u + h) (omega arith)) in
    let (a1, a2) = nearest-near 2 (3 * t) (omega arith) in
    let (b1, b2) = nearest-near 1 (2 * t) (omega arith) in
    rw (sub-pos t (10 * u) (omega arith), add-pos (10 * u) h)
      (omega arith, omega arith, omega arith, omega arith)

-- The buckets between 10.0 and a duration above it, and those beyond the duration, are in order.
pub spread_doubles :
    (d : Duration)
    → pos (10 * one) <ℤ seconds d
    → (pos (10 * one) <ℤ add (pos (10 * one)) (half (sub (seconds d) (pos (10 * one)))))
      × (add (pos (10 * one)) (half (sub (seconds d) (pos (10 * one)))) <ℤ seconds d)
      × (seconds d <ℤ three_halves (seconds d))
      × (three_halves (seconds d) <ℤ twice (seconds d))
spread_doubles d over =
    let (t, e, gap) = seconds-large d over in rw e (spread_pos one t large_one gap)

-- Equal numbers differ by zero.
pub sub_self : (a : Double) → sub a a ≡ pos 0
unfolding sub nearest
sub_self a =
    let e : a -ℤ a ≡ pos 0 = eq_of_parts (a -ℤ a) (pos 0) (omega int_laws) in
    ap (λ x. rounded 1 x) e
