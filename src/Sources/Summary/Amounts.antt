-- ===== src/Sources/Summary/Amounts.antt =====
-- uint64Quantity, decodeCPU and decodeMemory: what number a quantity is made of.
use my_learning_journey.Base.{
  ℕ, ◌+◌, ◌*◌, ◌^◌, ◌/◌, ◌<◌, ◌≤◌, ◌≡◌, refl, ◌⊎◌, inl, inr, Bool-cases, arith, leb,
}
use my_learning_journey.Base.Int.{ℤ, pos, ◌+ℤ◌}
use my_learning_journey.Golang.{max_int64}
use my_learning_journey.Sources.Stats.{Quantities}
use my_learning_journey.Sources.Summary.{uint64_quantity}

-- `value * 10 ^ scale` stands for `val * 10 ^ old`: exactly, or with the last decimal digit cut
-- off.
abbrev pub Represents : ℕ → ℤ → ℕ → ℤ → Type 0
Represents val old value scale =
    ((value ≡ val) × (scale ≡ old))
    ⊎ ((max_int64 < val) × (value * 10 ≤ val) × (val < value * 10 + 10) × (scale ≡ pos 1 +ℤ old))

module _ {Quantity : Type 0} (quantities : Quantities Quantity) where
  open quantities use {new_scaled_quantity}

  -- A uint64 becomes a quantity of a non-negative int64: of its own value at the given scale where
  -- that fits, and otherwise of its value without the last decimal digit, one scale up.
  pub uint64_quantity-Represents :
      (val : ℕ) (scale : ℤ)
      → val < 2 ^ 64
      → (value : ℕ) × (scale' : ℤ) × (uint64_quantity quantities val scale
          ≡ new_scaled_quantity (pos value) scale')
        × (value ≤ max_int64)
        × Represents val scale value scale'
  unfolding uint64_quantity
  uint64_quantity-Represents val scale h = elim (Bool-cases (leb val max_int64)) [
    | inl small ↦ (val, scale, ground arith, ground arith, inl (refl, refl))
    | inr large ↦ (
      val / 10,
      pos 1 +ℤ scale,
      ground arith,
      omega arith,
      inr (ground arith, omega arith, omega arith, refl),
    )
  ]
