-- ===== src/Base/Keys.antt =====
-- Equality of map keys, as an interface.
use Prim.Native.String.{String}
use mathlib.Core.Path.{◌≡◌}
use mathlib.Core.Logic.{◌↔◌}
use mathlib.Core.Bool.{Bool, true}
use text.Mathlib.Text.{◌==◌ as same_text}
use text.Mathlib.TextEquality.{eq_iff}

-- A type whose values may be the keys of a map: they can be compared.
pub record Comparable {κ} (K : Type κ) : Type κ where
  pub equal : K → K → Bool
  pub equal_iff : (x y : K) → (equal x y ≡ true) ↔ (x ≡ y)

abbrev pub ◌==◌ {κ} : {K : Type κ} ⦃c : Comparable K⦄ → K → K → Bool
◌==◌ ⦃c⦄ x y = c.equal x y

infix 50 ◌==◌
instance abbrev pub string_comparable : Comparable String
string_comparable = record { equal = same_text; equal_iff = eq_iff }
