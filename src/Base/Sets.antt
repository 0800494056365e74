-- ===== src/Base/Sets.antt =====
-- Strings can be told apart, so they are a set: two proofs of one equation of strings are equal.
use mathlib.Core.HLevel.{hedberg}
use Prim.Native.String.{String}
use mathlib.Core.Logic.{inl, inr}
use my_learning_journey.Base.Tests.{Bool-cases}
use my_learning_journey.Base.Keys.{string_comparable}

String-discrete : Discrete String
String-discrete a b = elim (Bool-cases (string_comparable.equal a b)) [
  | inl e ↦ yes ((string_comparable.equal_iff a b).0 e)
  | inr e ↦ no (λ same. let t = (string_comparable.equal_iff a b).1 same in cc)
]

pub String-set : IsSet String
String-set = hedberg String-discrete
