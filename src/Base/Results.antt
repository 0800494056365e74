-- ===== src/Base/Results.antt =====
-- Results of a Go function: a value or an error value; and a run that may panic.
use mathlib.Core.Path.{◌≡◌, refl}
use mathlib.Core.Logic.{◌⊎◌, inl, inr}

pub data Result {ℓ κ} (E : Type κ) (A : Type ℓ) : Type (ℓ ⊔ κ) where
  ok : A → Result E A
  err : E → Result E A

pub Result-cases {ℓ κ} :
    {E : Type κ} {A : Type ℓ} (r : Result E A) → ((a : A) × (r ≡ ok a)) ⊎ ((e : E) × (r ≡ err e))
Result-cases (ok a) = inl (a, refl)
Result-cases (err e) = inr (e, refl)

-- A run that ends in a value, or in a panic of the runtime.
pub data Run {ℓ} (A : Type ℓ) : Type ℓ where
  returns : A → Run A
  panics : Run A

pub Run-cases {ℓ} : {A : Type ℓ} (r : Run A) → ((a : A) × (r ≡ returns a)) ⊎ (r ≡ panics)
Run-cases (returns a) = inl (a, refl)
Run-cases panics = inr refl

infixl 5 ◌>>=◌
abbrev pub ◌>>=◌ {ℓ κ} : {A : Type ℓ} {B : Type κ} → Run A → (A → Run B) → Run B
returns a >>= f = f a
panics >>= f = panics

pub ok_injective {ℓ κ} :
    {E : Type κ} {A : Type ℓ} {a b : A} → ◌≡◌ {A = Result E A} (ok a) (ok b) → a ≡ b
ok_injective e = cc

pub returns_injective {ℓ} : {A : Type ℓ} {a b : A} → returns a ≡ returns b → a ≡ b
returns_injective e = cc

-- A run of two parts that both end in a value.
pub returns-bind {ℓ κ} :
    {A : Type ℓ} {B : Type κ} (m : Run A) (k : A → Run B) (a : A) (b : B)
    → m ≡ returns a
    → k a ≡ returns b
    → (m >>= k) ≡ returns b
returns-bind m k a b e f = rw e f
