-- ===== src/Base/Fill.antt =====
-- Loops that write slot `i` of an array at their `i`-th round, or leave its zero value there.
use Prim.Native.Nat.{ℕ, suc}
use mathlib.Core.Path.{◌≡◌, refl, ◌∙◌}
use mathlib.Core.List.{List, [], ◌∷◌, ◌++◌, map, append_assoc}
use mathlib.Core.Option
use mathlib.Core.Logic.{inl, inr}
use mathlib.Core.Option.{Option, none, some}
use my_learning_journey.Base.Tests.{Option-cases}
use my_learning_journey.Base.Lists.{length, set, replicate, set-append, length-snoc}

module _ {ℓ κ} {A : Type ℓ} {B : Type κ} (f : A → Option B) where
  abbrev pub write : ℕ → A → List B → List B
  write i x out = elim (f x) [ none ↦ out | some y ↦ set out i y ]

  pub fill : ℕ → List A → List B → List B
  fill i [] out = out
  fill i (x ∷ xs) out = fill (suc i) xs (write i x out)

  pub fill-nil : (i : ℕ) (out : List B) → fill i [] out ≡ out
  unfolding fill
  fill-nil i out = refl

  pub fill-cons :
      (i : ℕ) (x : A) (xs : List A) (out : List B)
      → fill i (x ∷ xs) out ≡ fill (suc i) xs (write i x out)
  unfolding fill
  fill-cons i x xs out = refl

  value : B → A → B
  value d x = Option.get_or (f x) d

  write-append :
      (d : B) (x : A) (done rest : List B)
      → write (length done) x (done ++ d ∷ rest) ≡ done ++ value d x ∷ rest
  unfolding value
  write-append d x done rest = elim (Option-cases (f x)) [
    | inl e ↦ rw (e, write)
    | inr (y, e) ↦ rw (e, write) (set-append done d y rest)
  ]

  fill-append :
      (d : B) (xs : List A) (done : List B)
      → fill (length done) xs (done ++ replicate (length xs) d) ≡ done ++ map (value d) xs
  unfolding fill
  fill-append d [] done = refl
  fill-append d (x ∷ xs) done =
      let v = value d x in
      rw
        (
          write-append d x done (replicate (length xs) d),
          ← length-snoc done v,
          ← append_assoc done (v ∷ []) (replicate (length xs) d),
        )
        (fill-append d xs (done ++ v ∷ []) ∙ append_assoc done (v ∷ []) (map (value d) xs))

  -- The array after the loop: what each round wrote, or the zero value.
  pub fill-eq-map :
      (d : B) (xs : List A)
      → fill 0 xs (replicate (length xs) d) ≡ map (λ x. Option.get_or (f x) d) xs
  unfolding value
  fill-eq-map d xs = fill-append d xs []
