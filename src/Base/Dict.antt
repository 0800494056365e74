-- ===== src/Base/Dict.antt =====
-- A Go map as an association list: `m[k] = v` and `v, present := m[k]`. The nil map is `[]`.
use mathlib.Core.Path.{◌≡◌, refl, sym, ◌∙◌}
use mathlib.Core.List.{List, [], ◌∷◌}
use mathlib.Core.Bool.{Bool, true, false}
use mathlib.Core.Option.{Option, none, some}
use native.Mathlib.Omega.{arith}
use my_learning_journey.Base.Tests.{if◌then◌else◌}
use my_learning_journey.Base.Lists.{find?}
use my_learning_journey.Base.Keys.{Comparable, ◌==◌}

abbrev pub Dict {ℓ κ} : Type ℓ → Type κ → Type (ℓ ⊔ κ)
Dict K V = List (K × V)

module _ {ℓ κ} {K : Type ℓ} {V : Type κ} ⦃c : Comparable K⦄ where
  unfoldable pub lookup : K → Dict K V → Option V
  lookup key [] = none
  lookup key ((held, value) ∷ rest) = if held == key then some value else lookup key rest

  unfoldable pub contains : K → Dict K V → Bool
  contains key entries = elim (lookup key entries) [ none ↦ false | some _ ↦ true ]

  unfoldable pub insert : K → V → Dict K V → Dict K V
  insert key value [] = (key, value) ∷ []
  insert key value ((held, old) ∷ rest) =
      if held == key then (key, value) ∷ rest else (held, old) ∷ insert key value rest

  pub lookup-insert :
      (key other : K) (value : V) (entries : Dict K V)
      → lookup other (insert key value entries)
        ≡ (if key == other then some value else lookup other entries)
  unfolding insert lookup
  lookup-insert key other value [] = refl
  lookup-insert key other value ((held, old) ∷ rest) = ground (
    arith,
    lookup-insert key other value rest,
    c.equal_iff held key,
    c.equal_iff held other,
    c.equal_iff key other,
  )

  -- `if _, exists := m[k]; exists { continue }; m[k] = v`
  unfoldable pub insert_absent : K → V → Dict K V → Dict K V
  insert_absent k v m = if contains k m then m else insert k v m

  -- A map filled from a list: an element whose key is there already is dropped.
  unfoldable pub add_absent : (V → K) → Dict K V → List V → Dict K V
  unfolding insert_absent
  add_absent key m [] = m
  add_absent key m (v ∷ vs) = add_absent key (insert_absent (key v) v m) vs

-- The first of two options that is there.
abbrev pub or_else {ℓ} : {A : Type ℓ} → Option A → Option A → Option A
or_else none b = b
or_else (some a) b = some a

or_else-none {ℓ} : {A : Type ℓ} (o : Option A) → or_else o none ≡ o
or_else-none none = refl
or_else-none (some a) = refl

or_else_assoc {ℓ} :
    {A : Type ℓ} (a b c : Option A) → or_else (or_else a b) c ≡ or_else a (or_else b c)
or_else_assoc none b c = refl
or_else_assoc (some a) b c = refl

module _ {ℓ κ} {K : Type ℓ} {V : Type κ} ⦃e : Comparable K⦄ where
  lookup-insert_absent :
      (k j : K) (v : V) (m : Dict K V)
      → lookup j (insert_absent k v m) ≡ or_else (lookup j m) (if k == j then some v else none)
  unfolding insert_absent contains
  lookup-insert_absent k j v m = ground (arith, e.equal_iff k j, lookup-insert k j v m)

  find?-cons :
      (key : V → K) (k : K) (v : V) (vs : List V)
      → find? (λ v. key v == k) (v ∷ vs)
        ≡ or_else (if key v == k then some v else none) (find? (λ v. key v == k) vs)
  find?-cons key k v vs = ground arith

  -- In the filled map a key has the value that it had, or else the first element with that key.
  pub lookup-add_absent :
      (key : V → K) (k : K) (m : Dict K V) (vs : List V)
      → lookup k (add_absent key m vs) ≡ or_else (lookup k m) (find? (λ v. key v == k) vs)
  unfolding add_absent
  lookup-add_absent key k m [] = sym (or_else-none (lookup k m))
  lookup-add_absent key k m (v ∷ vs) =
      lookup-add_absent key k (insert_absent (key v) v m) vs
      ∙ rw (
        lookup-insert_absent (key v) k v m,
        find?-cons key k v vs,
        or_else_assoc (lookup k m) (if key v == k then some v else none)
            (find? (λ v. key v == k) vs),
      )
