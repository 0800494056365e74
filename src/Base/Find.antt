-- ===== src/Base/Find.antt =====
-- The first element with a key, in a list whose elements are told apart by their keys.
use mathlib.Core.Logic.Or
use mathlib.Core.List.Perm
use mathlib.Core.List.{Perm, Mem, mem-cons, mem-cons_self, mem-cons_of_mem, not-mem-nil}
use mathlib.Core.Path.{◌≡◌, refl, sym, ap, ap₂, ◌∙◌}
use mathlib.Core.Logic.{◌≢◌, inl, inr}
use mathlib.Core.Bool.{Bool, true}
use mathlib.Core.Option.{none, some}
use mathlib.Core.List.{List, [], ◌∷◌, map}
use my_learning_journey.Base.Tests.{Bool-cases, Option-cases, some_injective}
use my_learning_journey.Base.Lists.{find?}
use my_learning_journey.Base.Keys.{Comparable, ◌==◌}

module _ {ℓ} {A : Type ℓ} (f : A → Bool) where
  pub find?-mem : (xs : List A) {x : A} → find? f xs ≡ some x → (f x ≡ true) × Mem x xs
  find?-mem [] h = cc
  find?-mem (y ∷ xs) {x} h = elim (Bool-cases (f y)) [
    | inl e ↦
        let same : y ≡ x = some_injective (rw (e, find?) at h) in
        (rw (← same) e, rw (← same) mem-cons_self)
    | inr e ↦ let (t, m) = find?-mem xs (rw (e, find?) at h) in (t, mem-cons_of_mem y m)
  ]

  pub find?-none : (xs : List A) (x : A) → find? f xs ≡ none → Mem x xs → f x ≢ true
  find?-none [] x h m t = absurd (not-mem-nil m)
  find?-none (y ∷ xs) x h m t = elim (Bool-cases (f y)) [
    | inl e ↦ let z : some y ≡ none = rw (e, find?) at h in cc
    | inr e ↦
        Or.elim (λ a b. absurd a) (mem-cons.0 m) (λ same. cc)
          (λ rest. find?-none xs x (rw (e, find?) at h) rest t)
  ]

-- Elements with the same key are the same.
abbrev pub Identifies {ℓ κ} : {A : Type ℓ} {K : Type κ} → (A → K) → List A → Type (ℓ ⊔ κ)
Identifies {A = A} key xs = (x y : A) → Mem x xs → Mem y xs → key x ≡ key y → x ≡ y

module _ {ℓ κ} {A : Type ℓ} {K : Type κ} ⦃c : Comparable K⦄ (key : A → K) where
  find?-self :
      (xs : List A)
      → Identifies key xs
      → (x : A) → Mem x xs
      → find? (λ y. key y == key x) xs ≡ some x
  find?-self xs only x there = elim (Option-cases (find? (λ y. key y == key x) xs)) [
    | inl e ↦
        absurd
          (find?-none (λ y. key y == key x) xs x e there ((c.equal_iff (key x) (key x)).1 refl))
    | inr (y, e) ↦
        let (t, m) = find?-mem (λ y. key y == key x) xs e in
        e ∙ ap (λ z. some z) (only y x m there ((c.equal_iff (key y) (key x)).0 t))
  ]

  -- Every element of a part of the list is found under its own key.
  pub find?-map :
      (xs ys : List A)
      → Identifies key xs
      → ((y : A) → Mem y ys → Mem y xs)
      → map (λ k. find? (λ y. key y == k) xs) (map key ys) ≡ map (λ y. some y) ys
  find?-map xs [] only inside = refl
  find?-map xs (y ∷ ys) only inside =
      ap₂ (λ z zs. z ∷ zs) (find?-self xs only y (inside y mem-cons_self))
        (find?-map xs ys only (λ z m. inside z (mem-cons_of_mem y m)))

  -- What is found does not depend on the order.
  pub find?-perm :
      (xs ys : List A)
      → Perm xs ys
      → Identifies key xs
      → (k : K) → find? (λ y. key y == k) xs ≡ find? (λ y. key y == k) ys
  find?-perm xs ys p only k =
      let f : A → Bool = λ y. key y == k in
      elim (Option-cases (find? f xs)) [
        | inl e ↦ elim (Option-cases (find? f ys)) [
          | inl g ↦ e ∙ sym g
          | inr (y, g) ↦
              let (t, m) = find?-mem f ys g in absurd (find?-none f xs y e ((Perm.mem_iff p).1 m) t)
        ]
        | inr (x, e) ↦
            let (t, m) = find?-mem f xs e in
            elim (Option-cases (find? f ys)) [
              | inl g ↦ absurd (find?-none f ys x g ((Perm.mem_iff p).0 m) t)
              | inr (y, g) ↦
                  let (u, n) = find?-mem f ys g in
                  let same = (c.equal_iff (key x) k).0 t ∙ sym ((c.equal_iff (key y) k).0 u) in
                  e ∙ ap (λ z. some z) (only x y m ((Perm.mem_iff p).1 n) same) ∙ sym g
            ]
      ]
