-- ===== src/Base/Lists.antt =====
-- Lists measured and indexed by native numbers, under the library's names.
use Prim.Native.Nat.{ℕ, zero, suc, ◌+◌, ◌≤◌, ◌<◌}
use mathlib.Core.Path.{◌≡◌, refl, ap}
use mathlib.Core.Logic.{◌⊎◌, inl, inr}
use mathlib.Core.List.{List, [], ◌∷◌, ◌++◌, map}
use mathlib.Core.Bool.{Bool, true, false}
use my_learning_journey.Base.Tests.{Bool-cases}
use mathlib.Core.Option.{Option, none, some}
use native.Mathlib.Decide.{dec_lt}
use native.Mathlib.Omega.{arith}

module _ {ℓ} {A : Type ℓ} where
  abbrev pub length : List A → ℕ
  length [] = 0
  length (x ∷ xs) = suc (length xs)

  abbrev pub get_elem? : List A → ℕ → Option A
  get_elem? [] i = none
  get_elem? (x ∷ xs) zero = some x
  get_elem? (x ∷ xs) (suc i) = get_elem? xs i

  -- A write out of bounds changes nothing.
  abbrev pub set : List A → ℕ → A → List A
  set [] i v = []
  set (x ∷ xs) zero v = v ∷ xs
  set (x ∷ xs) (suc i) v = x ∷ set xs i v

  abbrev pub take : ℕ → List A → List A
  take zero xs = []
  take (suc n) [] = []
  take (suc n) (x ∷ xs) = x ∷ take n xs

  abbrev pub drop : ℕ → List A → List A
  drop zero xs = xs
  drop (suc n) [] = []
  drop (suc n) (x ∷ xs) = drop n xs

  abbrev pub replicate : ℕ → A → List A
  replicate zero a = []
  replicate (suc n) a = a ∷ replicate n a

  -- The elements that pass a Boolean test, in order.
  abbrev pub filter : (A → Bool) → List A → List A
  filter p [] = []
  filter p (x ∷ xs) = elim (p x) [ true ↦ x ∷ filter p xs | false ↦ filter p xs ]

  -- The first element that passes a Boolean test.
  abbrev pub find? : (A → Bool) → List A → Option A
  find? p [] = none
  find? p (x ∷ xs) = elim (p x) [ true ↦ some x | false ↦ find? p xs ]

  -- A predicate of every element, which computes to tuples.
  abbrev pub All {κ} : (A → Type κ) → List A → Type κ
  All P [] = Unit
  All P (x ∷ xs) = P x × All P xs

  pub length-append : (xs ys : List A) → length (xs ++ ys) ≡ length xs + length ys
  length-append [] ys = omega arith
  length-append (x ∷ xs) ys = omega (arith, length-append xs ys)

module _ {ℓ} {A : Type ℓ} where
  pub length-replicate : (n : ℕ) (a : A) → length (replicate n a) ≡ n
  length-replicate zero a = refl
  length-replicate (suc n) a = ap suc (length-replicate n a)

  pub length-map {κ} : {B : Type κ} (f : A → B) (xs : List A) → length (map f xs) ≡ length xs
  length-map f [] = refl
  length-map f (x ∷ xs) = ap suc (length-map f xs)

  -- A write behind a prefix lands on the first element after it.
  pub set-append :
      (xs : List A) (y v : A) (ys : List A) → set (xs ++ y ∷ ys) (length xs) v ≡ xs ++ v ∷ ys
  set-append [] y v ys = refl
  set-append (x ∷ xs) y v ys = ap (◌∷◌ x) (set-append xs y v ys)

  pub length-snoc : (xs : List A) (y : A) → length (xs ++ y ∷ []) ≡ suc (length xs)
  length-snoc xs y = omega (arith, length-append xs (y ∷ []))

  pub take-append : (xs ys : List A) → take (length xs) (xs ++ ys) ≡ xs
  take-append [] ys = refl
  take-append (x ∷ xs) ys = ap (◌∷◌ x) (take-append xs ys)

  pub drop-append : (xs ys : List A) → drop (length xs) (xs ++ ys) ≡ ys
  drop-append [] ys = refl
  drop-append (x ∷ xs) ys = drop-append xs ys

  pub All-append {κ} : (P : A → Type κ) (xs ys : List A) → All P xs → All P ys → All P (xs ++ ys)
  All-append P [] ys hx hy = hy
  All-append P (x ∷ xs) ys hx hy = (hx.0, All-append P xs ys hx.1 hy)

  pub eq-nil_of_length : (xs : List A) → length xs ≡ 0 → xs ≡ []
  eq-nil_of_length [] h = refl
  eq-nil_of_length (x ∷ xs) h = absurd (omega arith)

  pub eq-nil_of_append_left : (xs ys : List A) → xs ++ ys ≡ [] → xs ≡ []
  eq-nil_of_append_left [] ys h = refl
  eq-nil_of_append_left (x ∷ xs) ys h = cc

  pub eq-nil_of_append_right : (xs ys : List A) → xs ++ ys ≡ [] → ys ≡ []
  eq-nil_of_append_right [] ys h = h
  eq-nil_of_append_right (x ∷ xs) ys h = cc

module _ {ℓ} {A : Type ℓ} where
  -- A list of options as an option of a list: all are there, or none is given.
  abbrev pub cons? : Option A → Option (List A) → Option (List A)
  cons? (some x) (some xs) = some (x ∷ xs)
  cons? (some x) none = none
  cons? none xs = none

  pub cons?-eq-some :
      (o : Option A) (os : Option (List A)) {l : List A}
      → cons? o os ≡ some l
      → (x : A) × (xs : List A) × (o ≡ some x) × (os ≡ some xs) × (l ≡ x ∷ xs)
  cons?-eq-some (some x) (some xs) h = (x, xs, refl, refl, cc)
  cons?-eq-some (some x) none h = cc
  cons?-eq-some none xs h = cc

  pub cons?-eq-none :
      (o : Option A) (os : Option (List A)) → cons? o os ≡ none → (o ≡ none) ⊎ (os ≡ none)
  cons?-eq-none (some x) (some xs) h = cc
  cons?-eq-none (some x) none h = inr refl
  cons?-eq-none none xs h = inl refl

module _ {ℓ} {A : Type ℓ} where
  pub get_elem?-append :
      (xs : List A) (y : A) (ys : List A) → get_elem? (xs ++ y ∷ ys) (length xs) ≡ some y
  get_elem?-append [] y ys = refl
  get_elem?-append (x ∷ xs) y ys = get_elem?-append xs y ys

  pub drop-suc-append :
      (xs : List A) (y : A) (ys : List A) → drop (suc (length xs)) (xs ++ y ∷ ys) ≡ ys
  drop-suc-append [] y ys = refl
  drop-suc-append (x ∷ xs) y ys = drop-suc-append xs y ys

  pub filter-append :
      (p : A → Bool) (xs ys : List A) → filter p (xs ++ ys) ≡ filter p xs ++ filter p ys
  filter-append p [] ys = refl
  filter-append p (x ∷ xs) ys = elim (Bool-cases (p x)) [
    | inl e ↦ rw (e, filter) (ap (◌∷◌ x) (filter-append p xs ys))
    | inr e ↦ rw (e, filter) (filter-append p xs ys)
  ]

  -- A list with a last element.
  pub snoc_view :
      (x : A) (xs : List A) → (init : List A) × (last : A) × (x ∷ xs ≡ init ++ last ∷ [])
  snoc_view x [] = ([], x, refl)
  snoc_view x (y ∷ xs) = let (init, last, e) = snoc_view y xs in (x ∷ init, last, ap (◌∷◌ x) e)

-- Two lists of one length still have one length when each has grown by an element.
pub length-snoc_same {ℓ κ} :
    {A : Type ℓ} {B : Type κ} (xs : List A) (ys : List B) (x : A) (y : B)
    → length xs ≡ length ys
    → length (xs ++ x ∷ []) ≡ length (ys ++ y ∷ [])
length-snoc_same xs ys x y p = omega (arith, length-snoc xs x, length-snoc ys y)

pub nil_or_snoc {ℓ} :
    {A : Type ℓ} (xs : List A)
    → (xs ≡ []) ⊎ ((init : List A) × (last : A) × (xs ≡ init ++ last ∷ []))
nil_or_snoc [] = inl refl
nil_or_snoc (x ∷ xs) = inr (snoc_view x xs)

-- A sum over a list.
abbrev pub sum_of {ℓ} : {A : Type ℓ} → (A → ℕ) → List A → ℕ
sum_of f [] = 0
sum_of f (x ∷ xs) = f x + sum_of f xs

pub sum_of-append {ℓ} :
    {A : Type ℓ} (f : A → ℕ) (xs ys : List A) → sum_of f (xs ++ ys) ≡ sum_of f xs + sum_of f ys
sum_of-append f [] ys = omega arith
sum_of-append f (x ∷ xs) ys = omega (arith, sum_of-append f xs ys)

-- What a list's elements with no weight satisfy, where the whole list has none.
pub All-weightless {ℓ κ μ} :
    {A : Type ℓ} {P : A → Type κ} {Q : A → Type μ} (weight : A → ℕ)
    → ((x : A) → weight x ≡ 0 → P x → Q x)
    → (xs : List A) → sum_of weight xs ≡ 0
    → All P xs
    → All Q xs
All-weightless weight h [] z a = tt
All-weightless weight h (x ∷ xs) z a =
    (h x (omega arith) a.0, All-weightless weight h xs (omega arith) a.1)

-- An element that has a weight, if the list has.
pub find_weighty {ℓ} :
    {A : Type ℓ} (weight : A → ℕ) (xs : List A)
    → 0 < sum_of weight xs
    → (before : List A) × (x : A) × (behind : List A) × (xs ≡ before ++ x ∷ behind) × (0 < weight x)
find_weighty weight [] h = absurd (omega arith)
find_weighty weight (x ∷ xs) h = elim (dec_lt 0 (weight x)) [
  | yes w ↦ ([], x, xs, refl, w)
  | no n ↦
      let (before, y, behind, e, w) = find_weighty weight xs (omega arith) in
      (x ∷ before, y, behind, ap (◌∷◌ x) e, w)
]

pub All-parts {ℓ κ} :
    {A : Type ℓ} (P : A → Type κ) (xs ys : List A) → All P (xs ++ ys) → All P xs × All P ys
All-parts P [] ys a = (tt, a)
All-parts P (x ∷ xs) ys a = let (hx, hy) = All-parts P xs ys a.1 in ((a.0, hx), hy)

-- One element replaced: the sums, and a predicate of every element, where the others have no weight
-- and what they satisfy changes.
pub sum_of-replace {ℓ} :
    {A : Type ℓ} (f : A → ℕ) (before : List A) (x y : A) (behind : List A)
    → sum_of f (before ++ y ∷ behind) + f x ≡ sum_of f (before ++ x ∷ behind) + f y
sum_of-replace f before x y behind =
    omega (arith, sum_of-append f before (x ∷ behind), sum_of-append f before (y ∷ behind))

pub sum_of-at {ℓ} :
    {A : Type ℓ} (f : A → ℕ) (before : List A) (x : A) (behind : List A)
    → f x ≤ sum_of f (before ++ x ∷ behind)
sum_of-at f before x behind = omega (arith, sum_of-append f before (x ∷ behind))

pub All-at {ℓ κ} :
    {A : Type ℓ} (P : A → Type κ) (before : List A) (x : A) (behind : List A)
    → All P (before ++ x ∷ behind)
    → P x
All-at P before x behind a = (All-parts P before (x ∷ behind) a).1.0

pub All-replace {ℓ κ} :
    {A : Type ℓ} (P : A → Type κ) (before : List A) (x y : A) (behind : List A)
    → P y
    → All P (before ++ x ∷ behind)
    → All P (before ++ y ∷ behind)
All-replace P before x y behind p a =
    let (front, back) = All-parts P before (x ∷ behind) a in
    All-append P before (y ∷ behind) front (p, back.1)

pub All-replace_weightless {ℓ κ μ} :
    {A : Type ℓ} {P : A → Type κ} {Q : A → Type μ} (weight : A → ℕ)
    → ((x : A) → weight x ≡ 0 → P x → Q x)
    → (before : List A) (x y : A) (behind : List A)
    → sum_of weight (before ++ x ∷ behind) ≡ weight x
    → Q y
    → All P (before ++ x ∷ behind)
    → All Q (before ++ y ∷ behind)
All-replace_weightless {P = P} {Q = Q} weight h before x y behind z q a =
    let (front, back) = All-parts P before (x ∷ behind) a in
    let sums = sum_of-append weight before (x ∷ behind) in
    All-append Q before (y ∷ behind) (All-weightless weight h before (omega (arith, sums)) front)
      (q, All-weightless weight h behind (omega (arith, sums)) back.1)
