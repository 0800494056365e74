-- ===== src/Metrics/Inside.antt =====
-- BucketsForScrapeDuration with a timeout below the last bucket.
use mathlib.Core.List.{
  append_assoc, Mem, Mem-prop, mem-cons_self, mem-append, mem-append_left, mem-append_right,
}
use mathlib.Core.Logic.Or as Or
use my_learning_journey.Base.{
  ℕ, suc, ◌+◌, ◌≡◌, refl, ◌⊎◌, inl, inr, true, false, Bool-cases, List, [], ◌∷◌, ◌++◌, returns,
  length, All, arith, ap, ◌∙◌, get_elem?, some, take, drop, take-append, drop-append, length-snoc,
  ◌>>=◌, get_elem?-append, nil_or_snoc,
}
use my_learning_journey.Base.Int.{pos, pos_part, neg_part, eq_of_parts, ltb_ℤ, ◌<ℤ◌, ◌≤ℤ◌}
use my_learning_journey.Float.Double.{Double, one, seconds}
use my_learning_journey.Float.Double as Double
use my_learning_journey.Float.Rounding.{sub_self}
use my_learning_journey.Metrics.{index, find_bucket, close_below, is_close, with_timeout_inside}
use my_learning_journey.Metrics.Increasing.{Increasing, Increasing-insert, Increasing-suffix}
use my_learning_journey.Metrics.FindBucket.{find_bucket-Stop}

-- A bucket that is less than the least bucket away from the timeout.
abbrev pub IsNear : (least timeout_seconds bucket : Double) → Type 0
IsNear least t b = ((t <ℤ b) × (Double.sub b t <ℤ least)) ⊎ ((b ≤ℤ t) × (Double.sub t b <ℤ least))

-- Buckets in order, the default ones among them, with the timeout or a default bucket near to it.
pub record IsBucketsFor (least t : Double) (defaults bs : List Double) : Type 0 where
  pub increasing : Increasing bs
  pub keeps : (b : Double) → Mem b defaults → Mem b bs
  pub has_timeout : Mem t bs ⊎ ((b : Double) × Mem b defaults × IsNear least t b)

module _ (t least bucket : Double) (bs : List Double) (i : ℕ) where
  is_close-above :
      get_elem? bs 0 ≡ some least
      → ltb_ℤ (Double.sub bucket t) least ≡ true
      → is_close bs t i bucket ≡ returns true
  unfolding is_close
  is_close-above e h = rw (e, index) (rw (h, ◌>>=◌) refl)

  is_close-below :
      get_elem? bs 0 ≡ some least
      → ltb_ℤ (Double.sub bucket t) least ≡ false
      → is_close bs t i bucket ≡ close_below bs t least i
  unfolding is_close
  is_close-below e h = rw (e, index) (rw (h, ◌>>=◌) refl)

  module _ (found : find_bucket t 0 0 (pos 0) bs ≡ (i, bucket)) where
    inside-close : is_close bs t i bucket ≡ returns true → with_timeout_inside bs t ≡ returns bs
    unfolding with_timeout_inside
    inside-close h = rw (found, h) refl

    inside-open :
        is_close bs t i bucket ≡ returns false
        → with_timeout_inside bs t ≡ returns ((take i bs ++ t ∷ []) ++ drop i bs)
    unfolding with_timeout_inside
    inside-open h = rw (found, h) (rw found refl)

below_last :
    (t least last : Double) (init bs : List Double)
    → close_below (init ++ last ∷ bs) t least (suc (length init))
      ≡ returns (ltb_ℤ (Double.sub t last) least)
unfolding close_below
below_last t least last init bs = rw (get_elem?-append init last bs, index) refl

-- The timeout between a prefix and the first bucket above it.
module _ (t : Double) (before : List Double) (b : Double) (rest : List Double) where
  inserted : List Double
  inserted = (before ++ t ∷ []) ++ b ∷ rest

  inserted-eq :
      (take (length before) (before ++ b ∷ rest) ++ t ∷ [])
        ++ drop (length before) (before ++ b ∷ rest)
      ≡ inserted
  unfolding inserted
  inserted-eq = rw (take-append before (b ∷ rest), drop-append before (b ∷ rest)) refl

  inserted-keeps : (x : Double) → Mem x (before ++ b ∷ rest) → Mem x inserted
  unfolding inserted
  inserted-keeps x m =
      Or.elim Mem-prop (mem-append.0 m)
        (λ l. mem-append_left (b ∷ rest) (mem-append_left (t ∷ []) l))
        (λ r. mem-append_right (before ++ t ∷ []) r)

  inserted-has : Mem t inserted
  unfolding inserted
  inserted-has = mem-append_left (b ∷ rest) (mem-append_right before mem-cons_self)

  -- The list with the timeout, once it is known to be in order.
  open_answer :
      (least : Double)
      → find_bucket t 0 0 (pos 0) (before ++ b ∷ rest) ≡ (length before, b)
      → is_close (before ++ b ∷ rest) t (length before) b ≡ returns false
      → Increasing inserted
      → (bs : List Double) × (with_timeout_inside (before ++ b ∷ rest) t ≡ returns bs)
        × IsBucketsFor least t (before ++ b ∷ rest) bs
  open_answer least found far sorted = (
    inserted,
    inside-open t least b (before ++ b ∷ rest) (length before) found far
        ∙ ap (λ l. returns l) inserted-eq,
    record { increasing = sorted; keeps = inserted-keeps; has_timeout = inl inserted-has },
  )

  close_answer :
      (least : Double)
      → find_bucket t 0 0 (pos 0) (before ++ b ∷ rest) ≡ (length before, b)
      → is_close (before ++ b ∷ rest) t (length before) b ≡ returns true
      → Increasing (before ++ b ∷ rest)
      → (near : Double) × Mem near (before ++ b ∷ rest) × IsNear least t near
      → (bs : List Double) × (with_timeout_inside (before ++ b ∷ rest) t ≡ returns bs)
        × IsBucketsFor least t (before ++ b ∷ rest) bs
  close_answer least found near sorted who = (
    before ++ b ∷ rest,
    inside-close t least b (before ++ b ∷ rest) (length before) found near,
    record { increasing = sorted; keeps = λ x m. m; has_timeout = inr who },
  )

-- A rounded difference of at least the least bucket is of different numbers.
apart :
    (least t b : Double) → pos 0 <ℤ least → b ≤ℤ t → ltb_ℤ (Double.sub t b) least ≡ false → b <ℤ t
apart least t b positive low far =
    let split : (b <ℤ t) ⊎ (pos_part b + neg_part t ≡ pos_part t + neg_part b) = omega arith in
    elim split [
      | inl h ↦ h
      | inr h ↦
          let same : b ≡ t = eq_of_parts b t h in
          let zero_difference : Double.sub t b ≡ pos 0 = rw same (sub_self t) in
          let never : ltb_ℤ (pos 0) least ≡ false = rw zero_difference at far in
          absurd (ground arith)
    ]

All-last : (P : Double → Type 0) (xs : List Double) (y : Double) → All P (xs ++ y ∷ []) → P y
All-last P [] y h = h.0
All-last P (x ∷ xs) y h = All-last P xs y h.1

module _ (t least : Double) (positive : pos 0 <ℤ least) where
  -- A timeout above the last bucket of `init ++ last ∷ []` and below `b`.
  inside_between :
      (init : List Double) (last b : Double) (rest : List Double)
      → Increasing ((init ++ last ∷ []) ++ b ∷ rest)
      → last ≤ℤ t
      → t <ℤ b
      → find_bucket t 0 0 (pos 0) ((init ++ last ∷ []) ++ b ∷ rest)
        ≡ (length (init ++ last ∷ []), b)
      → is_close ((init ++ last ∷ []) ++ b ∷ rest) t (length (init ++ last ∷ [])) b
        ≡ close_below ((init ++ last ∷ []) ++ b ∷ rest) t least (length (init ++ last ∷ []))
      → (bs : List Double) × (with_timeout_inside ((init ++ last ∷ []) ++ b ∷ rest) t ≡ returns bs)
        × IsBucketsFor least t ((init ++ last ∷ []) ++ b ∷ rest) bs
  unfolding inserted
  inside_between init last b rest sorted low high found far =
      let flat = append_assoc init (last ∷ []) (b ∷ rest) in
      let test : close_below ((init ++ last ∷ []) ++ b ∷ rest) t least (length (init ++ last ∷ []))
          ≡ returns (ltb_ℤ (Double.sub t last) least) =
        rw (flat, length-snoc init last) (below_last t least last init (b ∷ rest)) in
      elim (Bool-cases (ltb_ℤ (Double.sub t last) least)) [
        | inl e ↦
            close_answer t (init ++ last ∷ []) b rest least found
              (far ∙ test ∙ ap (λ x. returns x) e) sorted
              (
                last,
                mem-append_left (b ∷ rest) (mem-append_right init mem-cons_self),
                inr (low, ground arith),
              )
        | inr e ↦
            open_answer t (init ++ last ∷ []) b rest least found
              (far ∙ test ∙ ap (λ x. returns x) e)
              (Increasing-insert init last t b rest sorted (apart least t last positive low e) high)
      ]

  -- A timeout below `b`, behind the buckets `before` which are not above it.
  inside_split :
      (before : List Double) (b : Double) (rest : List Double)
      → Increasing (before ++ b ∷ rest)
      → All (λ x. x ≤ℤ t) before
      → t <ℤ b
      → find_bucket t 0 0 (pos 0) (before ++ b ∷ rest) ≡ (length before, b)
      → is_close (before ++ b ∷ rest) t (length before) b
        ≡ close_below (before ++ b ∷ rest) t least (length before)
      → (bs : List Double) × (with_timeout_inside (before ++ b ∷ rest) t ≡ returns bs)
        × IsBucketsFor least t (before ++ b ∷ rest) bs
  unfolding inserted close_below
  inside_split before b rest sorted low high found far = elim (nil_or_snoc before) [
    | inl e ↦
        let first_in : Increasing (b ∷ rest) = Increasing-suffix before (b ∷ rest) sorted in
        rw e (open_answer t [] b rest least (rw e at found) (rw e at far) (high, first_in))
    | inr (init, last, e) ↦
        let last_low : last ≤ℤ t = All-last (λ y. y ≤ℤ t) init last (rw e at low) in
        rw e (
          inside_between init last b rest (rw e at sorted) last_low high (rw e at found)
            (rw e at far))
  ]

  -- The branch of a timeout below the last bucket.
  pub with_timeout_inside-IsBucketsFor :
      (buckets init : List Double) (max : Double)
      → get_elem? buckets 0 ≡ some least
      → buckets ≡ init ++ max ∷ []
      → Increasing buckets
      → t <ℤ max
      → (bs : List Double) × (with_timeout_inside buckets t ≡ returns bs)
        × IsBucketsFor least t buckets bs
  with_timeout_inside-IsBucketsFor buckets init max first e sorted inside =
      let s = find_bucket-Stop t 0 0 (pos 0) init max inside in
      let split : buckets ≡ s.before ++ s.bucket ∷ s.rest = e ∙ s.split in
      let found : find_bucket t 0 0 (pos 0) buckets ≡ (length s.before, s.bucket) =
        rw e (s.found_at ∙ ap (λ n. (n, s.bucket)) (omega arith)) in
      elim (Bool-cases (ltb_ℤ (Double.sub s.bucket t) least)) [
        | inl near ↦
            let close = is_close-above t least s.bucket buckets (length s.before) first near in
            rw split (
              close_answer t s.before s.bucket s.rest least (rw split at found) (rw split at close)
                (rw split at sorted)
                (s.bucket, mem-append_right s.before mem-cons_self, inl (s.high, ground arith)))
        | inr far ↦
            let clear = is_close-below t least s.bucket buckets (length s.before) first far in
            rw split (
              inside_split s.before s.bucket s.rest (rw split at sorted) s.low s.high
                (rw split at found) (rw split at clear))
      ]
