-- ===== src/Metrics/Increasing.antt =====
-- Strictly increasing lists of doubles: what a histogram asks of its buckets.
use mathlib.Core.List.{append_assoc}
use my_learning_journey.Base.{List, [], ◌∷◌, ◌++◌}
use my_learning_journey.Base.Int.{◌<ℤ◌}
use my_learning_journey.Float.Double.{Double}

-- Each element is less than the next one.
abbrev pub Increasing : List Double → Type 0
Increasing [] = Unit
Increasing (x ∷ []) = Unit
Increasing (x ∷ y ∷ ys) = (x <ℤ y) × Increasing (y ∷ ys)

pub Increasing-suffix : (xs ys : List Double) → Increasing (xs ++ ys) → Increasing ys
Increasing-suffix [] ys h = h
Increasing-suffix (x ∷ []) [] h = tt
Increasing-suffix (x ∷ []) (y ∷ ys) h = h.1
Increasing-suffix (x ∷ z ∷ zs) ys h = Increasing-suffix (z ∷ zs) ys h.1

-- Two lists that are joined at an element of both.
pub Increasing-join :
    (xs : List Double) (y : Double) (zs ys : List Double)
    → Increasing (xs ++ y ∷ zs)
    → Increasing (y ∷ ys)
    → Increasing (xs ++ y ∷ ys)
Increasing-join [] y zs ys h k = k
Increasing-join (x ∷ []) y zs ys h k = (h.0, k)
Increasing-join (x ∷ w ∷ ws) y zs ys h k = (h.0, Increasing-join (w ∷ ws) y zs ys h.1 k)

-- A new element between two neighbours.
pub Increasing-insert :
    (init : List Double) (last t b : Double) (rest : List Double)
    → Increasing ((init ++ last ∷ []) ++ b ∷ rest)
    → last <ℤ t
    → t <ℤ b
    → Increasing (((init ++ last ∷ []) ++ t ∷ []) ++ b ∷ rest)
Increasing-insert init last t b rest h low high =
    let whole : Increasing (init ++ last ∷ b ∷ rest) =
      rw (append_assoc init (last ∷ []) (b ∷ rest)) at h in
    let from_b : Increasing (b ∷ rest) = Increasing-suffix (init ++ last ∷ []) (b ∷ rest) h in
    rw
      (
        append_assoc (init ++ last ∷ []) (t ∷ []) (b ∷ rest),
        append_assoc init (last ∷ []) (t ∷ b ∷ rest),
      )
      (Increasing-join init last (b ∷ rest) (t ∷ b ∷ rest) whole (low, (high, from_b)))
