-- ===== src/Storage/Pods/Removal.antt =====
-- MetricStorage.List of pods: the loop that removes pods from the slice.
use mathlib.Core.List.{append_assoc, append-nil}
use mathlib.Core.Path.{◌≡◌, refl, sym, ap, ◌∙◌}
use my_learning_journey.Base.{
  ℕ, zero, suc, Bool, true, false, Bool-cases, some, List, [], ◌∷◌, ◌++◌, arith, returns, filter,
  length, length-snoc, inl, inr, take-append, get_elem?-append, drop-suc-append, filter-append,
  snoc_view,
}
use my_learning_journey.Storage.{ListOptions, Selection, Selector}
use my_learning_journey.Storage.Pods.{Pod, remove_unmatched, filter_fields, fields_match}

module _ (matches : Pod → Bool) where
  remove_unmatched-keep :
      (init : List Pod) (pod : Pod) (rest : List Pod)
      → matches pod ≡ true
      → remove_unmatched matches (suc (length init)) (init ++ pod ∷ rest)
        ≡ remove_unmatched matches (length init) (init ++ pod ∷ rest)
  unfolding remove_unmatched
  remove_unmatched-keep init pod rest e =
      rw (get_elem?-append init pod rest, remove_unmatched) (rw e refl)

  remove_unmatched-remove :
      (init : List Pod) (pod : Pod) (rest : List Pod)
      → matches pod ≡ false
      → remove_unmatched matches (suc (length init)) (init ++ pod ∷ rest)
        ≡ remove_unmatched matches (length init) (init ++ rest)
  unfolding remove_unmatched
  remove_unmatched-remove init pod rest e =
      rw (get_elem?-append init pod rest, remove_unmatched)
        (rw e (rw (take-append init (pod ∷ rest), drop-suc-append init pod rest) refl))

  -- The invariant of the loop: what is right of the index has been filtered.
  remove_unmatched-snoc :
      (init : List Pod) (pod : Pod) (rest : List Pod)
      → ((rest : List Pod)
          → remove_unmatched matches (length init) (init ++ rest)
            ≡ returns (filter matches init ++ rest))
      → remove_unmatched matches (suc (length init)) (init ++ pod ∷ rest)
        ≡ returns (filter matches (init ++ pod ∷ []) ++ rest)
  remove_unmatched-snoc init pod rest ih = elim (Bool-cases (matches pod)) [
    | inl e ↦
        remove_unmatched-keep init pod rest e
        ∙ ih (pod ∷ rest)
        ∙ rw (filter-append matches init (pod ∷ []), e, filter, append_assoc) refl
    | inr e ↦
        remove_unmatched-remove init pod rest e
        ∙ ih rest
        ∙ rw (filter-append matches init (pod ∷ []), e, filter, append-nil) refl
  ]

  remove_unmatched-last :
      (xs init : List Pod) (last : Pod) (rest : List Pod)
      → xs ≡ init ++ last ∷ []
      → ((rest : List Pod)
          → remove_unmatched matches (length init) (init ++ rest)
            ≡ returns (filter matches init ++ rest))
      → remove_unmatched matches (suc (length init)) (xs ++ rest)
        ≡ returns (filter matches xs ++ rest)
  remove_unmatched-last xs init last rest e ih =
      rw (e, append_assoc init (last ∷ []) rest) (remove_unmatched-snoc init last rest ih)

  remove_unmatched-filter :
      (n : ℕ) (pods rest : List Pod)
      → length pods ≡ n
      → remove_unmatched matches n (pods ++ rest) ≡ returns (filter matches pods ++ rest)
  remove_unmatched-filter zero [] rest h = unfold remove_unmatched in refl
  remove_unmatched-filter zero (pod ∷ pods) rest h = absurd (omega arith)
  remove_unmatched-filter (suc n) [] rest h = absurd (omega arith)
  remove_unmatched-filter (suc n) (pod ∷ pods) rest h =
      let (init, last, e) = snoc_view pod pods in
      let len : length init ≡ n = omega (arith, length-snoc init last, ap length e) in
      rw (← len) (
        remove_unmatched-last (pod ∷ pods) init last rest e
          (λ rest'. rw len (remove_unmatched-filter n init rest' len)))

-- The loop that removes pods from the slice while it walks over it leaves the pods that the field
-- selector matches, in their order, and no index is out of range.
pub filter_fields-filter :
    (selection : Selection) (options : ListOptions) (selector : Selector) (pods : List Pod)
    → options.field_selector ≡ some selector
    → filter_fields selection (some options) pods
      ≡ returns (filter (fields_match selection selector) pods)
unfolding filter_fields
filter_fields-filter selection options selector pods e =
    let matches = fields_match selection selector in
    let all = remove_unmatched-filter matches (length pods) pods [] refl in
    rw (e, filter_fields)
      (ap (remove_unmatched matches (length pods)) (sym (append-nil pods))
        ∙ all
        ∙ ap returns (append-nil (filter matches pods)))
