-- ===== src/Sources/SourceManager/Answers.antt =====
-- sourceManager.Collect: its returns, and what it returns.
use mathlib.Core.List.Perm
use mathlib.Core.List.{Perm}
use my_learning_journey.Base.{
  ℕ, zero, suc, ◌+◌, ◌-◌, ◌*◌, ◌<◌, ◌≤◌, ◌≡◌, ◌↔◌, inl, inr, refl, sym, Option, none, some,
  Option-cases, List, [], ◌∷◌, ◌++◌, length, All, arith, eq-nil_of_append_left,
  eq-nil_of_append_right,
}
use my_learning_journey.Errors.{Error}
use my_learning_journey.Sources.{MetricsBatch, Packages, IsAggregate, new_aggregate-eq-none}
use my_learning_journey.Golang.{Context}
use my_learning_journey.Sources.SourceManager.Collects.{
  SourceManager, Start, outcomes_from, Collects, collects,
}
use my_learning_journey.Sources.SourceManager.{
  add_error, delay_ms, Outcome, State, returned, Reach, later, Steps, finished, next, result,
}
use my_learning_journey.Sources.SourceManager.Counts.{Reach-length}
use my_learning_journey.Sources.SourceManager.Progress.{no_deadlock}
use my_learning_journey.Sources.SourceManager.Gather.{
  gather, error_list, nodes_of, pods_of, collect_gathers,
}

-- A run of so many steps from `s`, to a state in which Collect has returned.
abbrev pub ReturnsIn : {Quantity : Type 0} → (capacity rounds : ℕ) → State Quantity → Type 0
ReturnsIn {Quantity} capacity rounds s =
    (t : State Quantity) × Steps capacity rounds s t × (t.main ≡ returned)

module _ {Quantity : Type 0} {errs : List Error} {outcomes : List (Outcome Quantity)} where
  continue :
      (rounds : ℕ) {k : ℕ} {s : State Quantity}
      → Reach errs outcomes k s
      → rounds + k ≡ 4 * length outcomes + 1
      → ReturnsIn (length outcomes) rounds s
  continue zero {k} {s} r h =
      let e : k ≡ 4 * length outcomes + 1 = omega (arith, h) in
      (s, finished, (Reach-length r).1.1 e)
  continue (suc rounds) {k} {s} r h = elim (no_deadlock r) [
    | inl e ↦ absurd (omega (arith, (Reach-length r).1.0 e))
    | inr (u, step) ↦
        let (t, rest, ended) = continue rounds (later r step) (omega arith) in
        (t, next step rest, ended)
  ]

  -- Collect returns: a state that a run has reached after k steps goes on, in so many steps that
  -- there are 4 n + 1 in all for n sources, to one in which Collect has returned; and no run has
  -- more steps than that.
  pub run_returns :
      {k : ℕ} {s : State Quantity}
      → Reach errs outcomes k s
      → (k ≤ 4 * length outcomes + 1) × ReturnsIn (length outcomes) (4 * length outcomes + 1 - k) s
  run_returns {k} {s} r =
      let (most, _) = Reach-length r in
      (omega (arith, most), continue (4 * length outcomes + 1 - k) r (omega arith))

no_errors :
    {Quantity : Type 0} (os : List (Outcome Quantity))
    → (gather (λ o. error_list o.error) os ≡ []) ↔ All (λ o. o.error ≡ none) os
no_errors [] = ((λ _. tt), (λ _. refl))
no_errors (o ∷ os) = elim (Option-cases o.error) [
  | inl e ↦ rw (e, error_list) ((λ z. (refl, (no_errors os).0 z)), (λ z. (no_errors os).1 z.1))
  | inr (x, e) ↦ rw (e, error_list) ((λ z. cc), (λ z. let (y, _) = z in cc))
]

provider_errors : (err : Option Error) → (add_error [] err ≡ []) ↔ (err ≡ none)
provider_errors none = ((λ _. refl), (λ _. refl))
provider_errors (some e) = ((λ z. cc), (λ z. cc))

-- A permutation of two lists is empty exactly where both are.
perm_nil : (es fs gs : List Error) → Perm es (fs ++ gs) → (es ≡ []) ↔ ((fs ≡ []) × (gs ≡ []))
perm_nil es fs gs p = (
  (λ z.
      let none_left : fs ++ gs ≡ [] = sym (Perm.nil-eq (rw (← z) p)) in
      (eq-nil_of_append_left fs gs none_left, eq-nil_of_append_right fs gs none_left)),
  (λ z. let (y, w) = z in Perm.eq-nil (rw (y, w) at p)),
)

module _ {Quantity : Type 0} (packages : Packages) (m : SourceManager Quantity)
    (base_ctx : Context) where
  -- What the goroutines answer that start at these times.
  abbrev pub answers : List Start → List (Outcome Quantity)
  answers starts =
      outcomes_from packages base_ctx m.scrape_timeout starts m.src_prov.get_metric_sources.0

  -- Whatever Collect returns, there are a start and a delay below the bound for each source, such
  -- that the batch holds the points that the sources answer then, each as often as they do, and
  -- there is no error exactly where neither the provider nor a source has one.
  pub Collects-answers :
      IsAggregate packages
      → (r : MetricsBatch Quantity × Option Error) → Collects packages m base_ctx r
      → (starts : List Start) × (length starts ≡ length m.src_prov.get_metric_sources.0)
        × All (λ s. s.draw < delay_ms (length m.src_prov.get_metric_sources.0)) starts
        × Perm r.0.nodes (gather (λ o. nodes_of o.metrics) (answers starts))
        × Perm r.0.pods (gather (λ o. pods_of o.metrics) (answers starts))
        × ((r.1 ≡ none) ↔ (
            (m.src_prov.get_metric_sources.1 ≡ none) × All (λ o. o.error ≡ none) (answers starts)))
  unfolding result
  Collects-answers h _ (collects starts same bound {s = s} r done) =
      let (nodes, pods, errors) = collect_gathers r done in
      let (none_left, empty) = new_aggregate-eq-none packages h s.errs in
      let err = m.src_prov.get_metric_sources.1 in
      let (both, back) =
        perm_nil s.errs (add_error [] err) (gather (λ o. error_list o.error) (answers starts))
          errors in
      let (prov, prov_back) = provider_errors err in
      let (all, all_back) = no_errors (answers starts) in
      (
        starts,
        same,
        bound,
        nodes,
        pods,
        (
          (λ z. let (y, w) = both (none_left z) in (prov y, all w)),
          (λ z. let (y, w) = z in empty (back (prov_back y, all_back w))),
        ),
      )
