-- ===== src/Sources/Summary/Batch.antt =====
-- summaryMetricsSource.Collect: the batch and the errors that a summary is decoded into.
use mathlib.Core.List.{append_assoc, append-nil, filter_map}
use my_learning_journey.Base.{
  ℕ, ◌≡◌, refl, sym, ap, ◌∙◌, ◌≤◌, ◌≢◌, inl, inr, ◌↔◌, none, some, Option-cases, arith, List, [],
  ◌∷◌, ◌++◌, length, replicate, take-append, set-append, length-snoc, length-replicate, All,
  eq-nil_of_append_left, eq-nil_of_append_right,
}
use my_learning_journey.Errors.{Error}
use my_learning_journey.Sources.{MetricsPoint, NodeMetricsPoint, PodMetricsPoint}
use my_learning_journey.Sources.Stats.{PodStats, Summary, Quantities}
use my_learning_journey.Sources.Summary.{
  node_points, NodeInfo, zero_node_point, zero_pod_point, decode_node_stats, decode_pod_stats,
  pods_from, next_slot, decode_summary,
}
use my_learning_journey.Sources.Summary.Points.{
  point?, pod_point?, decode_node_stats-some, decode_node_stats-none, decode_pod_stats-some,
  decode_pod_stats-none,
}

module _ {Quantity : Type 0} (quantities : Quantities Quantity) (src : NodeInfo) where
  next_slot-skip : (es : List Error) (num : ℕ) → es ≢ [] → next_slot es num ≡ num
  next_slot-skip [] num h = absurd (h refl)
  next_slot-skip (e ∷ es) num h = refl

  abbrev IsComplete : PodStats → Type 0
  IsComplete pod = pod_point? quantities pod ≢ none

  abbrev kept : List PodStats → List (PodMetricsPoint Quantity)
  kept = filter_map (pod_point? quantities)

  -- What the loop returns: the slots hold the kept pods first, `num` counts them, and the errors
  -- grow.
  record IsDecoded (pods : List PodStats) (done : List (PodMetricsPoint Quantity))
      (errs : List Error) (r : List (PodMetricsPoint Quantity) × ℕ × List Error) : Type 0 where
    rest : List (PodMetricsPoint Quantity)
    added : List Error
    slots : r.0 ≡ (done ++ kept pods) ++ rest
    count : r.1 ≡ length (done ++ kept pods)
    errors : r.2 ≡ errs ++ added
    complete : (added ≡ []) ↔ All IsComplete pods

  module _ (pod : PodStats) (pods : List PodStats) (done : List (PodMetricsPoint Quantity))
      (errs : List Error) {r : List (PodMetricsPoint Quantity) × ℕ × List Error} where
    IsDecoded-skip :
        (pod_errs : List Error)
        → pod_point? quantities pod ≡ none
        → pod_errs ≢ []
        → IsDecoded pods done (errs ++ pod_errs) r
        → IsDecoded (pod ∷ pods) done errs r
    unfolding filter_map
    IsDecoded-skip pod_errs missing failed d = record {
      rest = d.rest;
      added = pod_errs ++ d.added;
      slots = rw missing d.slots;
      count = rw missing d.count;
      errors = d.errors ∙ append_assoc errs pod_errs d.added;
      complete = (
        (λ z. absurd (failed (eq-nil_of_append_left pod_errs d.added z))),
        (λ all. absurd (all.0 missing)),
      );
    }

    IsDecoded-keep :
        (p : PodMetricsPoint Quantity)
        → pod_point? quantities pod ≡ some p
        → IsDecoded pods (done ++ p ∷ []) errs r
        → IsDecoded (pod ∷ pods) done errs r
    unfolding filter_map
    IsDecoded-keep p there d = record {
      rest = d.rest;
      added = d.added;
      slots = rw (there, ← append_assoc done (p ∷ []) (kept pods)) d.slots;
      count = rw (there, ← append_assoc done (p ∷ []) (kept pods)) d.count;
      errors = d.errors;
      complete = ((λ z. ((λ e. cc), d.complete.0 z)), (λ all. d.complete.1 all.1));
    }

  -- A pod with errors leaves its point in a slot that is used again.
  pods_from-skip :
      (pod : PodStats) (pods : List PodStats) (done : List (PodMetricsPoint Quantity))
      (r : PodMetricsPoint Quantity) (rest : List (PodMetricsPoint Quantity)) (errs : List Error)
      → let (point, pod_errs) = decode_pod_stats quantities src pod in
        pod_errs ≢ []
        → pods_from quantities src (pod ∷ pods) (length done) (done ++ r ∷ rest) errs
          ≡ pods_from quantities src pods (length done) (done ++ point ∷ rest) (errs ++ pod_errs)
  unfolding pods_from
  pods_from-skip pod pods done r rest errs failed =
      rw (set-append, next_slot-skip (decode_pod_stats quantities src pod).1 (length done) failed)

  pods_from-keep :
      (pod : PodStats) (pods : List PodStats) (done : List (PodMetricsPoint Quantity))
      (r : PodMetricsPoint Quantity) (rest : List (PodMetricsPoint Quantity)) (errs : List Error)
      (p : PodMetricsPoint Quantity)
      → decode_pod_stats quantities src pod ≡ (p, [])
      → pods_from quantities src (pod ∷ pods) (length done) (done ++ r ∷ rest) errs
        ≡ pods_from quantities src pods (length (done ++ p ∷ [])) ((done ++ p ∷ []) ++ rest) errs
  unfolding pods_from
  pods_from-keep pod pods done r rest errs p e =
      rw (e, set-append, append-nil, length-snoc, append_assoc)

  pods_from-nil :
      (done rest : List (PodMetricsPoint Quantity)) (errs : List Error)
      → IsDecoded [] done errs (pods_from quantities src [] (length done) (done ++ rest) errs)
  unfolding pods_from filter_map
  pods_from-nil done rest errs = record {
    rest = rest;
    added = [];
    slots = rw append-nil;
    count = rw append-nil;
    errors = sym (append-nil errs);
    complete = ((λ _. tt), (λ _. refl));
  }

  pods_from-IsDecoded :
      (pods : List PodStats) (done rest : List (PodMetricsPoint Quantity)) (errs : List Error)
      → length pods ≤ length rest
      → IsDecoded pods done errs (pods_from quantities src pods (length done) (done ++ rest) errs)
  pods_from-IsDecoded [] done rest errs n = pods_from-nil done rest errs
  pods_from-IsDecoded (pod ∷ pods) done [] errs n = absurd (omega arith)
  pods_from-IsDecoded (pod ∷ pods) done (r ∷ rest) errs n =
      elim (Option-cases (pod_point? quantities pod)) [
        | inl missing ↦
            let (point, pod_errs) = decode_pod_stats quantities src pod in
            let failed = decode_pod_stats-none quantities src pod missing in
            rw (pods_from-skip pod pods done r rest errs failed) (
              IsDecoded-skip pod pods done errs pod_errs missing failed
                (pods_from-IsDecoded pods done (point ∷ rest) (errs ++ pod_errs) (omega arith)))
        | inr (p, there) ↦
            let e = decode_pod_stats-some quantities src pod p there in
            rw (pods_from-keep pod pods done r rest errs p e) (
              IsDecoded-keep pod pods done errs p there
                (pods_from-IsDecoded pods (done ++ p ∷ []) rest errs (omega arith)))
      ]

  -- The batch holds exactly the pods whose every container has a time, a CPU rate and a memory
  -- size, in the kubelet's order and with all of their containers' points.
  pub decode_summary-pods :
      (summary : Summary)
      → (decode_summary quantities src summary).0.pods
        ≡ filter_map (pod_point? quantities) summary.pods
  unfolding decode_summary
  decode_summary-pods summary =
      let slots = replicate (length summary.pods) (zero_pod_point quantities) in
      let node_errs =
        (decode_node_stats quantities src summary.node (zero_node_point quantities)).1 in
      let d =
        pods_from-IsDecoded summary.pods [] slots node_errs (omega (arith, length-replicate {0})) in
      rw (d.count, d.slots) (take-append (kept summary.pods) d.rest)

  node_points-length :
      (node : NodeMetricsPoint Quantity) (errs : List Error)
      → length (node_points quantities node errs) ≡ 1
  unfolding node_points
  node_points-length node [] = refl
  node_points-length node (_ ∷ _) = refl

  node_errs-nil :
      (summary : Summary)
      → point? quantities summary.node.cpu summary.node.memory ≢ none
      → (decode_node_stats quantities src summary.node (zero_node_point quantities)).1 ≡ []
  node_errs-nil summary there =
      elim (Option-cases (point? quantities summary.node.cpu summary.node.memory)) [
        | inl missing ↦ absurd (there missing)
        | inr (p, e) ↦
            ap (λ r. r.1)
              (decode_node_stats-some quantities src summary.node (zero_node_point quantities) p e)
      ]

  -- There is no error exactly when the node's point is there and every pod's is.
  pub decode_summary-errors :
      (summary : Summary)
      → ((decode_summary quantities src summary).1 ≡ []) ↔ (
          (point? quantities summary.node.cpu summary.node.memory ≢ none)
          × All (λ pod. pod_point? quantities pod ≢ none) summary.pods)
  unfolding decode_summary
  decode_summary-errors summary =
      let slots = replicate (length summary.pods) (zero_pod_point quantities) in
      let node_errs =
        (decode_node_stats quantities src summary.node (zero_node_point quantities)).1 in
      let d =
        pods_from-IsDecoded summary.pods [] slots node_errs (omega (arith, length-replicate {0})) in
      (
        λ z.
            let e = sym d.errors ∙ z in
            (
              λ missing.
                  decode_node_stats-none quantities src summary.node (zero_node_point quantities)
                    missing (eq-nil_of_append_left node_errs d.added e),
              d.complete.0 (eq-nil_of_append_right node_errs d.added e),
            ),
        λ all.
            d.errors
            ∙ ap (λ l. node_errs ++ l) (d.complete.1 all.1)
            ∙ append-nil node_errs
            ∙ node_errs-nil summary all.0,
      )

  -- The batch always holds one node point, whether or not the node's stats decode. Where they do,
  -- it is the decoded point, under the node's name.
  pub decode_summary-nodes :
      (summary : Summary)
      → let (batch, errs) = decode_summary quantities src summary in
        (length batch.nodes ≡ 1)
        × ((p : MetricsPoint Quantity)
            → point? quantities summary.node.cpu summary.node.memory ≡ some p
            → batch.nodes ≡ record { name = src.name; point = p } ∷ [])
  unfolding decode_summary node_points
  decode_summary-nodes summary = (
    node_points-length _ _,
    λ p e. rw (decode_node_stats-some quantities src summary.node (zero_node_point quantities) p e),
  )
