-- ===== src/Manager/FromSources.antt =====
-- The whole way of a node's metrics: from the sources that are scraped to the answer of a query.
use mathlib.Core.List.Perm
use mathlib.Core.List.{Perm, Mem}
use my_learning_journey.Base.{
  ◌≡◌, ◌≢◌, ◌⊎◌, inl, inr, refl, Bool, String, Option, none, some, Option-cases, List, [], ◌∷◌,
  Result, ok, length, ◌==◌, string_comparable,
}
use my_learning_journey.Base.Find.{find?-mem, find?-none}
use my_learning_journey.Golang.{Time, Duration, Context, background, with_timeout}
use my_learning_journey.Errors.{Error}
use my_learning_journey.Sources.{
  MetricsBatch, NodeMetricsPoint, PodMetricsPoint, MetricSource, Packages, IsAggregate,
}
use my_learning_journey.Sources.SourceManager.Gather.{gather, nodes_of, pods_of}
use my_learning_journey.Sources.SourceManager.Collects.{SourceManager, Start, Collects}
use my_learning_journey.Sources.SourceManager.Answers.{answers, Collects-answers}
use my_learning_journey.Provider.{
  NamespacedName, namespaced_name_comparable, ContainerMetrics, TimeInfo, ResourceList,
}
use my_learning_journey.Sink.{
  get_container_metrics, pod_ident, pod_metrics, SinkMetricsProvider, new_sink_provider,
  get_node_metrics, node_time_info, node_usage, zero_time_info,
}
use my_learning_journey.Sink.Latest.{pod_in, pod_answers, node_in, node_answers}
use my_learning_journey.Manager.{State, Phase, Cycle, Reach}
use my_learning_journey.Manager.Serving.{server, Reach-answers}

module _ {Quantity : Type 0} where
  -- The answer to a query for one node, from the node points that there are: a point of its name,
  -- or nothing where no point has it.
  abbrev pub Answers :
      String
      → List (NodeMetricsPoint Quantity)
      → Result Error (List TimeInfo × List (Option (ResourceList Quantity)))
      → Type 0
  Answers name points r =
      ((r ≡ ok (zero_time_info ∷ [], none ∷ []))
        × ((p : NodeMetricsPoint Quantity) → Mem p points → p.name ≢ name))
      ⊎ ((p : NodeMetricsPoint Quantity) × Mem p points
          × (p.name ≡ name)
          × (r ≡ ok (node_time_info p ∷ [], some (node_usage p) ∷ [])))

  node_answers-Answers :
      (name : String) (batch : MetricsBatch Quantity) (points : List (NodeMetricsPoint Quantity))
      → Perm batch.nodes points
      → Answers name points (ok (node_answers (node_in batch) (name ∷ [])))
  node_answers-Answers name batch points perm =
      let has_name : NodeMetricsPoint Quantity → Bool = λ p. p.name == name in
      elim (Option-cases (node_in batch name)) [
        | inl e ↦ inl (
          rw (e, node_answers) refl,
          λ p there same.
              find?-none has_name batch.nodes p e ((Perm.mem_iff perm).1 there)
                ((string_comparable.equal_iff p.name name).1 same),
        )
        | inr (p, e) ↦
            let (t, there) = find?-mem has_name batch.nodes e in
            inr (
              p,
              (Perm.mem_iff perm).0 there,
              (string_comparable.equal_iff p.name name).0 t,
              rw (e, node_answers) refl,
            )
      ]

  -- The same of a pod.
  abbrev pub PodAnswers :
      NamespacedName
      → List (PodMetricsPoint Quantity)
      → Result Error (List TimeInfo × List (Option (List (ContainerMetrics Quantity))))
      → Type 0
  PodAnswers ident points r =
      ((r ≡ ok (zero_time_info ∷ [], none ∷ []))
        × ((p : PodMetricsPoint Quantity) → Mem p points → pod_ident p ≢ ident))
      ⊎ ((p : PodMetricsPoint Quantity) × Mem p points
          × (pod_ident p ≡ ident)
          × (r ≡ ok ((pod_metrics p).0 ∷ [], some (pod_metrics p).1 ∷ [])))

  pod_answers-PodAnswers :
      (ident : NamespacedName) (batch : MetricsBatch Quantity)
      (points : List (PodMetricsPoint Quantity))
      → Perm batch.pods points
      → PodAnswers ident points (ok (pod_answers (pod_in batch) (ident ∷ [])))
  pod_answers-PodAnswers ident batch points perm =
      let has_ident : PodMetricsPoint Quantity → Bool = λ p. pod_ident p == ident in
      elim (Option-cases (pod_in batch ident)) [
        | inl e ↦ inl (
          rw (e, pod_answers) refl,
          λ p there same.
              find?-none has_ident batch.pods p e ((Perm.mem_iff perm).1 there)
                ((namespaced_name_comparable.equal_iff (pod_ident p) ident).1 same),
        )
        | inr (p, e) ↦
            let (t, there) = find?-mem has_ident batch.pods e in
            inr (
              p,
              (Perm.mem_iff perm).0 there,
              (namespaced_name_comparable.equal_iff (pod_ident p) ident).0 t,
              rw (e, pod_answers) refl,
            )
      ]

module _ {Quantity : Type 0} (packages : Packages) (m_at : Time → SourceManager Quantity) where
  -- A source that in each call answers with what the source manager may return; what sources there
  -- are may change with the time, as the cluster's nodes do.
  abbrev pub IsSourceManager : MetricSource Quantity → Type 0
  IsSourceManager source =
      (ctx : Context) (now : Time)
      → (batch : MetricsBatch Quantity) × ((source.collect ctx now).batch ≡ some batch)
        × Collects packages (m_at now) ctx (batch, (source.collect ctx now).error)

  -- With the source manager as the source: once a cycle is finished there are starts of its
  -- goroutines, one for each source, such that until the next cycle is finished a query for a node
  -- or a pod is answered with a point of that name that a source gave in the cycle, and with
  -- nothing exactly where no source gave one.
  pub Reach-Answers :
      (source : MetricSource Quantity) (resolution : Duration) (log : List Cycle) (c : Cycle)
      (s : State (SinkMetricsProvider Quantity)) (phase : Phase)
      → IsAggregate packages
      → IsSourceManager source
      → Reach (server source resolution) new_sink_provider (c ∷ log) s phase
      → (starts : List Start) × (length starts ≡ length (m_at c.now).src_prov.get_metric_sources.0)
        × ((name : String)
            → Answers name
                (gather
                  (λ o. nodes_of o.metrics)
                  (answers packages (m_at c.now) (with_timeout background c.now resolution) starts))
                (get_node_metrics s.stored (name ∷ [])))
        × ((ident : NamespacedName)
            → PodAnswers ident
                (gather
                  (λ o. pods_of o.metrics)
                  (answers packages (m_at c.now) (with_timeout background c.now resolution) starts))
                (get_container_metrics s.stored (ident ∷ [])))
  Reach-Answers source resolution log c s phase h is r =
      let ctx = with_timeout background c.now resolution in
      let (batch, there, run) = is ctx c.now in
      let (starts, same, _, nodes, pods, _) =
        Collects-answers packages (m_at c.now) ctx h (batch, (source.collect ctx c.now).error)
          run in
      let query = λ (names : List String) (idents : List NamespacedName).
        Reach-answers source resolution log c s phase batch names idents r there in
      (
        starts,
        same,
        (λ name. rw (query (name ∷ []) []).0 (node_answers-Answers name batch _ nodes)),
        (λ ident. rw (query [] (ident ∷ [])).1 (pod_answers-PodAnswers ident batch _ pods)),
      )
