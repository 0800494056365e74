-- ===== src/Manager/Kubelets.antt =====
-- The whole way of a node's metrics with the sources that the server has: from the kubelets of the
-- cluster to the answer of a query.
use mathlib.Core.List.{filter_map, filter_map-cons-some, filter_map-cons-none}
use mathlib.Core.Path.{ap₂}
use my_learning_journey.Base.{
  ◌*◌, ◌≡◌, refl, sym, ap, ◌∙◌, inl, inr, String, Option, none, some, List, [], ◌∷◌, ◌++◌, Result,
  Result-cases, ok, err, length, map,
}
use my_learning_journey.Base.Int.{pos, ◌+ℤ◌}
use my_learning_journey.Golang.{Time, Duration, Context, background, with_timeout, millisecond}
use my_learning_journey.Errors.{Error}
use my_learning_journey.Sources.{MetricsBatch, MetricSource, Packages, IsAggregate}
use my_learning_journey.Sources.Stats.{Summary, Quantities, KubeletInterface}
use my_learning_journey.Sources.Summary.{
  NodeInfo, decode_summary, collect, new_summary_metrics_source,
}
use my_learning_journey.Sources.Addresses.{Node, NodeAddressResolver}
use my_learning_journey.Sources.Provider.{new_summary_provider}
use my_learning_journey.Sources.Provider.Nodes.{source_of, get_metric_sources_lem}
use my_learning_journey.Sources.SourceManager.{goroutine, scrape_with_metrics, scrape_context}
use my_learning_journey.Sources.SourceManager.Collects.{
  SourceManager, new_source_manager, Start, outcomes_from,
}
use my_learning_journey.Sources.SourceManager.Gather.{gather, nodes_of, pods_of}
use my_learning_journey.Sources.SourceManager.Answers.{answers}
use my_learning_journey.Provider.{NamespacedName}
use my_learning_journey.Sink.{
  SinkMetricsProvider, new_sink_provider, get_node_metrics, get_container_metrics,
}
use my_learning_journey.Manager.{State, Phase, Cycle, Reach}
use my_learning_journey.Manager.Serving.{server}
use my_learning_journey.Manager.FromSources.{Answers, PodAnswers, IsSourceManager, Reach-Answers}

-- When the goroutine calls the client: the clock has been read four times since the sleep, three
-- times for the scrape's metrics and once for the request's.
abbrev pub request_time : Packages → Start → Time
request_time packages s =
    let read = packages.next_read in read (read (read (read (s.now +ℤ pos (s.draw * millisecond)))))

module _ {Quantity : Type 0} (quantities : Quantities Quantity) (packages : Packages)
    (client : KubeletInterface) (resolver : NodeAddressResolver) where
  -- The batch that a kubelet's answer is decoded to, if it answers.
  abbrev pub decoded : NodeInfo → Result Error Summary → Option (MetricsBatch Quantity)
  decoded src (ok summary) = some (decode_summary quantities src summary).0
  decoded src (err e) = none

  -- What the kubelet of a node answers, when its goroutine starts like this.
  abbrev pub kubelet_answer : Context → Duration → Start → NodeInfo → Option (MetricsBatch Quantity)
  kubelet_answer base_ctx timeout s src =
      let sleep = pos (s.draw * millisecond) in
      decoded src
        (client.get_summary (scrape_context base_ctx timeout s.now sleep) src.connect_address
          (request_time packages s)).0

  -- The answers of the kubelets of all nodes that have an address, in the order of the nodes.
  abbrev pub kubelet_answers :
      Context → Duration → List Start → List Node → List (Option (MetricsBatch Quantity))
  kubelet_answers base_ctx timeout starts [] = []
  kubelet_answers base_ctx timeout [] (node ∷ nodes) = []
  kubelet_answers base_ctx timeout (s ∷ starts) (node ∷ nodes) = elim (resolver.resolve node) [
    | err e ↦ kubelet_answers base_ctx timeout (s ∷ starts) nodes
    | ok addr ↦
        kubelet_answer base_ctx timeout s (record { name = node.name; connect_address = addr })
        ∷ kubelet_answers base_ctx timeout starts nodes
  ]

  collect-decoded :
      (src : NodeInfo) (ctx : Context) (now : Time)
      → (collect quantities packages client src ctx now).batch
        ≡ decoded src (client.get_summary ctx src.connect_address (packages.next_read now)).0
  unfolding collect
  collect-decoded src ctx now =
      elim (Result-cases (client.get_summary ctx src.connect_address (packages.next_read now)).0) [
        | inl (summary, e) ↦ rw (e, collect) refl
        | inr (cause, e) ↦ rw (e, collect) refl
      ]

  goroutine-metrics :
      (base_ctx : Context) (timeout : Duration) (s : Start) (src : NodeInfo)
      → (goroutine packages base_ctx timeout s.now s.draw
          (new_summary_metrics_source quantities packages client src)).metrics
        ≡ kubelet_answer base_ctx timeout s src
  unfolding goroutine scrape_with_metrics new_summary_metrics_source
  goroutine-metrics base_ctx timeout s src =
      let sleep = pos (s.draw * millisecond) in
      let read = packages.next_read in
      collect-decoded src (scrape_context base_ctx timeout s.now sleep)
        (read (read (read (s.now +ℤ sleep))))

  no_sources :
      (base_ctx : Context) (timeout : Duration) (starts : List Start)
      → outcomes_from {Quantity = Quantity} packages base_ctx timeout starts [] ≡ []
  unfolding outcomes_from
  no_sources base_ctx timeout [] = refl
  no_sources base_ctx timeout (s ∷ starts) = refl

  outcomes_from-kubelets :
      (base_ctx : Context) (timeout : Duration) (starts : List Start) (nodes : List Node)
      → map
          (λ o. o.metrics)
          (outcomes_from packages base_ctx timeout starts
            (filter_map (source_of quantities packages client resolver) nodes))
        ≡ kubelet_answers base_ctx timeout starts nodes
  unfolding outcomes_from
  outcomes_from-kubelets base_ctx timeout starts [] =
      unfold filter_map in rw (no_sources base_ctx timeout starts) refl
  outcomes_from-kubelets base_ctx timeout [] (node ∷ nodes) = refl
  outcomes_from-kubelets base_ctx timeout (s ∷ starts) (node ∷ nodes) =
      elim (Result-cases (resolver.resolve node)) [
        | inl (addr, e) ↦
            let src : NodeInfo = record { name = node.name; connect_address = addr } in
            let there : source_of quantities packages client resolver node
                ≡ some (new_summary_metrics_source quantities packages client src) =
              rw (e, source_of) refl in
            rw
              (
                filter_map-cons-some (source_of quantities packages client resolver) node nodes
                    there,
                e,
                kubelet_answers,
              )
              (ap₂ (λ o os. o ∷ os) (goroutine-metrics base_ctx timeout s src)
                (outcomes_from-kubelets base_ctx timeout starts nodes))
        | inr (cause, e) ↦
            let gone : source_of quantities packages client resolver node ≡ none =
              rw (e, source_of) refl in
            rw
              (
                filter_map-cons-none (source_of quantities packages client resolver) node nodes
                    gone,
                e,
                kubelet_answers,
              )
              (outcomes_from-kubelets base_ctx timeout (s ∷ starts) nodes)
      ]

  -- The source manager that the server makes, over what the lister answers.
  abbrev pub manager_over : List Node → Duration → SourceManager Quantity
  manager_over nodes timeout =
      new_source_manager (new_summary_provider quantities packages client resolver (ok nodes))
        timeout

  gather-map :
      {A B X : Type 0} (f : B → List X) (g : A → B) (xs : List A)
      → gather f (map g xs) ≡ gather (λ x. f (g x)) xs
  gather-map f g [] = refl
  gather-map f g (x ∷ xs) = ap (λ l. f (g x) ++ l) (gather-map f g xs)

  answers-kubelets :
      {X : Type 0} (f : Option (MetricsBatch Quantity) → List X) (ctx : Context)
      (timeout : Duration) (nodes : List Node) (starts : List Start)
      → IsAggregate packages
      → gather (λ o. f o.metrics) (answers packages (manager_over nodes timeout) ctx starts)
        ≡ gather f (kubelet_answers ctx timeout starts nodes)
  unfolding new_summary_provider
  answers-kubelets f ctx timeout nodes starts h =
      let sources = (get_metric_sources_lem quantities packages client resolver h (ok nodes)).0 in
      rw sources (
        sym (gather-map f (λ o. o.metrics) _)
        ∙ ap (λ l. gather f l) (outcomes_from-kubelets ctx timeout starts nodes))

module _ {Quantity : Type 0} (quantities : Quantities Quantity) (packages : Packages)
    (client : KubeletInterface) (resolver : NodeAddressResolver) (nodes_at : Time → List Node)
    (timeout : Duration) where
  -- With the source manager over the cluster's nodes, those of the lister at the time of the cycle:
  -- once a cycle is finished there are starts of its goroutines, one for each node that has an
  -- address, such that until the next cycle is finished a query for a node or a pod is answered
  -- with a point of that name out of what a kubelet has answered and the program has decoded in the
  -- cycle, and with nothing exactly where no kubelet's answer has one.
  pub Reach-AnswersFromKubelets :
      (source : MetricSource Quantity) (resolution : Duration) (log : List Cycle) (c : Cycle)
      (s : State (SinkMetricsProvider Quantity)) (phase : Phase)
      → IsAggregate packages
      → IsSourceManager packages
          (λ now. manager_over quantities packages client resolver (nodes_at now) timeout)
          source
      → Reach (server source resolution) new_sink_provider (c ∷ log) s phase
      → (starts : List Start) × (length starts
          ≡ length (filter_map (source_of quantities packages client resolver) (nodes_at c.now)))
        × ((name : String)
            → Answers name
                (gather nodes_of (
                  kubelet_answers quantities packages client resolver
                    (with_timeout background c.now resolution)
                    timeout
                    starts
                    (nodes_at c.now)))
                (get_node_metrics s.stored (name ∷ [])))
        × ((ident : NamespacedName)
            → PodAnswers ident
                (gather pods_of (
                  kubelet_answers quantities packages client resolver
                    (with_timeout background c.now resolution)
                    timeout
                    starts
                    (nodes_at c.now)))
                (get_container_metrics s.stored (ident ∷ [])))
  unfolding new_summary_provider
  Reach-AnswersFromKubelets source resolution log c s phase h is r =
      let ctx = with_timeout background c.now resolution in
      let found =
        (get_metric_sources_lem quantities packages client resolver h (ok (nodes_at c.now))).0 in
      let (starts, same, nodes, pods) =
        Reach-Answers packages
          (λ now. manager_over quantities packages client resolver (nodes_at now) timeout) source
          resolution log c s phase h is r in
      (
        starts,
        rw found at same,
        (λ name.
            rw
              (answers-kubelets quantities packages client resolver nodes_of ctx timeout
                (nodes_at c.now) starts h)
              at (nodes name)),
        (λ ident.
            rw
              (answers-kubelets quantities packages client resolver pods_of ctx timeout
                (nodes_at c.now) starts h)
              at (pods ident)),
      )
