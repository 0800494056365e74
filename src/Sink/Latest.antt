-- ===== src/Sink/Latest.antt =====
-- Receive, GetNodeMetrics and GetContainerMetrics against the last batch.
use mathlib.Core.Option
use mathlib.Core.Path.{fun_ext}
use my_learning_journey.Base.{
  ℕ, suc, ◌≡◌, refl, ap, ◌∙◌, inl, inr, String, Option, none, some, Option-cases, List, [], ◌∷◌,
  map, find?, ok, ◌==◌, string_comparable,
}
use my_learning_journey.Base.Dict.{Dict, lookup, lookup-add_absent}
use my_learning_journey.Base.Fill.{write, fill, fill-nil, fill-cons, fill-eq-map}
use my_learning_journey.Sources.{NodeMetricsPoint, PodMetricsPoint, MetricsBatch}
use my_learning_journey.Provider.{
  TimeInfo, NamespacedName, namespaced_name_comparable, ResourceList, ContainerMetrics,
}
use my_learning_journey.Sink.{
  SinkMetricsProvider, new_sink_provider, zero_time_info, node_time_info, node_usage, node_round,
  nodes_from, get_node_metrics, pod_metrics, pod_round, pods_from, get_container_metrics, pod_ident,
  receive,
}

get_or-map-some :
    {A B : Type 0} (f : A → B) (o : Option A)
    → Option.get_or (Option.map (λ a. some (f a)) o) none ≡ Option.map f o
get_or-map-some f none = refl
get_or-map-some f (some a) = refl

module _ {Quantity : Type 0} where
  -- The points of a batch that a name is answered with: the first that has it.
  abbrev pub node_in : MetricsBatch Quantity → String → Option (NodeMetricsPoint Quantity)
  node_in batch name = find? (λ p. p.name == name) batch.nodes

  abbrev pub pod_in : MetricsBatch Quantity → NamespacedName → Option (PodMetricsPoint Quantity)
  pod_in batch ident = find? (λ p. pod_ident p == ident) batch.pods

  -- The two results of a query, from the points that the names are answered with: a name with no
  -- point has the zero time information and a nil list.
  abbrev pub node_answers :
      (String → Option (NodeMetricsPoint Quantity))
      → List String
      → List TimeInfo × List (Option (ResourceList Quantity))
  node_answers find names = (
    map (λ n. Option.get_or (Option.map node_time_info (find n)) zero_time_info) names,
    map (λ n. Option.map node_usage (find n)) names,
  )

  abbrev pub pod_answers :
      (NamespacedName → Option (PodMetricsPoint Quantity))
      → List NamespacedName
      → List TimeInfo × List (Option (List (ContainerMetrics Quantity)))
  pod_answers find names = (
    map (λ n. Option.get_or (Option.map (λ p. (pod_metrics p).0) (find n)) zero_time_info) names,
    map (λ n. Option.map (λ p. (pod_metrics p).1) (find n)) names,
  )

  nodes_from-fill :
      (points : Dict String (NodeMetricsPoint Quantity)) (i : ℕ) (names : List String)
      (ts : List TimeInfo) (ms : List (Option (ResourceList Quantity)))
      → nodes_from points i names (ts, ms) ≡ (
        fill (λ n. Option.map node_time_info (lookup n points)) i names ts,
        fill (λ n. Option.map (λ p. some (node_usage p)) (lookup n points)) i names ms,
      )
  unfolding nodes_from
  nodes_from-fill points i [] ts ms = rw (fill-nil, fill-nil)
  nodes_from-fill points i (n ∷ names) ts ms = elim (Option-cases (lookup n points)) [
    | inl e ↦
        rw (fill-cons, fill-cons, e, nodes_from, node_round, write)
          (nodes_from-fill points (suc i) names ts ms)
    | inr (p, e) ↦
        rw (fill-cons, fill-cons, e, nodes_from, node_round, write)
          (nodes_from-fill points (suc i) names _ _)
  ]

  -- A query reads every name's point in the map, in the order of the names.
  get_node_metrics-lookup :
      (p : SinkMetricsProvider Quantity) (names : List String)
      → get_node_metrics p names ≡ ok (node_answers (λ n. lookup n p.nodes) names)
  unfolding get_node_metrics
  get_node_metrics-lookup p names =
      let time_infos =
        map (λ n. Option.get_or (Option.map node_time_info (lookup n p.nodes)) zero_time_info)
          names in
      rw (nodes_from-fill, fill-eq-map, fill-eq-map)
        (ap (λ h. ok (time_infos, map h names))
          (fun_ext (λ n. get_or-map-some node_usage (lookup n p.nodes))))

  -- After a batch is received each node asked for is answered by the first point of the batch that
  -- has its name, whatever was received before: its time with the cAdvisor window, and its usage. A
  -- node with no point gets a nil usage.
  pub get_node_metrics-receive :
      (p : SinkMetricsProvider Quantity) (batch : MetricsBatch Quantity) (names : List String)
      → get_node_metrics (receive p batch).0 names ≡ ok (node_answers (node_in batch) names)
  unfolding receive lookup
  get_node_metrics-receive p batch names =
      get_node_metrics-lookup (receive p batch).0 names
      ∙ ap (λ find. ok (node_answers find names))
          (fun_ext (λ n. lookup-add_absent (λ q. q.name) n [] batch.nodes))

  pods_from-fill :
      (points : Dict NamespacedName (PodMetricsPoint Quantity)) (i : ℕ)
      (names : List NamespacedName) (ts : List TimeInfo)
      (ms : List (Option (List (ContainerMetrics Quantity))))
      → pods_from points i names (ts, ms) ≡ (
        fill (λ n. Option.map (λ p. (pod_metrics p).0) (lookup n points)) i names ts,
        fill (λ n. Option.map (λ p. some (pod_metrics p).1) (lookup n points)) i names ms,
      )
  unfolding pods_from
  pods_from-fill points i [] ts ms = rw (fill-nil, fill-nil)
  pods_from-fill points i (n ∷ names) ts ms = elim (Option-cases (lookup n points)) [
    | inl e ↦
        rw (fill-cons, fill-cons, e, pods_from, pod_round, write)
          (pods_from-fill points (suc i) names ts ms)
    | inr (p, e) ↦
        rw (fill-cons, fill-cons, e, pods_from, pod_round, write)
          (pods_from-fill points (suc i) names _ _)
  ]

  get_container_metrics-lookup :
      (p : SinkMetricsProvider Quantity) (names : List NamespacedName)
      → get_container_metrics p names ≡ ok (pod_answers (λ n. lookup n p.pods) names)
  unfolding get_container_metrics
  get_container_metrics-lookup p names =
      let time_infos =
        map
          (λ n.
            Option.get_or (Option.map (λ p. (pod_metrics p).0) (lookup n p.pods)) zero_time_info)
          names in
      rw (pods_from-fill, fill-eq-map, fill-eq-map)
        (ap (λ h. ok (time_infos, map h names))
          (fun_ext (λ n. get_or-map-some (λ p. (pod_metrics p).1) (lookup n p.pods))))

  -- The same of pods: each pod asked for is answered by the first point of the last batch that has
  -- its namespace and name, and a pod with no point gets a nil list of containers.
  pub get_container_metrics-receive :
      (p : SinkMetricsProvider Quantity) (batch : MetricsBatch Quantity)
      (names : List NamespacedName)
      → get_container_metrics (receive p batch).0 names ≡ ok (pod_answers (pod_in batch) names)
  unfolding receive lookup
  get_container_metrics-receive p batch names =
      get_container_metrics-lookup (receive p batch).0 names
      ∙ ap (λ find. ok (pod_answers find names))
          (fun_ext (λ n. lookup-add_absent pod_ident n [] batch.pods))

  -- Before the first batch nothing is known: every answer is nil.
  pub new_sink_provider-empty :
      (nodes : List String) (pods : List NamespacedName)
      → (get_node_metrics {Quantity = Quantity} new_sink_provider nodes
          ≡ ok (node_answers (λ _. none) nodes))
        × (get_container_metrics {Quantity = Quantity} new_sink_provider pods
            ≡ ok (pod_answers (λ _. none) pods))
  unfolding lookup
  new_sink_provider-empty nodes pods = (
    get_node_metrics-lookup new_sink_provider nodes,
    get_container_metrics-lookup new_sink_provider pods,
  )
