-- ===== src/Sink.antt =====
-- pkg/provider/sink/sinkprov.go, and pkg/sink/interfaces.go: the last batch received, kept by name.
pub mod Latest
pub mod Earliest
pub mod RoundTrip
pub mod Contents
pub mod Locking
pub mod Snapshots
use my_learning_journey.Base.{
  ℕ, zero, suc, ◌*◌, String, Bool, Option, none, some, List, [], ◌∷◌, Result, ok, length, set,
  replicate, if◌then◌else◌, ◌==◌, string_comparable,
}
use my_learning_journey.Base.Int.{pos}
use my_learning_journey.Base.Dict.{Dict, lookup, add_absent}
use my_learning_journey.Golang.{Time, Duration, zero_time, second, after}
use my_learning_journey.Errors.{Error}
use my_learning_journey.Sources.{
  NodeMetricsPoint, ContainerMetricsPoint, PodMetricsPoint, MetricsBatch,
}
use my_learning_journey.Provider.{
  TimeInfo, NamespacedName, namespaced_name_comparable, ResourceList, ContainerMetrics,
  NodeMetricsProvider, PodMetricsProvider,
}

abbrev pub kubernetes_cadvisor_window : Duration
kubernetes_cadvisor_window = pos (30 * second)

abbrev pub zero_time_info : TimeInfo
zero_time_info = record { timestamp = zero_time; window = pos 0 }

-- The maps under the lock. The calls are in one step here, and in their single accesses of the maps
-- in Sink.Locking.
pub record SinkMetricsProvider (Quantity : Type 0) : Type 0 where
  pub nodes : Dict String (NodeMetricsPoint Quantity)
  pub pods : Dict NamespacedName (PodMetricsPoint Quantity)

-- One `if` of the loop over a pod's containers.
unfoldable pub earlier : Option Time → Time → Option Time
earlier none t = some t
earlier (some u) t = if after u t then some t else some u

-- `earliestTS`, or the zero time where there were no containers.
abbrev pub timestamp_or_zero : Option Time → Time
timestamp_or_zero none = zero_time
timestamp_or_zero (some t) = t

module _ {Quantity : Type 0} where
  -- `NewSinkProvider`: both maps are nil.
  abbrev pub new_sink_provider : SinkMetricsProvider Quantity
  new_sink_provider = record { nodes = []; pods = [] }

  abbrev pub node_time_info : NodeMetricsPoint Quantity → TimeInfo
  node_time_info p = record { timestamp = p.point.timestamp; window = kubernetes_cadvisor_window }

  abbrev pub node_usage : NodeMetricsPoint Quantity → ResourceList Quantity
  node_usage p = record { cpu = p.point.cpu_usage; memory = p.point.memory_usage }

  -- One round of the loop over the nodes.
  unfoldable pub node_round :
      Dict String (NodeMetricsPoint Quantity)
      → ℕ
      → String
      → List TimeInfo × List (Option (ResourceList Quantity))
      → List TimeInfo × List (Option (ResourceList Quantity))
  node_round points i node (timestamps, metrics) = elim (lookup node points) [
    | none ↦ (timestamps, metrics)
    | some p ↦ (set timestamps i (node_time_info p), set metrics i (some (node_usage p)))
  ]

  unfoldable pub nodes_from :
      Dict String (NodeMetricsPoint Quantity)
      → ℕ
      → List String
      → List TimeInfo × List (Option (ResourceList Quantity))
      → List TimeInfo × List (Option (ResourceList Quantity))
  unfolding node_round
  nodes_from points i [] out = out
  nodes_from points i (node ∷ nodes) out =
      nodes_from points (suc i) nodes (node_round points i node out)

  unfoldable pub get_node_metrics :
      SinkMetricsProvider Quantity
      → List String
      → Result Error (List TimeInfo × List (Option (ResourceList Quantity)))
  get_node_metrics p nodes = ok (
      nodes_from p.nodes 0 nodes
        (replicate (length nodes) zero_time_info, replicate (length nodes) none))

  abbrev pub container_metrics : ContainerMetricsPoint Quantity → ContainerMetrics Quantity
  container_metrics c = record {
    name = c.name;
    usage = some (record { cpu = c.point.cpu_usage; memory = c.point.memory_usage });
  }

  abbrev pub zero_container_metrics : ContainerMetrics Quantity
  zero_container_metrics = record { name = ""; usage = none }

  -- The loop over a pod's containers: `contMetrics` and `earliestTS`.
  unfoldable pub containers_from :
      ℕ
      → List (ContainerMetricsPoint Quantity)
      → List (ContainerMetrics Quantity)
      → Option Time
      → List (ContainerMetrics Quantity) × Option Time
  unfolding earlier
  containers_from i [] metrics earliest = (metrics, earliest)
  containers_from i (c ∷ cs) metrics earliest =
      containers_from (suc i) cs (set metrics i (container_metrics c))
        (earlier earliest c.point.timestamp)

  -- What one round of the loop over the pods writes, for a pod that is present.
  unfoldable pub pod_metrics :
      PodMetricsPoint Quantity → TimeInfo × List (ContainerMetrics Quantity)
  unfolding containers_from
  pod_metrics p =
      let (metrics, earliest) =
        containers_from 0 p.containers (replicate (length p.containers) zero_container_metrics)
          none in
      (
        record { timestamp = timestamp_or_zero earliest; window = kubernetes_cadvisor_window },
        metrics,
      )

  -- One round of the loop over the pods.
  unfoldable pub pod_round :
      Dict NamespacedName (PodMetricsPoint Quantity)
      → ℕ
      → NamespacedName
      → List TimeInfo × List (Option (List (ContainerMetrics Quantity)))
      → List TimeInfo × List (Option (List (ContainerMetrics Quantity)))
  unfolding pod_metrics
  pod_round points i pod (timestamps, metrics) = elim (lookup pod points) [
    | none ↦ (timestamps, metrics)
    | some p ↦
        let (time_info, containers) = pod_metrics p in
        (set timestamps i time_info, set metrics i (some containers))
  ]

  unfoldable pub pods_from :
      Dict NamespacedName (PodMetricsPoint Quantity)
      → ℕ
      → List NamespacedName
      → List TimeInfo × List (Option (List (ContainerMetrics Quantity)))
      → List TimeInfo × List (Option (List (ContainerMetrics Quantity)))
  unfolding pod_round
  pods_from points i [] out = out
  pods_from points i (pod ∷ pods) out = pods_from points (suc i) pods (pod_round points i pod out)

  unfoldable pub get_container_metrics :
      SinkMetricsProvider Quantity
      → List NamespacedName
      → Result Error (List TimeInfo × List (Option (List (ContainerMetrics Quantity))))
  unfolding pods_from
  get_container_metrics p pods = ok (
      pods_from p.pods 0 pods
        (replicate (length pods) zero_time_info, replicate (length pods) none))

  abbrev pub pod_ident : PodMetricsPoint Quantity → NamespacedName
  pod_ident p = record { namespace = p.namespace; name = p.name }

  -- Of points with one key the first is kept, the others are dropped. The new state, and the error.
  unfoldable pub receive :
      SinkMetricsProvider Quantity
      → MetricsBatch Quantity
      → SinkMetricsProvider Quantity × Option Error
  unfolding add_absent
  receive p batch = (
    record p {
      nodes = add_absent (λ n. n.name) [] batch.nodes;
      pods = add_absent pod_ident [] batch.pods;
    },
    none,
  )

  -- The provider as the API's storage sees it.
  unfoldable pub node_metrics_provider : SinkMetricsProvider Quantity → NodeMetricsProvider Quantity
  node_metrics_provider p = record { get_node_metrics = get_node_metrics p }

  unfoldable pub pod_metrics_provider : SinkMetricsProvider Quantity → PodMetricsProvider Quantity
  pod_metrics_provider p = record { get_container_metrics = get_container_metrics p }
