-- ===== src/Sink/Contents.antt =====
-- What the sink holds, as its queries see it: the points of a batch, whatever their order.
use native.Mathlib.Decide.{ℕ_discrete}
use mathlib.Core.List.{Perm}
use mathlib.Core.Path.{fun_ext}
use mathlib.Core.Quot
use mathlib.Core.Quot.{Quot, Quot-set}
use my_learning_journey.Base.{◌≡◌, String, Option, List, ok, string_comparable}
use my_learning_journey.Base.Find.{Identifies, find?-perm}
use my_learning_journey.Base.Sets.{String-set}
use my_learning_journey.Sources.{MetricsBatch, NodeMetricsPoint, PodMetricsPoint}
use my_learning_journey.Provider.{NamespacedName, namespaced_name_comparable}
use my_learning_journey.Sink.{
  SinkMetricsProvider, get_node_metrics, get_container_metrics, pod_ident, receive,
}
use my_learning_journey.Sink.Latest.{
  node_in, pod_in, node_answers, pod_answers, get_node_metrics-receive,
  get_container_metrics-receive,
}

module _ {Quantity : Type 0} (quantities_set : IsSet Quantity) where
  -- A batch whose nodes, and whose pods, are told apart by their names.
  pub record NamedBatch : Type 0 where
    pub batch : MetricsBatch Quantity
    pub nodes_once : Identifies (λ x. x.name) batch.nodes
    pub pods_once : Identifies pod_ident batch.pods

  abbrev pub SamePoints : NamedBatch → NamedBatch → Type 0
  SamePoints a b = Perm a.batch.nodes b.batch.nodes × Perm a.batch.pods b.batch.pods

  -- Batches up to the order of their points.
  abbrev pub Contents : Type 0
  Contents = Quot SamePoints

  pub node_maps_set : IsSet (String → Option (NodeMetricsPoint Quantity))
  node_maps_set = hlevel (quantities_set, String-set, ℕ_discrete)

  pub pod_maps_set : IsSet (NamespacedName → Option (PodMetricsPoint Quantity))
  pod_maps_set = hlevel (quantities_set, String-set, ℕ_discrete)

  -- The points by name are those of any batch of the class.
  unfoldable pub node_of : Contents → String → Option (NodeMetricsPoint Quantity)
  node_of =
      Quot.lift node_maps_set (λ a. node_in a.batch)
        (λ a b same.
          fun_ext (λ n. find?-perm (λ x. x.name) a.batch.nodes b.batch.nodes same.0 a.nodes_once n))

  unfoldable pub pod_of : Contents → NamespacedName → Option (PodMetricsPoint Quantity)
  pod_of =
      Quot.lift pod_maps_set (λ a. pod_in a.batch)
        (λ a b same.
          fun_ext (λ n. find?-perm pod_ident a.batch.pods b.batch.pods same.1 a.pods_once n))

  -- A sink answers every query as these contents say.
  abbrev pub Shows : SinkMetricsProvider Quantity → Contents → Type 0
  Shows p contents =
      (names : List String) (idents : List NamespacedName)
      → (get_node_metrics p names ≡ ok (node_answers (node_of contents) names))
        × (get_container_metrics p idents ≡ ok (pod_answers (pod_of contents) idents))

  -- Receive replaces the contents.
  pub receive-Shows :
      (p : SinkMetricsProvider Quantity) (a : NamedBatch) → Shows (receive p a.batch).0 (Quot.mk a)
  unfolding node_of pod_of
  receive-Shows p a names idents =
      (get_node_metrics-receive p a.batch names, get_container_metrics-receive p a.batch idents)
