-- ===== src/Sink/Locking.antt =====
-- pkg/provider/sink/sinkprov.go: the calls of the sink under its RWMutex, in their single accesses
-- of the two maps, as any number of goroutines make them.
use my_learning_journey.Base.{
  ℕ, suc, ◌⊎◌, inl, inr, String, Option, none, List, [], ◌∷◌, Result, ok, length, replicate,
  string_comparable,
}
use my_learning_journey.Base.Dict.{add_absent}
use my_learning_journey.Errors.{Error}
use my_learning_journey.Sources.{MetricsBatch}
use my_learning_journey.Provider.{
  TimeInfo, NamespacedName, namespaced_name_comparable, ResourceList, ContainerMetrics,
}
use my_learning_journey.Golang.RwMutex.{Guarded}
use my_learning_journey.Golang.RwMutex.Progress.{}
use my_learning_journey.Sink.{SinkMetricsProvider, zero_time_info, node_round, pod_round, pod_ident}

pub data Query : Type 0 where
  of_nodes : List String → Query
  of_pods : List NamespacedName → Query

-- The two loops: the index, the names that are left, and the two slices so far.
pub data Cursor (Quantity : Type 0) : Type 0 where
  at_node :
      ℕ → List String → List TimeInfo × List (Option (ResourceList Quantity)) → Cursor Quantity
  at_pod :
      ℕ
      → List NamespacedName
      → List TimeInfo × List (Option (List (ContainerMetrics Quantity)))
      → Cursor Quantity

pub data Answer (Quantity : Type 0) : Type 0 where
  nodes_answer :
      Result Error (List TimeInfo × List (Option (ResourceList Quantity))) → Answer Quantity
  pods_answer :
      Result Error (List TimeInfo × List (Option (List (ContainerMetrics Quantity))))
      → Answer Quantity

module _ {Quantity : Type 0} where
  -- After `RLock`: the slices are made.
  unfoldable pub start_query : Query → Cursor Quantity
  start_query (of_nodes nodes) =
      at_node 0 nodes (replicate (length nodes) zero_time_info, replicate (length nodes) none)
  start_query (of_pods pods) =
      at_pod 0 pods (replicate (length pods) zero_time_info, replicate (length pods) none)

  -- One round of a loop, with its access of the map, or the return at its end.
  unfoldable pub advance_query :
      SinkMetricsProvider Quantity → Cursor Quantity → Cursor Quantity ⊎ Answer Quantity
  unfolding node_round pod_round
  advance_query p (at_node i [] out) = inr (nodes_answer (ok out))
  advance_query p (at_node i (node ∷ nodes) out) =
      inl (at_node (suc i) nodes (node_round p.nodes i node out))
  advance_query p (at_pod i [] out) = inr (pods_answer (ok out))
  advance_query p (at_pod i (pod ∷ pods) out) =
      inl (at_pod (suc i) pods (pod_round p.pods i pod out))

  -- The assignments of `Receive` after `Lock`: its maps are filled before.
  unfoldable pub receive_writes :
      MetricsBatch Quantity → List (SinkMetricsProvider Quantity → SinkMetricsProvider Quantity)
  unfolding add_absent
  receive_writes batch =
      let new_nodes = add_absent (λ n. n.name) [] batch.nodes in
      let new_pods = add_absent pod_ident [] batch.pods in
      (λ p. record p { nodes = new_nodes }) ∷ (λ p. record p { pods = new_pods }) ∷ []

  unfoldable pub locked_sink :
      Guarded
        (SinkMetricsProvider Quantity)
        Query
        (Cursor Quantity)
        (Answer Quantity)
        (MetricsBatch Quantity)
  unfolding start_query advance_query receive_writes
  locked_sink = record { start = start_query; advance = advance_query; writes = receive_writes }
