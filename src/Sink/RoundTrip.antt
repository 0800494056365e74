-- ===== src/Sink/RoundTrip.antt =====
-- What Receive stores, read back by the names of the batch.
use mathlib.Core.Option
use mathlib.Core.List.{map-map}
use mathlib.Core.Path.{ap₂}
use my_learning_journey.Base.{◌≡◌, sym, ap, ◌∙◌, Option, some, List, map, ok, string_comparable}
use my_learning_journey.Base.Find.{Identifies, find?-map}
use my_learning_journey.Sources.{MetricsBatch}
use my_learning_journey.Provider.{namespaced_name_comparable}
use my_learning_journey.Sink.{
  SinkMetricsProvider, zero_time_info, node_time_info, node_usage, get_node_metrics, pod_metrics,
  get_container_metrics, pod_ident, receive,
}
use my_learning_journey.Sink.Latest.{
  node_in, pod_in, get_node_metrics-receive, get_container_metrics-receive,
}

-- A function of what is found, over names that all are.
map-found :
    {A B K : Type 0} (g : Option A → B) (find : K → Option A) (names : List K) (xs : List A)
    → map find names ≡ map (λ x. some x) xs
    → map (λ n. g (find n)) names ≡ map (λ x. g (some x)) xs
map-found g find names xs e =
    sym (map-map g find names) ∙ ap (λ l. map g l) e ∙ map-map g (λ x. some x) xs

module _ {Quantity : Type 0} (p : SinkMetricsProvider Quantity)
    (batch : MetricsBatch Quantity) where
  -- Where no two points of a batch share a name, the sink that has received the batch gives the
  -- points back: a query for the batch's nodes, or for its pods, answers with the time and the
  -- amounts of each point, in the order of the batch. What the sink held before does not matter.
  pub receive-RoundTrip :
      Identifies (λ q. q.name) batch.nodes
      → Identifies pod_ident batch.pods
      → (get_node_metrics (receive p batch).0 (map (λ q. q.name) batch.nodes)
          ≡ ok (map node_time_info batch.nodes, map (λ q. some (node_usage q)) batch.nodes))
        × (get_container_metrics (receive p batch).0 (map pod_ident batch.pods)
            ≡ ok (
              map (λ q. (pod_metrics q).0) batch.pods,
              map (λ q. some (pod_metrics q).1) batch.pods,
            ))
  receive-RoundTrip nodes_once pods_once =
      let names = map (λ q. q.name) batch.nodes in
      let idents = map pod_ident batch.pods in
      let nodes = find?-map (λ q. q.name) batch.nodes batch.nodes nodes_once (λ y m. m) in
      let pods = find?-map pod_ident batch.pods batch.pods pods_once (λ y m. m) in
      (
        get_node_metrics-receive p batch names
            ∙ ap (λ r. ok r)
                (ap₂ (λ ts us. (ts, us))
                  (map-found (λ o. Option.get_or (Option.map node_time_info o) zero_time_info)
                    (node_in batch) names batch.nodes nodes)
                  (map-found (λ o. Option.map node_usage o) (node_in batch) names batch.nodes
                    nodes)),
        get_container_metrics-receive p batch idents
            ∙ ap (λ r. ok r)
                (ap₂ (λ ts us. (ts, us))
                  (map-found
                    (λ o. Option.get_or (Option.map (λ q. (pod_metrics q).0) o) zero_time_info)
                    (pod_in batch) idents batch.pods pods)
                  (map-found (λ o. Option.map (λ q. (pod_metrics q).1) o) (pod_in batch) idents
                    batch.pods pods)),
      )
