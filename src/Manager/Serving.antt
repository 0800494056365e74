-- ===== src/Manager/Serving.antt =====
-- The manager over the sink provider: what the API's queries read after a cycle.
use my_learning_journey.Base.{some, List, ◌∷◌, ◌≡◌, refl, ◌∙◌, String, ok}
use my_learning_journey.Golang.{Time}
use my_learning_journey.Sources.{MetricsBatch, MetricSource}
use my_learning_journey.Provider.{NamespacedName}
use my_learning_journey.Sink.{
  SinkMetricsProvider, new_sink_provider, receive, get_node_metrics, get_container_metrics,
}
use my_learning_journey.Sink.Latest.{
  node_in, pod_in, node_answers, pod_answers, get_node_metrics-receive,
  get_container_metrics-receive,
}
use my_learning_journey.Manager.{MetricSink, Manager, State, Phase, Cycle, Reach}
use my_learning_journey.Manager.Cycles.{answer, stored_after, IsAfter, Reach-IsAfter}

-- The sink that the server gives to the manager.
abbrev pub provider_sink : {Quantity : Type 0} → MetricSink (SinkMetricsProvider Quantity) Quantity
provider_sink = record { receive = receive }

module _ {Quantity : Type 0} (source : MetricSource Quantity) (resolution : Time) where
  abbrev pub server : Manager (SinkMetricsProvider Quantity) Quantity
  server = record { source = source; sink = provider_sink; resolution = resolution }

  -- What the sink holds once a cycle is finished.
  pub Reach-stored :
      (log : List Cycle) (c : Cycle) (s : State (SinkMetricsProvider Quantity)) (phase : Phase)
      (batch : MetricsBatch Quantity)
      → Reach server new_sink_provider (c ∷ log) s phase
      → (answer server new_sink_provider c).batch ≡ some batch
      → s.stored ≡ (receive (stored_after server new_sink_provider log) batch).0
  unfolding IsAfter
  Reach-stored log c s phase batch r e =
      (Reach-IsAfter server new_sink_provider (c ∷ log) s phase r).0 ∙ rw (e, stored_after) refl

  -- Once a cycle is finished the queries for nodes and for pods are answered from its batch alone,
  -- at every moment until the next cycle is finished.
  pub Reach-answers :
      (log : List Cycle) (c : Cycle) (s : State (SinkMetricsProvider Quantity)) (phase : Phase)
      (batch : MetricsBatch Quantity) (nodes : List String) (pods : List NamespacedName)
      → Reach server new_sink_provider (c ∷ log) s phase
      → (answer server new_sink_provider c).batch ≡ some batch
      → (get_node_metrics s.stored nodes ≡ ok (node_answers (node_in batch) nodes))
        × (get_container_metrics s.stored pods ≡ ok (pod_answers (pod_in batch) pods))
  Reach-answers log c s phase batch nodes pods r e =
      let before = stored_after server new_sink_provider log in
      rw (Reach-stored log c s phase batch r e) (
        get_node_metrics-receive before batch nodes,
        get_container_metrics-receive before batch pods,
      )
