-- ===== src/Api/Serving.antt =====
-- The API from its installed storages down to the manager: what a request reads after a cycle.
use my_learning_journey.Base.{
  ℕ, ◌≡◌, refl, Bool, String, Option, none, some, List, ◌∷◌, Result, ok, err, Run, returns,
  string_comparable, [], if◌then◌else◌, ◌==◌, ◌∙◌,
}
use my_learning_journey.Base.Dict.{Dict, insert, lookup, lookup-insert}
use my_learning_journey.Golang.{Time, Duration}
use my_learning_journey.Errors.{Error}
use my_learning_journey.Sources.{MetricsBatch, MetricSource}
use my_learning_journey.Sink.{
  SinkMetricsProvider, new_sink_provider, node_time_info, node_usage, node_metrics_provider,
  pod_metrics_provider,
}
use my_learning_journey.Sink.Latest.{node_in}
use my_learning_journey.Manager.{State, Phase, Cycle, Reach}
use my_learning_journey.Manager.Cycles.{answer, stored_after}
use my_learning_journey.Manager.Serving.{server, Reach-stored}
use my_learning_journey.Storage.Nodes as Nodes
use my_learning_journey.Storage.Nodes.{NodeMetrics, node_item}
use my_learning_journey.Storage.Nodes.Answers.{get-served}
use my_learning_journey.Storage.Pods as Pods
use my_learning_journey.Storage.Pods.Served.{get_answer, pods_get-served}
use my_learning_journey.Api.Generic.{
  Storage, node_storage, pod_storage, ApiGroupInfo, MetricsApi, Informers, build_storage,
}

-- The storage that serves a resource of a version of the API group.
abbrev pub storage_of :
    {Quantity : Type 0}
    → ApiGroupInfo Quantity
    → (version resource : String) → Option (Storage Quantity)
storage_of info version resource = elim (lookup version info.versioned_resources_storage_map) [
  | none ↦ none
  | some resources ↦ lookup resource resources
]

module _ {Quantity : Type 0} (api : MetricsApi) (informers : Informers) where
  -- The API group over the sink's two providers, as they answer at one moment.
  abbrev pub group_over : SinkMetricsProvider Quantity → ApiGroupInfo Quantity
  group_over stored =
      build_storage api
        (record { node = node_metrics_provider stored; pod = pod_metrics_provider stored })
        informers

  abbrev pub nodes_over : SinkMetricsProvider Quantity → Nodes.MetricStorage Quantity
  nodes_over stored =
      Nodes.new_storage (api.resource "nodemetrics") (node_metrics_provider stored) informers.nodes

  abbrev pub pods_over : SinkMetricsProvider Quantity → Pods.MetricStorage Quantity
  pods_over stored =
      Pods.new_storage (api.resource "podmetrics") (pod_metrics_provider stored) informers.pods

  abbrev pub resources_over : SinkMetricsProvider Quantity → Dict String (Storage Quantity)
  resources_over stored =
      ("nodes", node_storage (nodes_over stored)) ∷ ("pods", pod_storage (pods_over stored)) ∷ []

  storage_of-resources :
      (stored : SinkMetricsProvider Quantity) (resource : String)
      → storage_of (group_over stored) api.version resource
        ≡ lookup resource (resources_over stored)
  unfolding build_storage
  storage_of-resources stored resource =
      let found : lookup api.version (insert api.version (resources_over stored) [])
          ≡ some (resources_over stored) =
        lookup-insert api.version api.version (resources_over stored) []
        ∙ rw ((string_comparable.equal_iff api.version api.version).1 refl) refl in
      rw (found, storage_of) refl

  lookup-resources :
      (stored : SinkMetricsProvider Quantity) (resource : String)
      → lookup resource (resources_over stored) ≡ (
          if "nodes" == resource
          then some (node_storage (nodes_over stored))
          else if "pods" == resource
          then some (pod_storage (pods_over stored))
          else none)
  unfolding lookup
  lookup-resources stored resource = refl

  -- After a finished cycle the API group has a storage for nodes and one for pods, at its version,
  -- and no other. Until the next cycle is finished, Get of a node answers with the first point of
  -- the cycle's batch that has the name, and with a not-found error where there is none; Get of a
  -- pod, on every answer of the lister, answers from the batch in the same way.
  pub installed-serves :
      (source : MetricSource Quantity) (resolution : Duration) (log : List Cycle) (c : Cycle)
      (s : State (SinkMetricsProvider Quantity)) (phase : Phase) (batch : MetricsBatch Quantity)
      → Reach (server source resolution) new_sink_provider (c ∷ log) s phase
      → (answer (server source resolution) new_sink_provider c).batch ≡ some batch
      → ((resource : String)
          → storage_of (group_over s.stored) api.version resource ≡ (
              if "nodes" == resource
              then some (node_storage (nodes_over s.stored))
              else if "pods" == resource
              then some (pod_storage (pods_over s.stored))
              else none))
        × ((now : ℕ → Time) (name : String)
            → Nodes.get (nodes_over s.stored) now name
              ≡ (elim (node_in batch name) as (λ _. Run (Result Error (NodeMetrics Quantity))) [
                | none ↦ returns (err (Error.not_found (api.resource "nodemetrics") name))
                | some q ↦ returns (ok (node_item (now 0) name (node_time_info q) (node_usage q)))
              ]))
        × ((is_not_found : Error → Bool) (now : ℕ → Time) (namespace name : String)
            → Pods.get is_not_found (pods_over s.stored) now namespace name
              ≡ returns (
                  get_answer
                    (stored_after (server source resolution) new_sink_provider log)
                    batch
                    (api.resource "podmetrics")
                    informers.pods
                    is_not_found
                    (now 0)
                    namespace
                    name
                    (informers.pods.get namespace name)))
  installed-serves source resolution log c s phase batch r e =
      let before = stored_after (server source resolution) new_sink_provider log in
      let same = Reach-stored source resolution log c s phase batch r e in
      (
        (λ resource. storage_of-resources s.stored resource ∙ lookup-resources s.stored resource),
        (λ now name.
            rw same
              (get-served before batch (api.resource "nodemetrics") informers.nodes now name)),
        (λ is_not_found now namespace name. rw same (
            pods_get-served before batch (api.resource "podmetrics") informers.pods is_not_found now
              namespace name)),
      )
