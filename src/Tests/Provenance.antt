-- ===== src/Tests/Provenance.antt =====
-- A server with the default options, whose manager has finished a cycle over a cluster of one node.
use my_learning_journey.Base.{◌≡◌, refl, String, some, List, [], ◌∷◌, ok}
use my_learning_journey.Golang.{Time, Context}
use my_learning_journey.Sources.{NodeMetricsPoint, PodMetricsPoint}
use my_learning_journey.Sources.Addresses.{Node}
use my_learning_journey.Sources.Stats.{Summary, KubeletInterface}
use my_learning_journey.Sources.Kubelet.{Network, RestConfig}
use my_learning_journey.Sources.Fetching.{kubelet_interface}
use my_learning_journey.Provider.{NamespacedName, TimeInfo, ResourceList, ContainerMetrics}
use my_learning_journey.Sink.{
  get_node_metrics, get_container_metrics, node_time_info, node_usage, pod_ident, pod_metrics,
}
use my_learning_journey.Manager.{waiting}
use my_learning_journey.Server.{new_metrics_server_options}
use my_learning_journey.Server.Provenance.{NodeFetched, PodFetched, served-Fetched}
use my_learning_journey.Tests.{Amount, amounts, packages, packages-IsAggregate, at}
use my_learning_journey.Tests.Summaries.{cluster_for, reached}
use my_learning_journey.Tests.Starting.{environment, server, ran, started}
use my_learning_journey.Tests.Kubelets.{
  source, source-IsSourceManager, cycle, after_cycle, cycle_run,
}

abbrev net_at : Time → Network String String (RestConfig String String) Summary
net_at now = cluster_for (λ config. config.rest)

abbrev finished_at : Context → String → Time → Time
finished_at ctx host now = at 9

abbrev nodes_at : Time → List Node
nodes_at now = reached ∷ []

abbrev client : KubeletInterface
client = kubelet_interface net_at server.kubelet_client finished_at

abbrev NodeCame : NodeMetricsPoint Amount → Type 0
NodeCame =
    NodeFetched environment new_metrics_server_options amounts packages net_at finished_at nodes_at
      (at 10)

abbrev PodCame : PodMetricsPoint Amount → Type 0
PodCame =
    PodFetched environment new_metrics_server_options amounts packages net_at finished_at nodes_at
      (at 10)

served-Fetched_example :
    ((name : String) (t : TimeInfo) (u : ResourceList Amount)
      → get_node_metrics (after_cycle client server.scrape_timeout).stored (name ∷ [])
        ≡ ok (t ∷ [], some u ∷ [])
      → ∥ (
          (p : NodeMetricsPoint Amount) × NodeCame p
          × (p.name ≡ name)
          × (t ≡ node_time_info p)
          × (u ≡ node_usage p)) ∥₁)
    × ((ident : NamespacedName) (t : TimeInfo) (cs : List (ContainerMetrics Amount))
        → get_container_metrics (after_cycle client server.scrape_timeout).stored (ident ∷ [])
          ≡ ok (t ∷ [], some cs ∷ [])
        → ∥ (
            (p : PodMetricsPoint Amount) × PodCame p
            × (pod_ident p ≡ ident)
            × (t ≡ (pod_metrics p).0)
            × (cs ≡ (pod_metrics p).1)) ∥₁)
served-Fetched_example =
    served-Fetched environment new_metrics_server_options amounts packages net_at finished_at
      nodes_at [] ran server (source client server.scrape_timeout) [] cycle
      (after_cycle client server.scrape_timeout) waiting packages-IsAggregate started refl
      (source-IsSourceManager client server.scrape_timeout) (cycle_run client server.scrape_timeout)
