-- ===== src/Api/Generic.antt =====
-- pkg/apiserver/generic/storage.go: the storages by the names of their resources.
use my_learning_journey.Base.{String, [], ◌∷◌, Result, string_comparable}
use my_learning_journey.Base.Dict.{Dict, insert}
use my_learning_journey.Errors.{Error}
use my_learning_journey.Provider.{NodeMetricsProvider, PodMetricsProvider}
use my_learning_journey.Storage.Nodes as Nodes
use my_learning_journey.Storage.Pods as Pods

pub record ProviderConfig (Quantity : Type 0) : Type 0 where
  pub node : NodeMetricsProvider Quantity
  pub pod : PodMetricsProvider Quantity

-- The listers of the shared informers.
pub record Informers : Type 0 where
  pub nodes : Nodes.NodeLister
  pub pods : Pods.PodLister

-- `rest.Storage`, of one of the two packages.
pub data Storage (Quantity : Type 0) : Type 0 where
  node_storage : Nodes.MetricStorage Quantity → Storage Quantity
  pod_storage : Pods.MetricStorage Quantity → Storage Quantity

-- `APIGroupInfo`, with the fields that are set: storages by version, then by resource.
pub record ApiGroupInfo (Quantity : Type 0) : Type 0 where
  pub group : String
  pub versioned_resources_storage_map : Dict String (Dict String (Storage Quantity))

-- What the API's package says: its group and version, and `metrics.Resource`.
pub record MetricsApi : Type 0 where
  pub group_name : String
  pub version : String
  pub resource : String → String

module _ {Quantity : Type 0} (api : MetricsApi) where
  unfoldable pub build_storage : ProviderConfig Quantity → Informers → ApiGroupInfo Quantity
  build_storage providers informers =
      let nodemetrics_storage : Nodes.MetricStorage Quantity =
        Nodes.new_storage (api.resource "nodemetrics") providers.node informers.nodes in
      let podmetrics_storage : Pods.MetricStorage Quantity =
        Pods.new_storage (api.resource "podmetrics") providers.pod informers.pods in
      let metrics_server_resources : Dict String (Storage Quantity) =
        ("nodes", node_storage nodemetrics_storage)
        ∷ ("pods", pod_storage podmetrics_storage)
        ∷ [] in
      record {
        group = api.group_name;
        versioned_resources_storage_map = insert api.version metrics_server_resources [];
      }

  -- `install_api_group` is the server's method, which changes the server.
  unfoldable pub install_storage :
      {Server : Type 0}
      → (install_api_group : ApiGroupInfo Quantity → Server → Result Error Server)
      → ProviderConfig Quantity
      → Informers
      → Server
      → Result Error Server
  install_storage install_api_group providers informers server =
      install_api_group (build_storage providers informers) server
