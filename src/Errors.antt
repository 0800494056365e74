-- ===== src/Errors.antt =====
-- The error values of the program: a constructor for each format that it builds, with its
-- arguments.
use my_learning_journey.Base.{List, String}
use my_learning_journey.Base.Int.{ℤ}

pub data Error : Type 0 where
  -- An error made outside the program, by its message.
  foreign : (message : String) → Error
  -- `errors.NewNotFound(resource, name)`
  not_found : (resource name : String) → Error
  -- pkg/sources/summary/summary.go
  missing_cpu missing_memory no_timestamp : Error
  fetch_failed : (node address : String) → Error → Error
  node_timestamp node_cpu node_memory : (address : String) → Error → Error
  container_timestamp container_cpu container_memory :
      (container namespace pod address : String) → Error → Error
  list_nodes : Error → Error
  connection_info : (node : String) → Error → Error
  -- pkg/sources/summary/addrs.go
  no_address : (node : String) (types : List String) → Error
  -- pkg/sources/manager.go
  scrape_failed : (source : String) → Error → Error
  -- pkg/storage/nodemetrics/reststorage.go, pkg/storage/podmetrics/reststorage.go
  listing_nodes fetching_node_metrics : (selector : String) → Error → Error
  listing_pods fetching_pod_metrics : (selector namespace : String) → Error → Error
  getting_pod : (name : String) → Error → Error
  -- pkg/manager/manager.go; the durations are in nanoseconds
  stale_tick : (tick_wait max_tick_wait : ℤ) → Error
  unhealthy_tick : Error
  -- pkg/sources/summary/client.go, pkg/sources/summary/configs.go
  kubelet_not_found : (endpoint : String) → Error
  unread_body transport : Error → Error
  request_failed : (status body : String) → Error
  unparsed_output : (body : String) → Error → Error
  -- cmd/metrics-server/app/start.go
  self_signed_certs lister_config lister_client kubelet_client : Error → Error
