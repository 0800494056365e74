-- ===== src/Tests/Summaries.antt =====
-- A kubelet's summary decoded, node addresses, and the kubelet client.
use mathlib.Core.List.{filter_map}
use my_learning_journey.Base.{
  ℕ, ◌^◌, ◌≤◌, ◌≡◌, ◌≢◌, ◌↔◌, refl, String, true, false, none, some, [], ◌∷◌, ok, length, All,
  arith, err, if◌then◌else◌, ◌==◌, string_comparable,
}
use my_learning_journey.Base.Int.{◌+ℤ◌, ℤ, pos}
use my_learning_journey.Golang.{sub, background, max_int64}
use my_learning_journey.Sources.{MetricsPoint, Event}
use my_learning_journey.Sources.Summary.{decode_summary, get_scrape_time, uint64_quantity, collect}
use my_learning_journey.Sources.Summary.Batch.{decode_summary-pods, decode_summary-nodes}
use my_learning_journey.Sources.Summary.Points.{point?, pod_point?}
use my_learning_journey.Sources.Summary.ScrapeTime.{
  IsLeast, reported_times, get_scrape_time-IsLeast,
}
use my_learning_journey.Sources.Summary.Amounts.{Represents, uint64_quantity-Represents}
use my_learning_journey.Sources.Summary.Collecting.{Returns, collect-Returns}
use my_learning_journey.Sources.Addresses.{
  Node, node_address, NodeAddressResolver, new_priority_node_address_resolver,
  default_address_type_priority,
}
use my_learning_journey.Sources.Addresses.Priority.{Resolves, node_address-Resolves}
use my_learning_journey.Sources.Provider.{get_metric_sources}
use my_learning_journey.Sources.Provider.Nodes.{source_of, get_metric_sources_lem}
use my_learning_journey.Sources.Kubelet.{
  Network, KubeletClient, new_kubelet_client, summary_url, get_summary, RestConfig, Anonymous,
  get_kubelet_config, kubelet_client_for,
}
use my_learning_journey.Sources.Kubelet.Answers.{Fetches, get_summary_iff}
use my_learning_journey.Sources.Fetching.{kubelet_interface, IsScraped, collect-IsScraped}
use my_learning_journey.Sources.Stats.{Summary}
use my_learning_journey.Errors.{Error}
use my_learning_journey.Tests.{
  Amount, amounts, packages, packages-IsAggregate, at, node, address, cpu, memory, summary, info,
  kubelet,
}

decode_summary-pods_example :
    (decode_summary amounts info summary).0.pods ≡ filter_map (pod_point? amounts) summary.pods
decode_summary-pods_example = decode_summary-pods amounts info summary

decode_summary-nodes_example :
    (length (decode_summary amounts info summary).0.nodes ≡ 1)
    × ((p : MetricsPoint Amount)
        → point? amounts summary.node.cpu summary.node.memory ≡ some p
        → (decode_summary amounts info summary).0.nodes ≡ record { name = "n1"; point = p } ∷ [])
decode_summary-nodes_example = decode_summary-nodes amounts info summary

collect-Returns_example :
    Returns amounts packages kubelet info
      (ok summary)
      (collect amounts packages kubelet info background (at 6))
    × ((collect amounts packages kubelet info background (at 6)).events
        ≡ Event.request_latency "n1" (pos 1000) ∷ Event.scrape_total true ∷ [])
unfolding sub ◌+ℤ◌
collect-Returns_example =
    collect-Returns amounts packages kubelet info packages-IsAggregate background (at 6)

get_scrape_time-IsLeast_example : IsLeast (reported_times cpu memory) (get_scrape_time cpu memory)
get_scrape_time-IsLeast_example = get_scrape_time-IsLeast cpu memory

uint64_quantity-Represents_example :
    (value : ℕ) × (scale' : ℤ) × (uint64_quantity amounts (2 ^ 63) (pos 0)
      ≡ amounts.new_scaled_quantity (pos value) scale')
    × (value ≤ max_int64)
    × Represents (2 ^ 63) (pos 0) value scale'
uint64_quantity-Represents_example =
    uint64_quantity-Represents amounts (2 ^ 63) (pos 0) (omega arith)

abbrev pub reached : Node
reached = node "n1" (address "ExternalIP" "1.2.3.4" ∷ address "InternalIP" "10.0.0.1" ∷ [])

abbrev unreached : Node
unreached = node "n2" []

node_address-Resolves_example :
    Resolves default_address_type_priority reached
      (node_address default_address_type_priority reached)
node_address-Resolves_example = node_address-Resolves default_address_type_priority reached

abbrev pub resolver : NodeAddressResolver
resolver = new_priority_node_address_resolver default_address_type_priority

get_metric_sources_lem_example :
    ((get_metric_sources amounts packages kubelet resolver (ok (reached ∷ unreached ∷ []))).0
      ≡ filter_map (source_of amounts packages kubelet resolver) (reached ∷ unreached ∷ []))
    × (((get_metric_sources amounts packages kubelet resolver (ok (reached ∷ unreached ∷ []))).1
          ≡ none)
        ↔ All
            (λ n. source_of amounts packages kubelet resolver n ≢ none)
            (reached ∷ unreached ∷ []))
get_metric_sources_lem_example =
    get_metric_sources_lem amounts packages kubelet resolver packages-IsAggregate
      (ok (reached ∷ unreached ∷ []))

-- A network on which the host "up" answers; a client is named by its transport.
abbrev pub network : Network String String (RestConfig String String) ℕ
network = record {
  new_request = λ url. ok url.host;
  endpoint = λ req. req;
  send = λ client ctx req. ok (record { status_code = 200; status = "OK"; body = ok req });
  join_host_port = λ host port. host;
  unmarshal = λ body. (7, none);
  empty_summary = 0;
  default_transport = "default";
  transport_for = λ config. ok config.rest;
}

abbrev client : KubeletClient String
client = new_kubelet_client "rest" (pos 10250) false

get_summary_iff_example : (get_summary network client background "up" ≡ (some 7, none)) ↔ (
    (req : String) × (network.new_request
        (summary_url network.join_host_port false (pos 10250) "up")
      ≡ ok req)
    × Fetches network "rest" background req 7)
get_summary_iff_example = get_summary_iff network client background "up" 7

abbrev pub anonymous : Anonymous String String
anonymous = record {
  anonymous_client_config = λ config. record config { rest = "anonymous" };
  no_tls = record { insecure = false; ca_data = none; ca_file = ""; other = "" };
}

abbrev pub config : RestConfig String String
config = record { tls_client_config = anonymous.no_tls; rest = "secret" }

abbrev made : KubeletClient String
made = new_kubelet_client "anonymous" (pos 10255) true

made_for :
    kubelet_client_for network (get_kubelet_config anonymous config (pos 10255) false true).0
    ≡ ok made
unfolding kubelet_client_for get_kubelet_config
made_for = refl

-- A network whose only host is the node's address, and whose answers parse to the summary.
abbrev pub cluster_for :
    {Config : Type 0} → (Config → String) → Network String String Config Summary
cluster_for transport_of = record {
  new_request = λ url. ok url.host;
  endpoint = λ req. req;
  send = λ client ctx req.
      if req == "10.0.0.1"
      then ok (record { status_code = 200; status = "OK"; body = ok req })
      else err (Error.foreign "no route");
  join_host_port = λ host port. host;
  unmarshal = λ body. (summary, none);
  empty_summary = record { node = record { cpu = none; memory = none }; pods = [] };
  default_transport = "default";
  transport_for = λ config. ok (transport_of config);
}

abbrev cluster : Network String String String Summary
cluster = cluster_for (λ config. config)

collect-IsScraped_example :
    IsScraped
      (λ now. cluster)
      client
      (λ ctx host now. at 9)
      amounts
      packages
      info
      background
      (at 8)
      (collect amounts packages
        (kubelet_interface (λ now. cluster) client (λ ctx host now. at 9))
        info
        background
        (at 8))
collect-IsScraped_example =
    collect-IsScraped (λ now. cluster) client (λ ctx host now. at 9) amounts packages info
      packages-IsAggregate background (at 8)
