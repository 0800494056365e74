-- ===== src/Server.antt =====
-- cmd/metrics-server/app/start.go: the options of the server, and how `Run` puts its parts
-- together.
pub mod Settings
pub mod Registration
pub mod Startup
pub mod InTime
pub mod Provenance
pub mod Command
use my_learning_journey.Base.{
  ℕ, ◌*◌, String, Bool, true, false, Option, none, some, List, [], ◌∷◌, Result, ok, err,
  if◌then◌else◌, ◌==◌, string_comparable, Run, returns, ◌>>=◌, replicate, length, set, suc, zero,
}
use my_learning_journey.Base.Int.{ℤ, pos}
use my_learning_journey.Golang.{Time, Duration, second}
use my_learning_journey.Float.{scrape_timeout_of}
use my_learning_journey.Errors.{Error}
use my_learning_journey.Sources.Addresses.{
  NodeAddressResolver, default_address_type_priority, new_priority_node_address_resolver,
}
use my_learning_journey.Sources.Kubelet.{
  Network, KubeletClient, RestConfig, TlsClientConfig, Anonymous, KubeletClientConfig,
  get_kubelet_config, kubelet_client_for,
}
use my_learning_journey.Sources.Summary.Latency as Latency
use my_learning_journey.Sources.SourceManager.Durations as Scraper
use my_learning_journey.Manager.Durations as Tick
use my_learning_journey.Metrics.Histograms.{Prometheus}
use my_learning_journey.Version.{Build, Runtime}
use my_learning_journey.Sink.{
  SinkMetricsProvider, new_sink_provider, node_metrics_provider, pod_metrics_provider,
}
use my_learning_journey.Sources.{MetricSource}
use my_learning_journey.Manager.{State, check_health}
use my_learning_journey.Manager.Serving as Serving
use my_learning_journey.Api.{GenericConfig, ServerLibrary, complete, new_metrics_server}
use my_learning_journey.Api.Generic.{Informers, MetricsApi}

-- The options that the program reads itself; those of the apiserver library are in the environment.
pub record MetricsServerOptions : Type 0 where
  pub kubeconfig : String
  pub disable_auth_for_testing : Bool
  pub metric_resolution : Duration
  pub kubelet_port : ℤ
  pub insecure_kubelet_tls : Bool
  pub kubelet_preferred_address_types : List String
  pub kubelet_ca_file : String
  pub deprecated_completely_insecure_kubelet : Bool

-- The loop of `NewMetricsServerOptions`, and that of `Run`: element `i` is written at index `i`.
unfoldable pub copy_from : ℕ → List String → List String → List String
copy_from i [] copied = copied
copy_from i (addr_type ∷ addr_types) copied = copy_from (suc i) addr_types (set copied i addr_type)

abbrev pub copy_of : List String → List String
copy_of addr_types = copy_from 0 addr_types (replicate (length addr_types) "")

unfoldable pub new_metrics_server_options : MetricsServerOptions
unfolding copy_from default_address_type_priority
new_metrics_server_options = record {
  kubeconfig = "";
  disable_auth_for_testing = false;
  metric_resolution = pos (60 * second);
  kubelet_port = pos 10250;
  insecure_kubelet_tls = false;
  kubelet_preferred_address_types = copy_of default_address_type_priority;
  kubelet_ca_file = "";
  deprecated_completely_insecure_kubelet = false;
}

-- `healthz.NamedCheck`. The check is the manager's, so it reads the manager's state; the source is
-- the one that the manager collects from.
pub record NamedCheck (Quantity : Type 0) : Type 0 where
  pub name : String
  pub check : MetricSource Quantity → Time → State (SinkMetricsProvider Quantity) → Option Error

-- What the libraries answer: the errors of the serving and authentication options, the loaders of a
-- client configuration, its content type, `kubernetes.NewForConfig`, and `AddHealthzChecks`, which
-- changes the server that is made, and `Run` of it; with the variables of the build, and the
-- libraries that the other parts use.
pub record Environment
    (Other Rest Request Transport Summary Completed Api Quantity Collector Registry : Type 0)
    : Type 0 where
  pub self_signed_certs : Option Error
  pub new_config : GenericConfig
  pub secure_serving : Option Error
  pub authentication : Option Error
  pub authorization : Option Error
  pub client_config : (path : String) → Result Error (RestConfig Other Rest)
  pub in_cluster_config : Result Error (RestConfig Other Rest)
  pub with_content_type : String → Rest → Rest
  pub kube_client : RestConfig Other Rest → Option Error
  pub anonymous : Anonymous Other Rest
  pub network : Network Request Transport (RestConfig Other Rest) Summary
  pub build : Build
  pub runtime : Runtime
  pub informers : Informers
  pub metrics_api : MetricsApi
  pub library : ServerLibrary Completed Api Quantity
  pub prometheus : Prometheus Collector Registry
  pub add_healthz_checks : List (NamedCheck Quantity) → Api → Api × Option Error
  pub run_server : Api → Option Error

-- The parts that `Run` makes: the kubelet client, the address resolver, the two intervals, the
-- state of the sink, and the API server.
pub record Server (Transport Api Quantity : Type 0) : Type 0 where
  pub kubelet_client : KubeletClient Transport
  pub addr_resolver : NodeAddressResolver
  pub scrape_timeout : Duration
  pub resolution : Duration
  pub sink : SinkMetricsProvider Quantity
  pub api : Api

-- How `Run` ends: the registry it leaves, the server if its manager is started, and the error that
-- it returns.
pub record Ran (Transport Api Quantity Registry : Type 0) : Type 0 where
  pub registry : Registry
  pub started : Option (Server Transport Api Quantity)
  pub error : Option Error

-- Go on unless there is an error.
abbrev pub unless_error :
    {A : Type 0} → Option Error → (Error → Error) → Result Error A → Result Error A
unless_error none wrap r = r
unless_error (some e) wrap r = err (wrap e)

abbrev pub and_then :
    {A B : Type 0} → Result Error A → (Error → Error) → (A → Result Error B) → Result Error B
and_then (ok a) wrap f = f a
and_then (err e) wrap f = err (wrap e)

module _ {Other Rest Request Transport Summary Completed Api Quantity Collector Registry : Type 0}
    (env : Environment Other Rest Request Transport Summary Completed Api Quantity Collector
      Registry)
    (o : MetricsServerOptions) where
  -- `Config`: the provider configuration is empty then, and `Run` fills it.
  unfoldable pub config : Result Error GenericConfig
  config = unless_error env.self_signed_certs Error.self_signed_certs (
      unless_error env.secure_serving (λ e. e)
        (if o.disable_auth_for_testing
          then ok env.new_config
          else unless_error env.authentication (λ e. e)
              (unless_error env.authorization (λ e. e) (ok env.new_config))))

  unfoldable pub client_config : Result Error (RestConfig Other Rest)
  client_config =
      and_then
        (if o.kubeconfig == "" then env.in_cluster_config else env.client_config o.kubeconfig)
        Error.lister_config
        (λ config. ok (record config {
          rest = env.with_content_type "application/vnd.kubernetes.protobuf" config.rest;
        }))

  -- `kubeletRestCfg`, a copy of the client configuration.
  unfoldable pub kubelet_rest_config : RestConfig Other Rest → RestConfig Other Rest
  kubelet_rest_config config = if o.kubelet_ca_file == "" then config else record config {
    tls_client_config = record config.tls_client_config {
      ca_file = o.kubelet_ca_file;
      ca_data = none;
    };
  }

  unfoldable pub kubelet_config :
      RestConfig Other Rest → KubeletClientConfig (RestConfig Other Rest)
  unfolding kubelet_rest_config get_kubelet_config
  kubelet_config config =
      (get_kubelet_config env.anonymous (kubelet_rest_config config) o.kubelet_port
        o.insecure_kubelet_tls o.deprecated_completely_insecure_kubelet).0

  -- `Run` up to the client of the kubelets: the configuration of the API server and that client.
  unfoldable pub prepare : Result Error (GenericConfig × KubeletClient Transport)
  unfolding config client_config kubelet_config
  prepare =
      and_then config (λ e. e)
        (λ generic.
          and_then client_config (λ e. e)
            (λ rest_config. unless_error (env.kube_client rest_config) Error.lister_client (
              and_then (kubelet_client_for env.network (kubelet_config rest_config))
                Error.kubelet_client
                (λ client. ok (record generic { enable_metrics = true }, client)))))

  -- The two registrations, that of the source manager first.
  unfoldable pub register_metrics : Registry → Run Registry
  register_metrics registry =
      Scraper.register_duration_metrics env.prometheus (scrape_timeout_of o.metric_resolution)
        registry
      >>= λ scraper.
          Tick.register_duration_metrics env.prometheus o.metric_resolution scraper.1 >>= λ tick.
          returns tick.1

  -- The API server over the new sink provider.
  unfoldable pub api_server : GenericConfig → Result Error Api
  unfolding complete new_metrics_server node_metrics_provider pod_metrics_provider
  api_server generic = new_metrics_server env.library env.metrics_api (
      complete env.library env.build env.runtime
        (record {
          generic_config = generic;
          provider_config = record {
            node = node_metrics_provider new_sink_provider;
            pod = pod_metrics_provider new_sink_provider;
          };
        })
        env.informers)

  abbrev pub server_of : KubeletClient Transport → Api → Server Transport Api Quantity
  server_of client api = record {
    kubelet_client = client;
    addr_resolver = new_priority_node_address_resolver (copy_of o.kubelet_preferred_address_types);
    scrape_timeout = scrape_timeout_of o.metric_resolution;
    resolution = o.metric_resolution;
    sink = new_sink_provider;
    api = api;
  }

  -- The check of the manager that `Run` makes over the sink provider.
  unfoldable pub health_check : NamedCheck Quantity
  unfolding check_health
  health_check = record {
    name = "healthz";
    check = λ source now s. check_health (Serving.server source o.metric_resolution) now s;
  }

  -- The rest of `Run`. The error of `AddHealthzChecks` is not looked at.
  unfoldable pub start :
      GenericConfig → KubeletClient Transport → Registry → Ran Transport Api Quantity Registry
  start generic client registry = elim (api_server generic) [
    | err e ↦ record { registry = registry; started = none; error = some e }
    | ok api ↦
        let checked = (env.add_healthz_checks (health_check ∷ []) api).0 in
        record {
          registry = registry;
          started = some (server_of client checked);
          error = env.run_server checked;
        }
  ]

  unfoldable pub run : Registry → Run (Ran Transport Api Quantity Registry)
  unfolding register_metrics
  run registry = elim prepare [
    | err e ↦ returns (record { registry = registry; started = none; error = some e })
    | ok (generic, client) ↦
        register_metrics registry >>= λ registered. returns (start generic client registered)
  ]

  -- The `init` functions of the packages, each after those of the packages that it imports, and
  -- `Run`.
  unfoldable pub initialize : Registry → Run Registry
  initialize registry = Scraper.init env.prometheus registry >>= λ r. Latency.init env.prometheus r

  unfoldable pub process : Registry → Run (Ran Transport Api Quantity Registry)
  process registry = initialize registry >>= λ r. run r
