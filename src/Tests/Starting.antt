-- ===== src/Tests/Starting.antt =====
-- A server with the default options in an environment without errors, and the two intervals.
use my_learning_journey.Base.{
  ℕ, ◌≡◌, refl, ◌*◌, ◌+◌, ◌≤◌, String, true, false, none, some, List, [], ◌∷◌, Result, ok,
  ok_injective, err, Result-cases, inl, inr, returns, panics, if◌then◌else◌, arith,
}
use my_learning_journey.Base.Int.{pos, ◌≤ℤ◌}
use my_learning_journey.Golang.{second}
use my_learning_journey.Errors.{Error}
use my_learning_journey.Float.{max_tick_wait_of, scrape_timeout_of}
use my_learning_journey.Float.Bounds.{max_tick_wait_of-bounds, scrape_timeout_of-bounds}
use my_learning_journey.Metrics.Histograms.{Prometheus}
use my_learning_journey.Metrics.Names.{Description, description, full_name, is_valid}
use my_learning_journey.Sources.Addresses.{
  default_address_type_priority, new_priority_node_address_resolver,
}
use my_learning_journey.Float.Double.{seconds, nearest}
use my_learning_journey.Metrics.{with_timeout_beyond, buckets_for_scrape_duration}
use my_learning_journey.Sources.SourceManager.Durations as Scraper
use my_learning_journey.Manager.Durations as Tick
use my_learning_journey.Sources.Kubelet.{new_kubelet_client, kubelet_client_for, get_kubelet_config}
use my_learning_journey.Sink.{new_sink_provider, node_metrics_provider, pod_metrics_provider}
use my_learning_journey.Version.{Runtime, unset_build}
use my_learning_journey.Api.{
  GenericConfig, ServerLibrary, completed_generic, complete, new_metrics_server, before_dash,
}
use my_learning_journey.Api.Generic.{
  ApiGroupInfo, MetricsApi, Informers, build_storage, install_storage,
}
use my_learning_journey.Server.{
  MetricsServerOptions, new_metrics_server_options, Environment, Server, Ran, config, client_config,
  kubelet_config, kubelet_rest_config, copy_from, prepare, register_metrics, api_server, start, run,
}
use my_learning_journey.Server.Registration.{scraper_name, tick_name}
use my_learning_journey.Server.Command.{
  Flag, Parsers, CommandLine, help, options, Cobra, flags, declared, execute,
}
use my_learning_journey.Server.Command.Authentication.{
  start as unset, set, IsCobra, execute-authenticates,
}
use my_learning_journey.Tests.{Amount}
use my_learning_journey.Sources.Stats.{Summary}
use my_learning_journey.Tests.Summaries.{cluster_for, anonymous, config as rest_config}
use my_learning_journey.Tests.Serving.{node_lister, pod_lister}
use my_learning_journey.Tests.Buckets.{def_buckets}

-- A registry is the list of its names, and refuses what is not valid.
abbrev prometheus : Prometheus Description (List String)
prometheus = record {
  def_buckets = def_buckets;
  new_histogram = λ opts. returns (description opts.opts []);
  new_histogram_vec = λ opts labels. returns (description opts.opts labels);
  new_gauge_vec = λ opts labels. returns (description opts labels);
  new_counter_vec = λ opts labels. returns (description opts labels);
  must_register = λ d registry. if is_valid d then returns (d.name ∷ registry) else panics;
}

abbrev runtime : Runtime
runtime = record { version = "go1.12"; compiler = "gc"; goos = "linux"; goarch = "amd64" }

-- A library whose server is the API group that is installed in it.
abbrev library : ServerLibrary GenericConfig (ApiGroupInfo Amount) Amount
library = record {
  info_text = λ info. info.git_version;
  complete = λ c. c;
  new = λ c name. ok (record { group = name; versioned_resources_storage_map = [] });
  install_api_group = λ info server. ok info;
}

abbrev pub metrics_api : MetricsApi
metrics_api = record { group_name = "metrics.k8s.io"; version = "v1beta1"; resource = λ name. name }

abbrev pub informers : Informers
informers = record { nodes = node_lister; pods = pod_lister }

abbrev pub environment :
    Environment String String String String Summary GenericConfig
      (ApiGroupInfo Amount)
      Amount
      Description
      (List String)
environment = record {
  self_signed_certs = none;
  new_config = record { enable_metrics = false; version = none; open_api_config = none };
  secure_serving = none;
  authentication = none;
  authorization = none;
  client_config = λ path. ok rest_config;
  in_cluster_config = ok rest_config;
  with_content_type = λ type rest. rest;
  kube_client = λ config. none;
  anonymous = anonymous;
  network = cluster_for (λ config. config.rest);
  build = unset_build;
  runtime = runtime;
  informers = informers;
  metrics_api = metrics_api;
  library = library;
  prometheus = prometheus;
  add_healthz_checks = λ checks api. (api, none);
  run_server = λ api. none;
}

-- The API's version is the build's up to the first dash.
api_version : before_dash unset_build.git_version ≡ "v0.0.0"
unfolding before_dash
api_version = refl

abbrev pub server : Server String (ApiGroupInfo Amount) Amount
server = record {
  kubelet_client = new_kubelet_client "secret" (pos 10250) false;
  addr_resolver = new_priority_node_address_resolver default_address_type_priority;
  scrape_timeout = scrape_timeout_of (pos (60 * second));
  resolution = pos (60 * second);
  sink = new_sink_provider;
  api =
      build_storage metrics_api
        (record {
          node = node_metrics_provider new_sink_provider;
          pod = pod_metrics_provider new_sink_provider;
        })
        informers;
}

abbrev pub ran : Ran String (ApiGroupInfo Amount) Amount (List String)
ran = record { registry = tick_name ∷ scraper_name ∷ []; started = some server; error = none }

prepared :
    prepare environment new_metrics_server_options
    ≡ ok (record environment.new_config { enable_metrics = true }, server.kubelet_client)
unfolding prepare config client_config kubelet_config kubelet_rest_config new_metrics_server_options
    kubelet_client_for get_kubelet_config
prepared = refl

pub started : run environment new_metrics_server_options [] ≡ returns ran
unfolding run prepare config client_config kubelet_config kubelet_rest_config register_metrics
    api_server start complete completed_generic new_metrics_server install_storage copy_from
    new_metrics_server_options kubelet_client_for get_kubelet_config default_address_type_priority
    Scraper.register_duration_metrics Tick.register_duration_metrics buckets_for_scrape_duration
    with_timeout_beyond seconds scrape_timeout_of nearest full_name is_valid
started = refl

max_tick_wait_of-bounds_example :
    (pos (60 * second) ≤ℤ max_tick_wait_of (pos (60 * second)))
    × (w : ℕ) × (max_tick_wait_of (pos (60 * second)) ≡ pos w)
    × (10 * w ≤ 11 * (60 * second) + 40)
    × (11 * (60 * second) ≤ 10 * w + 40)
max_tick_wait_of-bounds_example = max_tick_wait_of-bounds (60 * second) (omega arith)

scrape_timeout_of-bounds_example :
    (t : ℕ) × (scrape_timeout_of (pos (60 * second)) ≡ pos t)
    × (10 * t ≤ 9 * (60 * second) + 30)
    × (9 * (60 * second) ≤ 10 * t + 30)
scrape_timeout_of-bounds_example = scrape_timeout_of-bounds (60 * second) (omega arith)

-- A command line that sets its first flag, the resolution, to 30 seconds.
abbrev parsers : Parsers
parsers = record {
  duration = λ text. ok (pos (30 * second));
  bool = λ text. ok true;
  int = λ text. ok (pos 443);
  string_slice = λ changed old text. ok (text ∷ []);
}

abbrev parse : List Flag → MetricsServerOptions → Result Error CommandLine
parse [] o = ok help
parse (f ∷ fs) o = elim (f.set false "30s" o) [ err e ↦ err e | ok p ↦ ok (options p) ]

abbrev cobra : Cobra
cobra = record { parse = parse }

cobra-IsCobra : IsCobra cobra
cobra-IsCobra [] o p h = cc (ok_injective h)
cobra-IsCobra (f ∷ fs) o p h = elim (Result-cases (f.set false "30s" o)) [
  | inr (cause, e) ↦ cc (rw e at h)
  | inl (q, e) ↦
      let parsed = rw e at h in
      let same : q ≡ p = cc in set 0 f false "30s" unset refl (rw (← same) e)
]

abbrev half_server : Server String (ApiGroupInfo Amount) Amount
half_server = record server {
  scrape_timeout = scrape_timeout_of (pos (30 * second));
  resolution = pos (30 * second);
}

executed :
    execute environment parsers cobra [] ≡ returns (record ran { started = some half_server })
unfolding execute flags declared run prepare config client_config kubelet_config kubelet_rest_config
    register_metrics api_server start complete completed_generic new_metrics_server install_storage
    copy_from new_metrics_server_options kubelet_client_for get_kubelet_config
    default_address_type_priority Scraper.register_duration_metrics Tick.register_duration_metrics
    buckets_for_scrape_duration with_timeout_beyond seconds scrape_timeout_of nearest full_name
    is_valid
executed = refl

execute-authenticates_example :
    (environment.authentication ≡ none) × (environment.authorization ≡ none)
execute-authenticates_example =
    execute-authenticates environment parsers cobra [] (record ran { started = some half_server })
      half_server cobra-IsCobra executed refl
