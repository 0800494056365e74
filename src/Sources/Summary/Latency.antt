-- ===== src/Sources/Summary/Latency.antt =====
-- pkg/sources/summary/summary.go: the metrics of the requests to the kubelets.
use my_learning_journey.Base.{List, Run, ◌>>=◌, [], ◌∷◌}
use my_learning_journey.Float.Double.{Double}
use my_learning_journey.Metrics.Histograms.{Opts, HistogramOpts, Prometheus}

-- The variables `summaryRequestLatency`, with the default buckets, and `scrapeTotal`.
abbrev pub summary_request_latency_opts : (def_buckets : List Double) → HistogramOpts
summary_request_latency_opts def_buckets = record {
  opts = record {
    namespace = "metrics_server";
    subsystem = "kubelet_summary";
    name = "request_duration_seconds";
    help = "The Kubelet summary request latencies in seconds.";
  };
  buckets = def_buckets;
}

abbrev pub scrape_total_opts : Opts
scrape_total_opts = record {
  namespace = "metrics_server";
  subsystem = "kubelet_summary";
  name = "scrapes_total";
  help = "Total number of attempted Summary API scrapes done by Metrics Server";
}

-- `init`: the registry with them.
unfoldable pub init :
    {Collector Registry : Type 0} → Prometheus Collector Registry → Registry → Run Registry
init prometheus registry =
    prometheus.new_histogram_vec (summary_request_latency_opts prometheus.def_buckets) ("node" ∷ [])
    >>= λ summary_request_latency.
        prometheus.new_counter_vec scrape_total_opts ("success" ∷ []) >>= λ scrape_total.
        prometheus.must_register summary_request_latency registry >>= λ registered.
        prometheus.must_register scrape_total registered
