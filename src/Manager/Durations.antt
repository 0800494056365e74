-- ===== src/Manager/Durations.antt =====
-- pkg/manager/manager.go: the histogram of the times of the cycles.
use my_learning_journey.Base.{Run, ◌>>=◌, returns}
use my_learning_journey.Golang.{Duration}
use my_learning_journey.Metrics.{buckets_for_scrape_duration}
use my_learning_journey.Metrics.Histograms.{Prometheus}

-- `RegisterDurationMetrics`: the new `tickDuration`, and the registry.
unfoldable pub register_duration_metrics :
    {Collector Registry : Type 0}
    → Prometheus Collector Registry
    → Duration
    → Registry
    → Run (Collector × Registry)
register_duration_metrics prometheus resolution registry =
    buckets_for_scrape_duration prometheus.def_buckets resolution >>= λ buckets.
    prometheus.new_histogram (record {
      opts = record {
        namespace = "metrics_server";
        subsystem = "manager";
        name = "tick_duration_seconds";
        help = "The total time spent collecting and storing metrics in seconds.";
      };
      buckets = buckets;
    })
    >>= λ tick_duration. prometheus.must_register tick_duration registry >>= λ registered.
        returns (tick_duration, registered)
