-- ===== src/Sources/SourceManager/Durations.antt =====
-- pkg/sources/manager.go: the metrics of the scrapes.
use my_learning_journey.Base.{Run, ◌>>=◌, returns, [], ◌∷◌}
use my_learning_journey.Golang.{Duration}
use my_learning_journey.Metrics.{buckets_for_scrape_duration}
use my_learning_journey.Metrics.Histograms.{Opts, Prometheus}

-- `RegisterDurationMetrics`: the new `scraperDuration`, with a label for the source, and the
-- registry.
unfoldable pub register_duration_metrics :
    {Collector Registry : Type 0}
    → Prometheus Collector Registry
    → Duration
    → Registry
    → Run (Collector × Registry)
register_duration_metrics prometheus scrape_timeout registry =
    buckets_for_scrape_duration prometheus.def_buckets scrape_timeout >>= λ buckets.
    prometheus.new_histogram_vec
      (record {
        opts = record {
          namespace = "metrics_server";
          subsystem = "scraper";
          name = "duration_seconds";
          help = "Time spent scraping sources in seconds.";
        };
        buckets = buckets;
      })
      ("source" ∷ [])
    >>= λ scraper_duration. prometheus.must_register scraper_duration registry >>= λ registered.
        returns (scraper_duration, registered)

-- The variable `lastScrapeTimestamp`.
abbrev pub last_scrape_timestamp_opts : Opts
last_scrape_timestamp_opts = record {
  namespace = "metrics_server";
  subsystem = "scraper";
  name = "last_time_seconds";
  help = "Last time metrics-server performed a scrape since unix epoch in seconds.";
}

-- `init`: the registry with it.
unfoldable pub init :
    {Collector Registry : Type 0} → Prometheus Collector Registry → Registry → Run Registry
init prometheus registry =
    prometheus.new_gauge_vec last_scrape_timestamp_opts ("source" ∷ []) >>= λ last_scrape_timestamp.
    prometheus.must_register last_scrape_timestamp registry
