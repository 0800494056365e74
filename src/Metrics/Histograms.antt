-- ===== src/Metrics/Histograms.antt =====
-- What the program uses of the prometheus library to make and register its metrics.
use my_learning_journey.Base.{String, List, Run}
use my_learning_journey.Float.Double.{Double}

-- `prometheus.Opts`, with the fields that are set; also `GaugeOpts` and `CounterOpts`.
pub record Opts : Type 0 where
  pub namespace : String
  pub subsystem : String
  pub name : String
  pub help : String

-- `prometheus.HistogramOpts`, with the fields that are set.
pub record HistogramOpts : Type 0 where
  pub opts : Opts
  pub buckets : List Double

-- `DefBuckets`, the constructors of the kinds of metrics, those for a vector with the names of its
-- labels, and `MustRegister`, which changes the registry. They panic on what they do not accept.
pub record Prometheus (Collector Registry : Type 0) : Type 0 where
  pub def_buckets : List Double
  pub new_histogram : HistogramOpts → Run Collector
  pub new_histogram_vec : HistogramOpts → List String → Run Collector
  pub new_gauge_vec : Opts → List String → Run Collector
  pub new_counter_vec : Opts → List String → Run Collector
  pub must_register : Collector → Registry → Run Registry
