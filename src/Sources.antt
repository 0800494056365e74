-- ===== src/Sources.antt =====
-- pkg/sources/interfaces.go: batches of metrics points, and what a source of them is.
pub mod Stats
pub mod Summary
pub mod Addresses
pub mod Kubelet
pub mod Provider
pub mod SourceManager
pub mod Fake
pub mod Fetching
use my_learning_journey.Base.{String, List, [], ◌∷◌, Bool, Option, none, ◌≡◌, ◌≢◌, ◌↔◌, refl}
use my_learning_journey.Golang.{Time, Duration, Context}
use my_learning_journey.Errors.{Error}

-- The type of quantities is the library's: a parameter.
pub record MetricsPoint (Quantity : Type 0) : Type 0 where
  pub timestamp : Time
  pub cpu_usage : Quantity
  pub memory_usage : Quantity

-- An embedded struct is a field of its name.
pub record NodeMetricsPoint (Quantity : Type 0) : Type 0 where
  pub name : String
  pub point : MetricsPoint Quantity

pub record ContainerMetricsPoint (Quantity : Type 0) : Type 0 where
  pub name : String
  pub point : MetricsPoint Quantity

pub record PodMetricsPoint (Quantity : Type 0) : Type 0 where
  pub name : String
  pub namespace : String
  pub containers : List (ContainerMetricsPoint Quantity)

pub record MetricsBatch (Quantity : Type 0) : Type 0 where
  pub nodes : List (NodeMetricsPoint Quantity)
  pub pods : List (PodMetricsPoint Quantity)

-- `&MetricsBatch{}`
abbrev pub empty_batch : {Quantity : Type 0} → MetricsBatch Quantity
empty_batch = record { nodes = []; pods = [] }

-- What the program reports to its own monitoring, in the order of the calls.
pub data Event : Type 0 where
  -- `summaryRequestLatency`, `scrapeTotal`
  request_latency : (node : String) → Duration → Event
  scrape_total : (success : Bool) → Event
  -- `scraperDuration`, `lastScrapeTimestamp`
  scraper_duration : (source : String) → Duration → Event
  last_scrape : (source : String) → Time → Event
  -- `tickDuration`
  tick_duration : Duration → Event

-- The two results of `Collect`, the time when it returns, and its reports.
pub record Collected (Quantity : Type 0) : Type 0 where
  pub batch : Option (MetricsBatch Quantity)
  pub error : Option Error
  pub finished : Time
  pub events : List Event

-- `Collect` is given the time of the call: what a source answers may change with it.
pub record MetricSource (Quantity : Type 0) : Type 0 where
  pub name : String
  pub collect : Context → Time → Collected Quantity

-- The functions of other packages: `utilerrors.NewAggregate`, of the apimachinery library, and
-- `time.Now`, by what the clock shows when it is read again after it has shown a time.
pub record Packages : Type 0 where
  pub new_aggregate : List Error → Option Error
  pub next_read : Time → Time

-- As it is documented: nil for an empty list, and an error for a list of errors.
pub record IsAggregate (packages : Packages) : Type 0 where
  pub empty : packages.new_aggregate [] ≡ none
  pub some_error : (e : Error) (es : List Error) → packages.new_aggregate (e ∷ es) ≢ none

pub new_aggregate-eq-none :
    (packages : Packages)
    → IsAggregate packages
    → (errs : List Error) → (packages.new_aggregate errs ≡ none) ↔ (errs ≡ [])
new_aggregate-eq-none packages h [] = ((λ _. refl), (λ _. h.empty))
new_aggregate-eq-none packages h (e ∷ es) = ((λ z. absurd (h.some_error e es z)), (λ z. cc))

-- `MetricSourceProvider`: the sources that it finds, and an error.
pub record MetricSourceProvider (Quantity : Type 0) : Type 0 where
  pub get_metric_sources : List (MetricSource Quantity) × Option Error
