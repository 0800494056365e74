-- ===== src/Server/Startup.antt =====
-- The process from the packages' initialization to the end of Run: which metrics are registered.
use mathlib.Core.Logic.Or as Or
use my_learning_journey.Base.{◌≡◌, ◌⊎◌, String, List, [], ◌∷◌, ◌++◌, err, returns}
use my_learning_journey.Errors.{Error}
use my_learning_journey.Metrics.Names.{Description}
use my_learning_journey.Sources.SourceManager.Durations as Scraper
use my_learning_journey.Sources.Summary.Latency as Latency
use my_learning_journey.Server.{MetricsServerOptions, Environment, Ran, prepare, run}
use my_learning_journey.Server.Registration.{IsPrometheus, scraper_name, tick_name}

abbrev pub last_time_name : String
last_time_name = "metrics_server_scraper_last_time_seconds"

abbrev pub latency_name : String
latency_name = "metrics_server_kubelet_summary_request_duration_seconds"

abbrev pub scrapes_name : String
scrapes_name = "metrics_server_kubelet_summary_scrapes_total"

-- The names that the packages' initialization registers, and those of the whole process.
abbrev pub init_names : List String
init_names = scrapes_name ∷ latency_name ∷ last_time_name ∷ []

abbrev pub program_names : List String
program_names = tick_name ∷ scraper_name ∷ init_names

module _ {Other Rest Request Transport Summary Completed Api Quantity Collector Registry : Type 0}
    (env : Environment Other Rest Request Transport Summary Completed Api Quantity Collector
      Registry)
    (o : MetricsServerOptions) (described : Collector → Description)
    (registered : Registry → List String)
    (is : IsPrometheus env.prometheus described registered) where
  -- `Run` from the registry that the initialization leaves.
  abbrev Ends : (registry r : Registry) → Type 0
  Ends registry r =
      (ran : Ran Transport Api Quantity Registry) × (run env o r ≡ returns ran)
      × (((e : Error) × (prepare env o ≡ err e)
            × (registered ran.registry ≡ init_names ++ registered registry))
          ⊎ (registered ran.registry ≡ program_names ++ registered registry))
