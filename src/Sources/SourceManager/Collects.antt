-- ===== src/Sources/SourceManager/Collects.antt =====
-- pkg/sources/manager.go: `sourceManager`, and what a call of its `Collect` may return.
use my_learning_journey.Base.{ℕ, ◌<◌, ◌≡◌, String, Option, List, [], ◌∷◌, length, All}
use my_learning_journey.Golang.{Time, Duration, Context}
use my_learning_journey.Errors.{Error}
use my_learning_journey.Sources.{MetricsBatch, MetricSource, MetricSourceProvider, Packages}
use my_learning_journey.Sources.SourceManager.{
  Outcome, State, returned, goroutine, delay_ms, add_error, Reach, result,
}

pub record SourceManager (Quantity : Type 0) : Type 0 where
  pub src_prov : MetricSourceProvider Quantity
  pub scrape_timeout : Duration

abbrev pub new_source_manager :
    {Quantity : Type 0} → MetricSourceProvider Quantity → Duration → SourceManager Quantity
new_source_manager src_prov scrape_timeout = record {
  src_prov = src_prov;
  scrape_timeout = scrape_timeout;
}

abbrev pub source_manager_name : String
source_manager_name = "source_manager"

-- When a goroutine starts, and its answer of `rand.Intn(delayMs)`.
pub record Start : Type 0 where
  pub now : Time
  pub draw : ℕ

module _ {Quantity : Type 0} (packages : Packages) where
  -- The loop that starts a goroutine for each source.
  unfoldable pub outcomes_from :
      Context → Duration → List Start → List (MetricSource Quantity) → List (Outcome Quantity)
  unfolding goroutine
  outcomes_from base_ctx timeout (s ∷ starts) (source ∷ sources) =
      goroutine packages base_ctx timeout s.now s.draw source
      ∷ outcomes_from base_ctx timeout starts sources
  outcomes_from base_ctx timeout _ _ = []

  -- The batch and the error that `Collect` may return.
  pub data Collects (m : SourceManager Quantity) (base_ctx : Context)
      : MetricsBatch Quantity × Option Error → Type 0 where
    collects :
        (starts : List Start)
        → length starts ≡ length m.src_prov.get_metric_sources.0
        → All (λ s. s.draw < delay_ms (length m.src_prov.get_metric_sources.0)) starts
        → {k : ℕ} {s : State Quantity}
        → Reach
            (add_error [] m.src_prov.get_metric_sources.1)
            (outcomes_from base_ctx m.scrape_timeout starts m.src_prov.get_metric_sources.0)
            k
            s
        → s.main ≡ returned
        → Collects m base_ctx (result packages s)
