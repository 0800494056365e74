-- ===== src/Sources/Fake.antt =====
-- pkg/sources/fake/fakes.go: sources and providers that are given what they answer.
use my_learning_journey.Base.{String, Option, none, List, []}
use my_learning_journey.Golang.{Context}
use my_learning_journey.Errors.{Error}
use my_learning_journey.Sources.{MetricsBatch, MetricSource, MetricSourceProvider}

-- `StaticSourceProvider`, with `GetMetricSources`.
unfoldable pub static_source_provider :
    {Quantity : Type 0} → List (MetricSource Quantity) → MetricSourceProvider Quantity
static_source_provider sources = record { get_metric_sources = (sources, none) }

-- `CollectFunc`, a function that takes no time.
abbrev pub CollectFunc : Type 0 → Type 0
CollectFunc Quantity = Context → Option (MetricsBatch Quantity) × Option Error

pub record FunctionSource (Quantity : Type 0) : Type 0 where
  pub source_name : String
  pub generate_batch : CollectFunc Quantity

-- `FunctionSource` with its methods `Name` and `Collect`.
unfoldable pub function_source :
    {Quantity : Type 0} → FunctionSource Quantity → MetricSource Quantity
function_source f = record {
  name = f.source_name;
  collect = λ ctx now. record {
    batch = (f.generate_batch ctx).0;
    error = (f.generate_batch ctx).1;
    finished = now;
    events = [];
  };
}
