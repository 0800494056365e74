-- ===== src/Tests.antt =====
-- Concrete data for the tests: a quantity with its scale and its format, two nodes and their stats.
pub mod SourceManager
pub mod Summaries
pub mod Serving
pub mod Managing
pub mod Starting
pub mod Buckets
pub mod Orders
pub mod Kubelets
pub mod Concurrent
pub mod Timing
pub mod Provenance
use my_learning_journey.Base.{
  ℕ, zero, suc, ◌*◌, ◌+◌, ◌≡◌, ◌≢◌, refl, String, Bool, true, false, Option, none, some, List, [],
  ◌∷◌, Result, ok, err,
}
use my_learning_journey.Base.Int.{ℤ, pos, ◌+ℤ◌}
use my_learning_journey.Golang.{Time, second}
use my_learning_journey.Errors.{Error}
use my_learning_journey.Sources.{
  MetricsPoint, NodeMetricsPoint, ContainerMetricsPoint, PodMetricsPoint, MetricsBatch, Packages,
  IsAggregate,
}
use my_learning_journey.Sources.Stats.{
  CpuStats, MemoryStats, NodeStats, ContainerStats, PodStats, Summary, Quantities, KubeletInterface,
}
use my_learning_journey.Sources.Summary.{NodeInfo}
use my_learning_journey.Sources.Addresses.{Node, NodeAddress}
use my_learning_journey.Provider.{NamespacedName}

-- A value, its decimal scale, and whether its format is binary.
pub record Amount : Type 0 where
  pub value : ℤ
  pub scale : ℤ
  pub binary : Bool

abbrev pub amount : ℕ → Amount
amount n = record { value = pos n; scale = pos 0; binary = false }

abbrev pub amounts : Quantities Amount
amounts = record {
  zero_quantity = amount 0;
  new_scaled_quantity = λ value scale. record { value = value; scale = scale; binary = false };
  with_binary_si = λ q. record q { binary = true };
}

abbrev pub first_error : List Error → Option Error
first_error [] = none
first_error (e ∷ es) = some e

abbrev pub packages : Packages
packages = record { new_aggregate = first_error; next_read = λ t. t +ℤ pos 1000 }

pub packages-IsAggregate : IsAggregate packages
packages-IsAggregate = record { empty = refl; some_error = λ e es z. cc }

-- So many seconds after the zero time.
abbrev pub at : ℕ → Time
at n = pos (n * second)

abbrev pub point : ℕ → MetricsPoint Amount
point n = record { timestamp = at n; cpu_usage = amount 1; memory_usage = amount 2 }

abbrev pub node_point : String → NodeMetricsPoint Amount
node_point name = record { name = name; point = point 10 }

abbrev pub container : String → ℕ → ContainerMetricsPoint Amount
container name n = record { name = name; point = point n }

abbrev pub pod_point : String → PodMetricsPoint Amount
pod_point name = record {
  name = name;
  namespace = "ns";
  containers = container "c1" 12 ∷ container "c2" 11 ∷ [];
}

abbrev pub batch_of : String → MetricsBatch Amount
batch_of node = record { nodes = node_point node ∷ []; pods = pod_point "p" ∷ [] }

abbrev pub named : String → NamespacedName
named name = record { namespace = "ns"; name = name }

abbrev pub node : String → List NodeAddress → Node
node name addresses = record {
  name = name;
  namespace = "";
  labels = ("os", "linux") ∷ [];
  addresses = addresses;
}

abbrev pub address : (type address : String) → NodeAddress
address t a = record { type = t; address = a }

-- The stats of a kubelet: the second pod has a container without memory stats.
abbrev pub cpu : Option CpuStats
cpu = some (record { time = at 5; usage_nano_cores = some 300 })

abbrev pub memory : Option MemoryStats
memory = some (record { time = at 4; working_set_bytes = some 1024 })

abbrev pub pod_stats : String → Option MemoryStats → PodStats
pod_stats name m = record {
  name = name;
  namespace = "ns";
  containers = record { name = "c"; cpu = cpu; memory = m } ∷ [];
}

abbrev pub summary : Summary
summary = record {
  node = record { cpu = cpu; memory = memory };
  pods = pod_stats "good" memory ∷ pod_stats "bad" none ∷ pod_stats "other" memory ∷ [];
}

abbrev pub info : NodeInfo
info = record { name = "n1"; connect_address = "10.0.0.1" }

abbrev pub kubelet : KubeletInterface
kubelet = record { get_summary = λ ctx host now. (ok summary, at 7) }
