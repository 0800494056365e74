-- ===== src/Sources/Stats.antt =====
-- What the summary source reads of the kubelet's answer (package stats of k8s.io/kubernetes), and
-- the two libraries' operations that it calls.
use my_learning_journey.Base.{ℕ, String, List, Option, Result}
use my_learning_journey.Base.Int.{ℤ}
use my_learning_journey.Golang.{Time, Context}
use my_learning_journey.Errors.{Error}

pub record CpuStats : Type 0 where
  pub time : Time
  pub usage_nano_cores : Option ℕ

pub record MemoryStats : Type 0 where
  pub time : Time
  pub working_set_bytes : Option ℕ

pub record NodeStats : Type 0 where
  pub cpu : Option CpuStats
  pub memory : Option MemoryStats

pub record ContainerStats : Type 0 where
  pub name : String
  pub cpu : Option CpuStats
  pub memory : Option MemoryStats

-- `PodRef` gives the name and the namespace.
pub record PodStats : Type 0 where
  pub name : String
  pub namespace : String
  pub containers : List ContainerStats

pub record Summary : Type 0 where
  pub node : NodeStats
  pub pods : List PodStats

-- Package resource of apimachinery: the zero `Quantity`, `NewScaledQuantity(value, scale)`, and the
-- assignment `q.Format = BinarySI`.
pub record Quantities (Quantity : Type 0) : Type 0 where
  pub zero_quantity : Quantity
  pub new_scaled_quantity : (value scale : ℤ) → Quantity
  pub with_binary_si : Quantity → Quantity

-- `KubeletInterface` of pkg/sources/summary/client.go. `GetSummary` is given the time of the call;
-- its answer comes with the time at which it is there. A summary or an error is returned.
pub record KubeletInterface : Type 0 where
  pub get_summary : Context → String → Time → Result Error Summary × Time
