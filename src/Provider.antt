-- ===== src/Provider.antt =====
-- pkg/provider/interfaces.go: what a provider answers for pods and nodes.
use my_learning_journey.Base.{
  String, Bool, true, ◌&&◌, ◌≡◌, ◌↔◌, List, Option, Result, Comparable, ◌==◌, string_comparable,
  arith,
}
use my_learning_journey.Golang.{Time, Duration}
use my_learning_journey.Errors.{Error}

pub record TimeInfo : Type 0 where
  pub timestamp : Time
  pub window : Duration

-- `apitypes.NamespacedName`, a key of maps.
pub record NamespacedName : Type 0 where
  pub namespace : String
  pub name : String

abbrev pub name_eq : NamespacedName → NamespacedName → Bool
name_eq a b = a.namespace == b.namespace && a.name == b.name

pub name_eq_iff : (a b : NamespacedName) → (name_eq a b ≡ true) ↔ (a ≡ b)
name_eq_iff a b = ground (
  arith,
  string_comparable.equal_iff a.namespace b.namespace,
  string_comparable.equal_iff a.name b.name,
)

instance abbrev pub namespaced_name_comparable : Comparable NamespacedName
namespaced_name_comparable = record { equal = name_eq; equal_iff = name_eq_iff }

-- A `corev1.ResourceList` with the entries that the program makes: CPU and memory.
pub record ResourceList (Quantity : Type 0) : Type 0 where
  pub cpu : Quantity
  pub memory : Quantity

-- `metrics.ContainerMetrics` of the metrics API; a nil resource list is `none`.
pub record ContainerMetrics (Quantity : Type 0) : Type 0 where
  pub name : String
  pub usage : Option (ResourceList Quantity)

-- A nil list is `none`. The results are parallel to the names asked for.
pub record NodeMetricsProvider (Quantity : Type 0) : Type 0 where
  pub get_node_metrics :
      List String → Result Error (List TimeInfo × List (Option (ResourceList Quantity)))

pub record PodMetricsProvider (Quantity : Type 0) : Type 0 where
  pub get_container_metrics :
      List NamespacedName
      → Result Error (List TimeInfo × List (Option (List (ContainerMetrics Quantity))))
