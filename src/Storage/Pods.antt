-- ===== src/Storage/Pods.antt =====
-- pkg/storage/podmetrics/reststorage.go: the pod metrics that the API serves.
pub mod Removal
pub mod Items
pub mod Served
use Prim.Native.String as Text
use my_learning_journey.Base.{
  ℕ, zero, suc, String, Bool, true, false, Option, none, some, List, [], ◌∷◌, ◌++◌, Result, ok, err,
  Run, returns, panics, ◌>>=◌, map, length, get_elem?, take, drop, ◌==◌, string_comparable,
}
use my_learning_journey.Base.Int.{pos}
use my_learning_journey.Golang.{Time, Duration, zero_time}
use my_learning_journey.Errors.{Error}
use my_learning_journey.Provider.{TimeInfo, NamespacedName, ContainerMetrics, PodMetricsProvider}
use my_learning_journey.Storage.{Selector, ListOptions, Selection, label_selector_or}

-- `v1.Pod`, with the fields that are read.
pub record Pod : Type 0 where
  pub name : String
  pub namespace : String
  pub phase : String

-- `v1.PodRunning`.
abbrev pub pod_running : String
pod_running = "Running"

-- `metrics.PodMetrics` of the metrics API, with the fields that are set.
pub record PodMetrics (Quantity : Type 0) : Type 0 where
  pub name : String
  pub namespace : String
  pub creation_timestamp : Time
  pub timestamp : Time
  pub window : Duration
  pub containers : List (ContainerMetrics Quantity)

-- The informer's lister: `Pods(namespace).List(selector)`, in a slice that is the caller's own, and
-- `Pods(namespace).Get(name)`, where the pod may be nil.
pub record PodLister : Type 0 where
  pub list : String → Selector → Result Error (List Pod)
  pub get : (namespace name : String) → Result Error (Option Pod)

pub record MetricStorage (Quantity : Type 0) : Type 0 where
  pub group_resource : String
  pub prov : PodMetricsProvider Quantity
  pub pod_lister : PodLister

abbrev pub new_storage :
    {Quantity : Type 0} → String → PodMetricsProvider Quantity → PodLister → MetricStorage Quantity
new_storage group_resource prov pod_lister = record {
  group_resource = group_resource;
  prov = prov;
  pod_lister = pod_lister;
}

abbrev pub kind : String
kind = "PodMetrics"

abbrev pub namespace_scoped : Bool
namespace_scoped = true

-- The loop that removes the pods that do not match, from index `i` down to 0, where `suc i` rounds
-- are left: `append(pods[:i], pods[i+1:]...)`. An index out of range panics.
unfoldable pub remove_unmatched : (Pod → Bool) → ℕ → List Pod → Run (List Pod)
remove_unmatched matches zero pods = returns pods
remove_unmatched matches (suc i) pods = elim (get_elem? pods i) [
  | none ↦ panics
  | some pod ↦
      remove_unmatched matches i
        (elim (matches pod) [ true ↦ pods | false ↦ take i pods ++ drop (suc i) pods ])
]

abbrev pub fields_match : Selection → Selector → Pod → Bool
fields_match selection selector pod =
    selector.matches (selection.object_meta_fields_set pod.name pod.namespace)

-- `if options != nil && options.FieldSelector != nil`.
unfoldable pub filter_fields : Selection → Option ListOptions → List Pod → Run (List Pod)
unfolding remove_unmatched
filter_fields selection none pods = returns pods
filter_fields selection (some options) pods = elim options.field_selector [
  | none ↦ returns pods
  | some selector ↦ remove_unmatched (fields_match selection selector) (length pods) pods
]

abbrev pub namespaced_name : Pod → NamespacedName
namespaced_name pod = record { namespace = pod.namespace; name = pod.name }

-- `fmt.Sprintf("%v/%v", namespace, name)`.
abbrev pub slashed : (namespace name : String) → String
slashed namespace name = Text.◌++◌ namespace (Text.◌++◌ "/" name)

module _ {Quantity : Type 0} where
  -- `New`: the zero object.
  abbrev pub new_object : PodMetrics Quantity
  new_object = record {
    name = "";
    namespace = "";
    creation_timestamp = zero_time;
    timestamp = zero_time;
    window = pos 0;
    containers = [];
  }

  -- `NewList`, by its items.
  abbrev pub new_list : List (PodMetrics Quantity)
  new_list = []

  abbrev pub pod_item :
      Time → Pod → TimeInfo → List (ContainerMetrics Quantity) → PodMetrics Quantity
  pod_item now pod t containers = record {
    name = pod.name;
    namespace = pod.namespace;
    creation_timestamp = now;
    timestamp = t.timestamp;
    window = t.window;
    containers = containers;
  }

  -- The loop of `getPodMetrics`; `now i` is the clock in round `i`.
  unfoldable pub items_from :
      (ℕ → Time)
      → List TimeInfo
      → List (Option (List (ContainerMetrics Quantity)))
      → ℕ
      → List Pod
      → List (PodMetrics Quantity)
      → Run (List (PodMetrics Quantity))
  items_from now timestamps containers i [] res = returns res
  items_from now timestamps containers i (pod ∷ pods) res = elim (pod.phase == pod_running) [
    | false ↦ items_from now timestamps containers (suc i) pods res
    | true ↦ elim (get_elem? containers i) [
      | none ↦ panics
      | some none ↦ items_from now timestamps containers (suc i) pods res
      | some (some cs) ↦ elim (get_elem? timestamps i) [
        | none ↦ panics
        | some t ↦
            items_from now timestamps containers (suc i) pods
              (res ++ pod_item (now i) pod t cs ∷ [])
      ]
    ]
  ]

  unfoldable pub get_pod_metrics :
      MetricStorage Quantity
      → (ℕ → Time)
      → List Pod
      → Run (Result Error (List (PodMetrics Quantity)))
  unfolding items_from
  get_pod_metrics m now pods = elim (m.prov.get_container_metrics (map namespaced_name pods)) [
    | err e ↦ returns (err e)
    | ok (timestamps, containers) ↦
        items_from now timestamps containers 0 pods [] >>= λ res. returns (ok res)
  ]

  -- The items of the list that is returned, and the error.
  unfoldable pub list :
      Selection
      → MetricStorage Quantity
      → (ℕ → Time)
      → (namespace : String) → Option ListOptions
      → Run (List (PodMetrics Quantity) × Option Error)
  unfolding filter_fields get_pod_metrics
  list selection m now namespace options =
      let label_selector = label_selector_or selection.labels_everything options in
      elim (m.pod_lister.list namespace label_selector) [
        | err e ↦ returns (new_list, some (Error.listing_pods label_selector.text namespace e))
        | ok listed ↦ filter_fields selection options listed >>= λ pods.
            get_pod_metrics m now pods >>= λ answer. elim answer [
              | err e ↦
                  returns
                    (new_list, some (Error.fetching_pod_metrics label_selector.text namespace e))
              | ok items ↦ returns (items, none)
            ]
      ]

  -- The end of `Get`: the first item, or the error `missing`.
  abbrev pub first_item :
      Error → Result Error (List (PodMetrics Quantity)) → Result Error (PodMetrics Quantity)
  first_item missing (err e) = err missing
  first_item missing (ok []) = err missing
  first_item missing (ok (item ∷ items)) = ok item

  -- With `errors.IsNotFound` of the apimachinery library. The object beside an error, a zero one or
  -- nil, is left out.
  unfoldable pub get :
      (is_not_found : Error → Bool)
      → MetricStorage Quantity
      → (ℕ → Time)
      → (namespace name : String) → Run (Result Error (PodMetrics Quantity))
  unfolding get_pod_metrics
  get is_not_found m now namespace name = elim (m.pod_lister.get namespace name) [
    | err e ↦ elim (is_not_found e) [
      | true ↦ returns (err e)
      | false ↦ returns (err (Error.getting_pod name e))
    ]
    | ok none ↦ returns (err (Error.not_found "pods" (slashed namespace name)))
    | ok (some pod) ↦ get_pod_metrics m now (pod ∷ []) >>= λ answer.
        returns (first_item (Error.not_found m.group_resource (slashed namespace name)) answer)
  ]
