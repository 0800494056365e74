-- ===== src/Storage/Nodes.antt =====
-- pkg/storage/nodemetrics/reststorage.go: the node metrics that the API serves.
pub mod Answers
use my_learning_journey.Base.{
  ℕ, zero, suc, String, Bool, true, false, ◌&&◌, Option, none, some, List, [], ◌∷◌, ◌++◌, Result,
  ok, err, Run, returns, panics, ◌>>=◌, map, get_elem?, if◌then◌else◌,
}
use my_learning_journey.Base.Int.{pos}
use my_learning_journey.Golang.{Time, Duration, zero_time}
use my_learning_journey.Errors.{Error}
use my_learning_journey.Sources.Addresses.{Node}
use my_learning_journey.Provider.{TimeInfo, ResourceList, NodeMetricsProvider}
use my_learning_journey.Storage.{
  Selector, ListOptions, Selection, label_selector_or, field_selector_or,
}

-- `metrics.NodeMetrics` of the metrics API, with the fields that are set; a nil resource list is
-- `none`.
pub record NodeMetrics (Quantity : Type 0) : Type 0 where
  pub name : String
  pub creation_timestamp : Time
  pub timestamp : Time
  pub window : Duration
  pub usage : Option (ResourceList Quantity)

-- The informer's lister: `ListWithPredicate`.
pub record NodeLister : Type 0 where
  pub list_with_predicate : (Node → Bool) → Result Error (List Node)

pub record MetricStorage (Quantity : Type 0) : Type 0 where
  pub group_resource : String
  pub prov : NodeMetricsProvider Quantity
  pub node_lister : NodeLister

abbrev pub new_storage :
    {Quantity : Type 0}
    → String
    → NodeMetricsProvider Quantity
    → NodeLister
    → MetricStorage Quantity
new_storage group_resource prov node_lister = record {
  group_resource = group_resource;
  prov = prov;
  node_lister = node_lister;
}

-- The predicate that `List` gives the lister.
unfoldable pub is_selected : Selection → Option ListOptions → Node → Bool
is_selected selection options node =
    let label_selector = label_selector_or selection.labels_everything options in
    let field_selector = field_selector_or selection.fields_everything options in
    if label_selector.empty && field_selector.empty
    then true
    else label_selector.matches node.labels
      && field_selector.matches (selection.object_meta_fields_set node.name node.namespace)

abbrev pub kind : String
kind = "NodeMetrics"

abbrev pub namespace_scoped : Bool
namespace_scoped = false

module _ {Quantity : Type 0} where
  -- `New`: the zero object.
  abbrev pub new_object : NodeMetrics Quantity
  new_object = record {
    name = "";
    creation_timestamp = zero_time;
    timestamp = zero_time;
    window = pos 0;
    usage = none;
  }

  -- `NewList`, by its items.
  abbrev pub new_list : List (NodeMetrics Quantity)
  new_list = []

  abbrev pub node_item : Time → String → TimeInfo → ResourceList Quantity → NodeMetrics Quantity
  node_item now name t usage = record {
    name = name;
    creation_timestamp = now;
    timestamp = t.timestamp;
    window = t.window;
    usage = some usage;
  }

  -- The loop of `getNodeMetrics`; `now i` is the clock in round `i`. An index out of range panics.
  unfoldable pub items_from :
      (ℕ → Time)
      → List TimeInfo
      → List (Option (ResourceList Quantity))
      → ℕ
      → List String
      → List (NodeMetrics Quantity)
      → Run (List (NodeMetrics Quantity))
  items_from now timestamps usages i [] res = returns res
  items_from now timestamps usages i (name ∷ names) res = elim (get_elem? usages i) [
    | none ↦ panics
    | some none ↦ items_from now timestamps usages (suc i) names res
    | some (some usage) ↦ elim (get_elem? timestamps i) [
      | none ↦ panics
      | some t ↦
          items_from now timestamps usages (suc i) names
            (res ++ node_item (now i) name t usage ∷ [])
    ]
  ]

  unfoldable pub get_node_metrics :
      MetricStorage Quantity
      → (ℕ → Time)
      → List String
      → Run (Result Error (List (NodeMetrics Quantity)))
  get_node_metrics m now names = elim (m.prov.get_node_metrics names) [
    | err e ↦ returns (err e)
    | ok (timestamps, usages) ↦
        items_from now timestamps usages 0 names [] >>= λ res. returns (ok res)
  ]

  -- The items of the list that is returned, and the error.
  unfoldable pub list :
      Selection
      → MetricStorage Quantity
      → (ℕ → Time)
      → Option ListOptions
      → Run (List (NodeMetrics Quantity) × Option Error)
  unfolding is_selected get_node_metrics
  list selection m now options =
      let text = (label_selector_or selection.labels_everything options).text in
      elim (m.node_lister.list_with_predicate (is_selected selection options)) [
        | err e ↦ returns (new_list, some (Error.listing_nodes text e))
        | ok nodes ↦ get_node_metrics m now (map (λ n. n.name) nodes) >>= λ answer. elim answer [
          | err e ↦ returns (new_list, some (Error.fetching_node_metrics text e))
          | ok items ↦ returns (items, none)
        ]
      ]

  -- The object beside an error is nil.
  unfoldable pub get :
      MetricStorage Quantity → (ℕ → Time) → String → Run (Result Error (NodeMetrics Quantity))
  unfolding get_node_metrics
  get m now name = get_node_metrics m now (name ∷ []) >>= λ answer. elim answer [
    | err e ↦ returns (err (Error.not_found m.group_resource name))
    | ok [] ↦ returns (err (Error.not_found m.group_resource name))
    | ok (item ∷ _) ↦ returns (ok item)
  ]
