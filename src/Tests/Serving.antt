-- ===== src/Tests/Serving.antt =====
-- The sink after a batch, and the two storages over it.
use my_learning_journey.Base.{
  ℕ, ◌≡◌, refl, String, Bool, true, false, none, some, List, [], ◌∷◌, ok, err, returns, filter,
  ◌==◌, string_comparable,
}
use my_learning_journey.Golang.{Time}
use my_learning_journey.Errors.{Error}
use my_learning_journey.Sink.{
  SinkMetricsProvider, new_sink_provider, receive, get_node_metrics, get_container_metrics,
  pod_metrics,
}
use my_learning_journey.Sink.Latest.{
  node_in, pod_in, node_answers, pod_answers, get_node_metrics-receive,
  get_container_metrics-receive,
}
use my_learning_journey.Sink.Earliest.{IsPodMetrics, pod_metrics-IsPodMetrics}
use my_learning_journey.Sources.Addresses.{Node}
use my_learning_journey.Storage.{Selector, ListOptions, Selection}
use my_learning_journey.Storage.Nodes as Nodes
use my_learning_journey.Storage.Nodes.Answers as NodeAnswers
use my_learning_journey.Storage.Nodes.Answers.{get-served, list-served}
use my_learning_journey.Storage.Pods as Pods
use my_learning_journey.Storage.Pods.{Pod, PodLister, filter_fields, fields_match}
use my_learning_journey.Storage.Pods.Items.{items_of}
use my_learning_journey.Storage.Pods.Removal.{filter_fields-filter}
use my_learning_journey.Storage.Pods.Served.{
  served, field_matched, get_answer, pods_list-served, pods_get-served,
}
use my_learning_journey.Tests.{Amount, batch_of, pod_point, named, node, at}

abbrev old : SinkMetricsProvider Amount
old = (receive new_sink_provider (batch_of "n0")).0

get_node_metrics-receive_example :
    get_node_metrics (receive old (batch_of "n1")).0 ("n0" ∷ "n1" ∷ [])
    ≡ ok (node_answers (node_in (batch_of "n1")) ("n0" ∷ "n1" ∷ []))
get_node_metrics-receive_example = get_node_metrics-receive old (batch_of "n1") ("n0" ∷ "n1" ∷ [])

get_container_metrics-receive_example :
    get_container_metrics (receive old (batch_of "n1")).0 (named "p" ∷ named "q" ∷ [])
    ≡ ok (pod_answers (pod_in (batch_of "n1")) (named "p" ∷ named "q" ∷ []))
get_container_metrics-receive_example =
    get_container_metrics-receive old (batch_of "n1") (named "p" ∷ named "q" ∷ [])

pod_metrics-IsPodMetrics_example : IsPodMetrics (pod_point "p") (pod_metrics (pod_point "p"))
pod_metrics-IsPodMetrics_example = pod_metrics-IsPodMetrics (pod_point "p")

abbrev everything : Selector
everything = record { text = ""; empty = true; matches = λ set. true }

-- Matches the objects with this name.
abbrev has_name : String → Selector
has_name name = record {
  text = name;
  empty = false;
  matches = λ set. elim set [ [] ↦ false | pair ∷ _ ↦ pair.1 == name ];
}

abbrev selection : Selection
selection = record {
  labels_everything = everything;
  fields_everything = everything;
  object_meta_fields_set =
      λ name namespace. ("metadata.name", name) ∷ ("metadata.namespace", namespace) ∷ [];
}

abbrev options : ListOptions
options = record { label_selector = none; field_selector = some (has_name "n1") }

-- Matches the objects of this namespace.
abbrev has_namespace : String → Selector
has_namespace namespace = record {
  text = namespace;
  empty = false;
  matches = λ set. elim set [ name ∷ pair ∷ _ ↦ pair.1 == namespace | _ ↦ false ];
}

abbrev node_options : ListOptions
node_options = record { label_selector = none; field_selector = some (has_namespace "testValue") }

abbrev cached : List Node
cached = record (node "n1" []) { namespace = "testValue" } ∷ node "n2" [] ∷ []

abbrev pub node_lister : Nodes.NodeLister
node_lister = record { list_with_predicate = λ keep. ok (filter keep cached) }

abbrev now : ℕ → Time
now = λ i. at 100

get-served_example :
    Nodes.get (NodeAnswers.served old (batch_of "n1") "nodes" node_lister) now "n2"
    ≡ returns (err (Error.not_found "nodes" "n2"))
get-served_example = get-served old (batch_of "n1") "nodes" node_lister now "n2"

list-served_example :
    Nodes.list selection
      (NodeAnswers.served old (batch_of "n1") "nodes" node_lister)
      now
      (some node_options)
    ≡ returns (NodeAnswers.items_of (node_in (batch_of "n1")) now 0 ("n1" ∷ []), none)
list-served_example =
    list-served old (batch_of "n1") "nodes" node_lister selection now (some node_options) cached
      (λ keep. refl) (λ e set. refl) (λ e set. cc)

abbrev pod : (name phase : String) → Pod
pod n p = record { name = n; namespace = "ns"; phase = p }

abbrev pods : List Pod
pods = pod "n1" "Running" ∷ pod "p" "Running" ∷ pod "q" "Pending" ∷ []

abbrev pub pod_lister : PodLister
pod_lister = record {
  list = λ namespace selector. ok pods;
  get = λ namespace name. ok (some (pod name "Running"));
}

filter_fields-filter_example :
    filter_fields selection (some options) pods
    ≡ returns (filter (fields_match selection (has_name "n1")) pods)
filter_fields-filter_example = filter_fields-filter selection options (has_name "n1") pods refl

pods_list-served_example :
    Pods.list selection (served old (batch_of "n1") "pods" pod_lister) now "ns" (some options)
    ≡ returns (
      items_of (pod_in (batch_of "n1")) now 0 (field_matched selection (some options) pods),
      none,
    )
pods_list-served_example =
    pods_list-served old (batch_of "n1") "pods" pod_lister selection now "ns" (some options) pods
      refl

abbrev is_not_found : Error → Bool
is_not_found (Error.not_found r n) = true
is_not_found e = false

pods_get-served_example :
    Pods.get is_not_found (served old (batch_of "n1") "pods" pod_lister) now "ns" "p"
    ≡ returns (
        get_answer old
          (batch_of "n1")
          "pods"
          pod_lister
          is_not_found
          (at 100)
          "ns"
          "p"
          (ok (some (pod "p" "Running"))))
pods_get-served_example =
    pods_get-served old (batch_of "n1") "pods" pod_lister is_not_found now "ns" "p"
