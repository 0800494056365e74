-- ===== src/Storage/Pods/Served.antt =====
-- MetricStorage.List and Get of pods, over the sink.
use my_learning_journey.Base.{
  ℕ, ◌≡◌, refl, ap, ◌∙◌, inl, inr, String, Bool, true, false, Bool-cases, Option, none, some,
  Option-cases, List, [], ◌∷◌, Result, ok, err, Result-cases, returns, map, filter, length-map,
  ◌==◌, string_comparable,
}
use my_learning_journey.Golang.{Time}
use my_learning_journey.Errors.{Error}
use my_learning_journey.Sources.{MetricsBatch}
use my_learning_journey.Provider.{namespaced_name_comparable}
use my_learning_journey.Sink.{SinkMetricsProvider, receive, pod_metrics, pod_metrics_provider}
use my_learning_journey.Sink.Latest.{pod_in, pod_answers, get_container_metrics-receive}
use my_learning_journey.Storage.{ListOptions, Selection, label_selector_or}
use my_learning_journey.Storage.Pods.{
  Pod, PodMetrics, PodLister, MetricStorage, new_storage, pod_running, fields_match, filter_fields,
  namespaced_name, slashed, pod_item, get_pod_metrics, first_item, list, get,
}
use my_learning_journey.Storage.Pods.Removal.{filter_fields-filter}
use my_learning_journey.Storage.Pods.Items.{items_of, items-answers, get_pod_metrics-items}

-- The pods that the field selector matches, if there is one.
abbrev pub field_matched : Selection → Option ListOptions → List Pod → List Pod
field_matched selection none pods = pods
field_matched selection (some options) pods = elim options.field_selector [
  | none ↦ pods
  | some selector ↦ filter (fields_match selection selector) pods
]

filter_fields-matched :
    (selection : Selection) (options : Option ListOptions) (pods : List Pod)
    → filter_fields selection options pods ≡ returns (field_matched selection options pods)
filter_fields-matched selection none pods = unfold filter_fields in refl
filter_fields-matched selection (some options) pods = elim (Option-cases options.field_selector) [
  | inl e ↦ unfold filter_fields in rw e refl
  | inr (s, e) ↦ rw (filter_fields-filter selection options s pods e, e) refl
]

module _ {Quantity : Type 0} (p : SinkMetricsProvider Quantity) (batch : MetricsBatch Quantity)
    (group : String) (lister : PodLister) where
  -- The storage as it is installed, over the sink that has received `batch`.
  abbrev pub served : MetricStorage Quantity
  served = new_storage group (pod_metrics_provider (receive p batch).0) lister

  get_pod_metrics-served :
      (now : ℕ → Time) (pods : List Pod)
      → get_pod_metrics served now pods ≡ returns (ok (items_of (pod_in batch) now 0 pods))
  unfolding pod_metrics_provider
  get_pod_metrics-served now pods =
      let names = map namespaced_name pods in
      let (ts, css) = pod_answers (pod_in batch) names in
      get_pod_metrics-items served now pods ts css (get_container_metrics-receive p batch names)
        (length-map _ names ∙ length-map _ pods) (length-map _ names ∙ length-map _ pods)
      ∙ ap (λ res. returns (ok res)) (items-answers (pod_in batch) now 0 pods)

  -- Over the sink after a batch, where the lister answers `listed` for the label selector, List
  -- answers with an item for each listed pod that the field selector, if any, matches, that is
  -- running and that has a point in the batch, in the order of the lister, and without an error.
  pub pods_list-served :
      (selection : Selection) (now : ℕ → Time) (namespace : String) (options : Option ListOptions)
      (listed : List Pod)
      → lister.list namespace (label_selector_or selection.labels_everything options) ≡ ok listed
      → list selection served now namespace options
        ≡ returns (items_of (pod_in batch) now 0 (field_matched selection options listed), none)
  unfolding list
  pods_list-served selection now namespace options listed h =
      rw (h, filter_fields-matched, get_pod_metrics-served) refl

  -- What Get answers, from the lister's answer.
  abbrev pub get_answer :
      (Error → Bool)
      → Time
      → (namespace name : String) → Result Error (Option Pod)
      → Result Error (PodMetrics Quantity)
  get_answer is_not_found now namespace name (err e) =
      err (elim (is_not_found e) [ true ↦ e | false ↦ Error.getting_pod name e ])
  get_answer is_not_found now namespace name (ok none) =
      err (Error.not_found "pods" (slashed namespace name))
  get_answer is_not_found now namespace name (ok (some pod)) = elim (pod.phase == pod_running) [
    | false ↦ err (Error.not_found group (slashed namespace name))
    | true ↦ elim (pod_in batch (namespaced_name pod)) [
      | none ↦ err (Error.not_found group (slashed namespace name))
      | some q ↦ ok (pod_item now pod (pod_metrics q).0 (pod_metrics q).1)
    ]
  ]

  first_item-served :
      (is_not_found : Error → Bool) (now : ℕ → Time) (namespace name : String) (pod : Pod)
      → first_item
          (Error.not_found group (slashed namespace name))
          (ok (items_of (pod_in batch) now 0 (pod ∷ [])))
        ≡ get_answer is_not_found (now 0) namespace name (ok (some pod))
  first_item-served is_not_found now namespace name pod =
      elim (Bool-cases (pod.phase == pod_running)) [
        | inl e ↦ elim (Option-cases (pod_in batch (namespaced_name pod))) [
          | inl g ↦ rw (g, items_of, e, get_answer) (rw g refl)
          | inr (q, g) ↦ rw (g, items_of, e, get_answer) (rw g refl)
        ]
        | inr e ↦ elim (Option-cases (pod_in batch (namespaced_name pod))) [
          | inl g ↦ rw (g, items_of, e, get_answer) refl
          | inr (q, g) ↦ rw (g, items_of, e, get_answer) refl
        ]
      ]

  -- Over the sink after a batch, Get on every answer of the lister: its not-found error is passed
  -- on, another is wrapped with the name, and a nil pod is not found. A pod that is not running or
  -- has no point in the batch is not found under the storage's own resource; any other is answered
  -- with the item made of its point.
  pub pods_get-served :
      (is_not_found : Error → Bool) (now : ℕ → Time) (namespace name : String)
      → get is_not_found served now namespace name
        ≡ returns (get_answer is_not_found (now 0) namespace name (lister.get namespace name))
  unfolding get
  pods_get-served is_not_found now namespace name =
      elim (Result-cases (lister.get namespace name)) [
        | inr (e, h) ↦ elim (Bool-cases (is_not_found e)) [
          | inl g ↦ rw (h, get) (rw g refl)
          | inr g ↦ rw (h, get) (rw g refl)
        ]
        | inl (o, h) ↦ elim (Option-cases o) [
          | inl g ↦ rw (h, get) (rw g refl)
          | inr (pod, g) ↦
              rw (h, get)
                (rw (g, get_pod_metrics-served)
                  (ap returns (first_item-served is_not_found now namespace name pod)))
        ]
      ]
