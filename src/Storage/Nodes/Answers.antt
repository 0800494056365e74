-- ===== src/Storage/Nodes/Answers.antt =====
-- MetricStorage.List and Get of nodes, over the sink.
use mathlib.Core.Path.{fun_ext}
use mathlib.Core.List.{append_assoc, append-nil}
use my_learning_journey.Base.{
  length-snoc_same, ℕ, suc, ◌≡◌, refl, ap, ◌∙◌, inl, inr, String, Bool, Bool-cases, ◌&&◌, Option,
  none, some, Option-cases, List, [], ◌∷◌, ◌++◌, Result, ok, err, Run, returns, arith, map, filter,
  length, get_elem?, get_elem?-append, length-snoc, length-map,
}
use my_learning_journey.Golang.{Time}
use my_learning_journey.Errors.{Error}
use my_learning_journey.Sources.{MetricsBatch, NodeMetricsPoint}
use my_learning_journey.Sources.Addresses.{Node}
use my_learning_journey.Provider.{TimeInfo, ResourceList}
use my_learning_journey.Sink.{
  SinkMetricsProvider, receive, node_time_info, node_usage, node_metrics_provider,
}
use my_learning_journey.Sink.Latest.{node_in, node_answers, get_node_metrics-receive}
use my_learning_journey.Storage.{
  Selector, ListOptions, Selection, label_selector_or, field_selector_or, EmptyMatches,
}
use my_learning_journey.Storage.Nodes.{
  NodeMetrics, NodeLister, MetricStorage, new_storage, is_selected, node_item, items_from,
  get_node_metrics, list, get,
}

module _ {Quantity : Type 0} where
  -- An item for each name that has a usage, the clock read in its round.
  abbrev pub items :
      (ℕ → Time)
      → ℕ
      → List String
      → List TimeInfo
      → List (Option (ResourceList Quantity))
      → List (NodeMetrics Quantity)
  items now i (n ∷ names) (t ∷ ts) (some u ∷ us) =
      node_item (now i) n t u ∷ items now (suc i) names ts us
  items now i (n ∷ names) (t ∷ ts) (none ∷ us) = items now (suc i) names ts us
  items now i _ _ _ = []

  module _ (now : ℕ → Time) (ts : List TimeInfo) (us : List (Option (ResourceList Quantity)))
      (i : ℕ) (n : String) (names : List String) (res : List (NodeMetrics Quantity)) where
    items_from-skip :
        get_elem? us i ≡ some none
        → items_from now ts us i (n ∷ names) res ≡ items_from now ts us (suc i) names res
    unfolding items_from
    items_from-skip e = rw (e, items_from)

    items_from-item :
        (t : TimeInfo) (u : ResourceList Quantity)
        → get_elem? us i ≡ some (some u)
        → get_elem? ts i ≡ some t
        → items_from now ts us i (n ∷ names) res
          ≡ items_from now ts us (suc i) names (res ++ node_item (now i) n t u ∷ [])
    unfolding items_from
    items_from-item t u e f = rw (e, items_from) (rw f)

  items_from-items :
      (now : ℕ → Time) (names : List String) (seen ts : List TimeInfo)
      (seen_us us : List (Option (ResourceList Quantity))) (res : List (NodeMetrics Quantity))
      → length seen ≡ length seen_us
      → length ts ≡ length names
      → length us ≡ length names
      → items_from now (seen ++ ts) (seen_us ++ us) (length seen) names res
        ≡ returns (res ++ items now (length seen) names ts us)
  items_from-items now [] seen [] seen_us [] res p q r = unfold items_from in rw append-nil
  items_from-items now [] seen (t ∷ ts) seen_us us res p q r = absurd (omega arith)
  items_from-items now [] seen [] seen_us (u ∷ us) res p q r = absurd (omega arith)
  items_from-items now (n ∷ names) seen [] seen_us us res p q r = absurd (omega arith)
  items_from-items now (n ∷ names) seen (t ∷ ts) seen_us [] res p q r = absurd (omega arith)
  items_from-items now (n ∷ names) seen (t ∷ ts) seen_us (none ∷ us) res p q r =
      items_from-skip now _ _ _ n names res (rw p (get_elem?-append seen_us none us))
      ∙ rw
          (
            ← append_assoc seen (t ∷ []) ts,
            ← append_assoc seen_us (none ∷ []) us,
            ← length-snoc seen t,
          )
          (items_from-items now names (seen ++ t ∷ []) ts (seen_us ++ none ∷ []) us res
            (length-snoc_same seen seen_us t none p) (omega arith) (omega arith))
  items_from-items now (n ∷ names) seen (t ∷ ts) seen_us (some u ∷ us) res p q r =
      let item = node_item (now (length seen)) n t u in
      items_from-item now _ _ _ n names res t u (rw p (get_elem?-append seen_us (some u) us))
        (get_elem?-append seen t ts)
      ∙ rw
          (
            ← append_assoc seen (t ∷ []) ts,
            ← append_assoc seen_us (some u ∷ []) us,
            ← length-snoc seen t,
            ← append_assoc res (item ∷ []) (items now (length (seen ++ t ∷ [])) names ts us),
          )
          (items_from-items now names (seen ++ t ∷ []) ts (seen_us ++ some u ∷ []) us
            (res ++ item ∷ []) (length-snoc_same seen seen_us t (some u) p) (omega arith)
            (omega arith))

  get_node_metrics-items :
      (m : MetricStorage Quantity) (now : ℕ → Time) (names : List String) (ts : List TimeInfo)
      (us : List (Option (ResourceList Quantity)))
      → m.prov.get_node_metrics names ≡ ok (ts, us)
      → length ts ≡ length names
      → length us ≡ length names
      → get_node_metrics m now names ≡ returns (ok (items now 0 names ts us))
  unfolding get_node_metrics
  get_node_metrics-items m now names ts us e p q =
      rw (e, get_node_metrics) (rw (items_from-items now names [] ts [] us [] refl p q) refl)

  -- The items for the names that a batch has a point of.
  abbrev pub items_of :
      (String → Option (NodeMetricsPoint Quantity))
      → (ℕ → Time)
      → ℕ
      → List String
      → List (NodeMetrics Quantity)
  items_of find now i [] = []
  items_of find now i (n ∷ names) = elim (find n) [
    | none ↦ items_of find now (suc i) names
    | some p ↦
        node_item (now i) n (node_time_info p) (node_usage p) ∷ items_of find now (suc i) names
  ]

  items-answers :
      (find : String → Option (NodeMetricsPoint Quantity)) (now : ℕ → Time) (i : ℕ)
      (names : List String)
      → items now i names (node_answers find names).0 (node_answers find names).1
        ≡ items_of find now i names
  items-answers find now i [] = refl
  items-answers find now i (n ∷ names) = elim (Option-cases (find n)) [
    | inl e ↦ rw (e, items_of) (items-answers find now (suc i) names)
    | inr (p, e) ↦
        rw (e, items_of)
          (ap (◌∷◌ (node_item (now i) n (node_time_info p) (node_usage p)))
            (items-answers find now (suc i) names))
  ]

module _ {Quantity : Type 0} (p : SinkMetricsProvider Quantity) (batch : MetricsBatch Quantity)
    (group : String) (lister : NodeLister) where
  -- The storage as it is installed, over the sink that has received `batch`.
  abbrev pub served : MetricStorage Quantity
  served = new_storage group (node_metrics_provider (receive p batch).0) lister

  get_node_metrics-served :
      (now : ℕ → Time) (names : List String)
      → get_node_metrics served now names ≡ returns (ok (items_of (node_in batch) now 0 names))
  unfolding node_metrics_provider
  get_node_metrics-served now names =
      get_node_metrics-items served now names (node_answers (node_in batch) names).0
        (node_answers (node_in batch) names).1 (get_node_metrics-receive p batch names)
        (length-map _ names) (length-map _ names)
      ∙ ap (λ res. returns (ok res)) (items-answers (node_in batch) now 0 names)

  -- Over the sink after a batch, Get answers with the first point of the batch that has the name,
  -- and with a not-found error exactly where there is none.
  pub get-served :
      (now : ℕ → Time) (name : String)
      → get served now name
        ≡ (elim (node_in batch name) as (λ _. Run (Result Error (NodeMetrics Quantity))) [
          | none ↦ returns (err (Error.not_found group name))
          | some q ↦ returns (ok (node_item (now 0) name (node_time_info q) (node_usage q)))
        ])
  unfolding get
  get-served now name = elim (Option-cases (node_in batch name)) [
    | inl e ↦ rw (get_node_metrics-served, e, items_of) refl
    | inr (q, e) ↦ rw (get_node_metrics-served, e, items_of) refl
  ]

  module _ (selection : Selection) (now : ℕ → Time) (options : Option ListOptions) where
    abbrev pub label_selector : Selector
    label_selector = label_selector_or selection.labels_everything options

    abbrev pub field_selector : Selector
    field_selector = field_selector_or selection.fields_everything options

    -- Both selectors match the node.
    abbrev pub matches : Node → Bool
    matches n =
        label_selector.matches n.labels
        && field_selector.matches (selection.object_meta_fields_set n.name n.namespace)

    is_selected-matches :
        EmptyMatches label_selector
        → EmptyMatches field_selector
        → (n : Node) → is_selected selection options n ≡ matches n
    unfolding is_selected
    is_selected-matches hl hf n =
        let set = selection.object_meta_fields_set n.name n.namespace in
        elim (Bool-cases label_selector.empty) [
          | inr e ↦ rw e refl
          | inl e ↦ elim (Bool-cases field_selector.empty) [
            | inl e' ↦ rw (e, e', hl e n.labels, hf e' set) refl
            | inr e' ↦ rw (e, e') refl
          ]
        ]

    -- Where the lister filters the nodes it has cached, and an empty selector matches everything,
    -- List over the sink after a batch answers with an item for each cached node that both
    -- selectors match and that has a point in the batch, in the order of the cache, and without an
    -- error.
    pub list-served :
        (cached : List Node)
        → ((keep : Node → Bool) → lister.list_with_predicate keep ≡ ok (filter keep cached))
        → EmptyMatches label_selector
        → EmptyMatches field_selector
        → list selection served now options
          ≡ returns
              (items_of (node_in batch) now 0 (map (λ n. n.name) (filter matches cached)), none)
    unfolding list
    list-served cached h hl hf =
        let same : is_selected selection options ≡ matches = fun_ext (is_selected-matches hl hf) in
        rw (h (is_selected selection options), same, get_node_metrics-served) refl

    -- A failure of the lister is wrapped with the label selector's text, with an empty list.
    list-listing_nodes :
        (e : Error)
        → lister.list_with_predicate (is_selected selection options) ≡ err e
        → list selection served now options
          ≡ returns ([], some (Error.listing_nodes label_selector.text e))
    unfolding list
    list-listing_nodes e h = rw h refl
