-- ===== src/Sources/Provider/Nodes.antt =====
-- summaryProvider.GetMetricSources: the nodes with a source, and those with an error.
use mathlib.Core.List.{
  append_assoc, append-nil, filter_map, filter_map-cons-some, filter_map-cons-none,
}
use my_learning_journey.Base.{
  ◌≡◌, refl, ◌∙◌, ◌≢◌, ◌↔◌, inl, inr, Option, none, some, List, [], ◌∷◌, ◌++◌, Result, ok, err,
  Result-cases, arith, All,
}
use my_learning_journey.Errors.{Error}
use my_learning_journey.Sources.{MetricSource, Packages, IsAggregate, new_aggregate-eq-none}
use my_learning_journey.Sources.Stats.{Quantities, KubeletInterface}
use my_learning_journey.Sources.Summary.{new_summary_metrics_source}
use my_learning_journey.Sources.Addresses.{Node, NodeAddressResolver}
use my_learning_journey.Sources.Provider.{get_node_info, sources_from, get_metric_sources}

module _ {Quantity : Type 0} (quantities : Quantities Quantity) (packages : Packages)
    (client : KubeletInterface) (resolver : NodeAddressResolver) where
  -- The source of a node that has an address.
  abbrev pub source_of : Node → Option (MetricSource Quantity)
  source_of node = elim (resolver.resolve node) [
    | ok addr ↦ some (
        new_summary_metrics_source quantities packages client
          (record { name = node.name; connect_address = addr }))
    | err e ↦ none
  ]

  -- The error of a node that has none.
  abbrev pub error_of : Node → Option Error
  error_of node = elim (resolver.resolve node) [
    | ok addr ↦ none
    | err e ↦ some (Error.connection_info node.name e)
  ]

  sources_from_lem :
      (nodes : List Node) (sources : List (MetricSource Quantity)) (errs : List Error)
      → sources_from quantities packages client resolver nodes sources errs
        ≡ (sources ++ filter_map source_of nodes, errs ++ filter_map error_of nodes)
  unfolding sources_from
  sources_from_lem [] sources errs = unfold filter_map in rw (append-nil sources, append-nil errs)
  sources_from_lem (node ∷ nodes) sources errs = elim (Result-cases (resolver.resolve node)) [
    | inl (addr, e) ↦
        let source =
          new_summary_metrics_source quantities packages client
            (record { name = node.name; connect_address = addr }) in
        let there : source_of node ≡ some source = rw (e, source_of) in
        let gone : error_of node ≡ none = rw (e, error_of) in
        rw
          (
            filter_map-cons-some source_of node nodes there,
            filter_map-cons-none error_of node nodes gone,
            e,
            sources_from,
            get_node_info,
          )
          (sources_from_lem nodes (sources ++ source ∷ []) errs
            ∙ rw (append_assoc sources (source ∷ []) (filter_map source_of nodes)))
    | inr (cause, e) ↦
        let error = Error.connection_info node.name cause in
        let gone : source_of node ≡ none = rw (e, source_of) in
        let there : error_of node ≡ some error = rw (e, error_of) in
        rw
          (
            filter_map-cons-none source_of node nodes gone,
            filter_map-cons-some error_of node nodes there,
            e,
            sources_from,
            get_node_info,
          )
          (sources_from_lem nodes sources (errs ++ error ∷ [])
            ∙ rw (append_assoc errs (error ∷ []) (filter_map error_of nodes)))
  ]

  no_errors :
      (nodes : List Node)
      → (filter_map error_of nodes ≡ []) ↔ All (λ node. source_of node ≢ none) nodes
  unfolding filter_map
  no_errors [] = ((λ _. tt), (λ _. refl))
  no_errors (node ∷ nodes) = elim (Result-cases (resolver.resolve node)) [
    | inl (addr, e) ↦ (
      (λ z. ((λ missing. ground arith), (no_errors nodes).0 (ground arith))),
      (λ all. ground (arith, (no_errors nodes).1 all.1)),
    )
    | inr (cause, e) ↦ ((λ z. absurd (ground arith)), (λ all. absurd (all.0 (ground arith))))
  ]

  -- What the provider gives, for the lister's answer.
  abbrev pub Provides :
      Result Error (List Node) → List (MetricSource Quantity) × Option Error → Type 0
  Provides (ok nodes) r =
      (r.0 ≡ filter_map source_of nodes)
      × ((r.1 ≡ none) ↔ All (λ node. source_of node ≢ none) nodes)
  Provides (err e) r = r ≡ ([], some (Error.list_nodes e))

  -- Where the lister answers, the provider gives a source for exactly the nodes whose address
  -- resolves, in the lister's order, and an error exactly when some node has no address. Where the
  -- lister fails there is no source, and its error is passed on.
  pub get_metric_sources_lem :
      IsAggregate packages
      → (answer : Result Error (List Node))
      → Provides answer (get_metric_sources quantities packages client resolver answer)
  unfolding get_metric_sources
  get_metric_sources_lem h (ok nodes) =
      let (found, missing) = no_errors nodes in
      let (none_left, empty) = new_aggregate-eq-none packages h (filter_map error_of nodes) in
      rw (sources_from_lem nodes [] [])
        (refl, ((λ z. found (none_left z)), (λ all. empty (missing all))))
  get_metric_sources_lem h (err e) = refl
