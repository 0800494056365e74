-- ===== src/Sources/Provider.antt =====
-- pkg/sources/summary/summary.go: `summaryProvider`, a source for each node of the cluster.
pub mod Nodes
use my_learning_journey.Base.{String, Option, none, some, List, [], ◌∷◌, ◌++◌, Result, ok, err}
use my_learning_journey.Errors.{Error}
use my_learning_journey.Sources.{MetricSource, Packages, MetricSourceProvider}
use my_learning_journey.Sources.Stats.{Quantities, KubeletInterface}
use my_learning_journey.Sources.Summary.{NodeInfo, new_summary_metrics_source}
use my_learning_journey.Sources.Addresses.{Node, NodeAddressResolver}

unfoldable pub get_node_info : NodeAddressResolver → Node → Result Error NodeInfo
get_node_info resolver node = elim (resolver.resolve node) [
  | err e ↦ err e
  | ok addr ↦ ok (record { name = node.name; connect_address = addr })
]

module _ {Quantity : Type 0} (quantities : Quantities Quantity) (packages : Packages)
    (client : KubeletInterface) (resolver : NodeAddressResolver) where
  -- The loop over the nodes, from the sources and the errors so far.
  unfoldable pub sources_from :
      List Node
      → List (MetricSource Quantity)
      → List Error
      → List (MetricSource Quantity) × List Error
  unfolding get_node_info
  sources_from [] sources errs = (sources, errs)
  sources_from (node ∷ nodes) sources errs = elim (get_node_info resolver node) [
    | err e ↦ sources_from nodes sources (errs ++ Error.connection_info node.name e ∷ [])
    | ok info ↦
        sources_from nodes
          (sources ++ new_summary_metrics_source quantities packages client info ∷ []) errs
  ]

  -- `nodes` is what the lister answers.
  unfoldable pub get_metric_sources :
      Result Error (List Node) → List (MetricSource Quantity) × Option Error
  unfolding sources_from
  get_metric_sources (err e) = ([], some (Error.list_nodes e))
  get_metric_sources (ok nodes) =
      let (sources, errs) = sources_from nodes [] [] in (sources, packages.new_aggregate errs)

  -- `NewSummaryProvider`
  unfoldable pub new_summary_provider : Result Error (List Node) → MetricSourceProvider Quantity
  unfolding get_metric_sources
  new_summary_provider nodes = record { get_metric_sources = get_metric_sources nodes }
