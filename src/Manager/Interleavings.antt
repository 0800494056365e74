-- ===== src/Manager/Interleavings.antt =====
-- The order in which the goroutines of a scrape make progress, as the sink's queries see it.
use mathlib.Core.List.Perm
use mathlib.Core.List.{Perm}
use mathlib.Core.Path.{fun_ext}
use my_learning_journey.Base.{ℕ, ◌≡◌, sym, ap, ◌∙◌, String, List, ok, string_comparable}
use my_learning_journey.Base.Find.{Identifies, find?-perm}
use my_learning_journey.Errors.{Error}
use my_learning_journey.Sources.{MetricsBatch}
use my_learning_journey.Sources.SourceManager.{Outcome, State, returned, Reach}
use my_learning_journey.Sources.SourceManager.Gather.{gather, nodes_of, pods_of, collect_gathers}
use my_learning_journey.Provider.{NamespacedName, namespaced_name_comparable}
use my_learning_journey.Sink.{
  SinkMetricsProvider, get_node_metrics, get_container_metrics, pod_ident, receive,
}
use mathlib.Core.Quot
use my_learning_journey.Sink.Contents.{NamedBatch, Contents, Shows, receive-Shows}
use my_learning_journey.Sink.Latest.{
  node_in, pod_in, node_answers, pod_answers, get_node_metrics-receive,
  get_container_metrics-receive,
}

-- A list is told apart by its keys in any order.
Identifies-perm :
    {A K : Type 0} (key : A → K) (xs ys : List A)
    → Perm xs ys
    → Identifies key ys
    → Identifies key xs
Identifies-perm key xs ys p only x y m n = only x y ((Perm.mem_iff p).0 m) ((Perm.mem_iff p).0 n)

module _ {Quantity : Type 0} where
  -- Two sinks that have received the same points, in any order, answer every query alike.
  same_answers :
      (p q : SinkMetricsProvider Quantity) (a b : MetricsBatch Quantity)
      → Perm a.nodes b.nodes
      → Perm a.pods b.pods
      → Identifies (λ x. x.name) a.nodes
      → Identifies pod_ident a.pods
      → (names : List String) (idents : List NamespacedName)
      → (get_node_metrics (receive p a).0 names ≡ get_node_metrics (receive q b).0 names)
        × (get_container_metrics (receive p a).0 idents
            ≡ get_container_metrics (receive q b).0 idents)
  same_answers p q a b nodes pods nodes_once pods_once names idents =
      let same_nodes : node_in a ≡ node_in b =
        fun_ext (λ n. find?-perm (λ x. x.name) a.nodes b.nodes nodes nodes_once n) in
      let same_pods : pod_in a ≡ pod_in b =
        fun_ext (λ n. find?-perm pod_ident a.pods b.pods pods pods_once n) in
      (
        get_node_metrics-receive p a names
            ∙ ap (λ find. ok (node_answers find names)) same_nodes
            ∙ sym (get_node_metrics-receive q b names),
        get_container_metrics-receive p a idents
            ∙ ap (λ find. ok (pod_answers find idents)) same_pods
            ∙ sym (get_container_metrics-receive q b idents),
      )

  -- Where no two points that the sources answer share a name, the order in which the goroutines
  -- make progress does not matter: after any two runs of Collect from the same answers of the
  -- sources, the sink that receives the batch answers every query alike, whatever it held before.
  pub order_irrelevant :
      {errs : List Error} {outcomes : List (Outcome Quantity)} {k l : ℕ} {s t : State Quantity}
      → Reach errs outcomes k s
      → s.main ≡ returned
      → Reach errs outcomes l t
      → t.main ≡ returned
      → Identifies (λ x. x.name) (gather (λ o. nodes_of o.metrics) outcomes)
      → Identifies pod_ident (gather (λ o. pods_of o.metrics) outcomes)
      → (p q : SinkMetricsProvider Quantity) (names : List String) (idents : List NamespacedName)
      → (get_node_metrics (receive p s.res).0 names ≡ get_node_metrics (receive q t.res).0 names)
        × (get_container_metrics (receive p s.res).0 idents
            ≡ get_container_metrics (receive q t.res).0 idents)
  order_irrelevant {s = s} {t = t} r done u also nodes_once pods_once p q names idents =
      let (nodes, pods, _) = collect_gathers r done in
      let (nodes', pods', _) = collect_gathers u also in
      same_answers p q s.res t.res (Perm.trans nodes (Perm.symm nodes'))
        (Perm.trans pods (Perm.symm pods'))
        (Identifies-perm (λ x. x.name) s.res.nodes _ nodes nodes_once)
        (Identifies-perm pod_ident s.res.pods _ pods pods_once) names idents

  -- All that the sources answer, as contents of the sink.
  abbrev pub contents_of :
      (quantities_set : IsSet Quantity) (outcomes : List (Outcome Quantity))
      → Identifies (λ x. x.name) (gather (λ o. nodes_of o.metrics) outcomes)
      → Identifies pod_ident (gather (λ o. pods_of o.metrics) outcomes)
      → Contents quantities_set
  contents_of quantities_set outcomes nodes_once pods_once = Quot.mk (record {
    batch = record {
      nodes = gather (λ o. nodes_of o.metrics) outcomes;
      pods = gather (λ o. pods_of o.metrics) outcomes;
    };
    nodes_once = nodes_once;
    pods_once = pods_once;
  })

  -- A scrape implements a function on contents, which are batches up to the order of their points:
  -- where no two points that the sources answer share a name, the sink that receives the batch of
  -- any run of Collect answers every query as the contents say that the sources' answers make up.
  pub Reach-Shows :
      {errs : List Error} {outcomes : List (Outcome Quantity)} {k : ℕ} {s : State Quantity}
      (quantities_set : IsSet Quantity)
      → Reach errs outcomes k s
      → s.main ≡ returned
      → (nodes_once : Identifies (λ x. x.name) (gather (λ o. nodes_of o.metrics) outcomes))
        (pods_once : Identifies pod_ident (gather (λ o. pods_of o.metrics) outcomes))
        (p : SinkMetricsProvider Quantity)
      → Shows quantities_set
          (receive p s.res).0
          (contents_of quantities_set outcomes nodes_once pods_once)
  Reach-Shows {outcomes = outcomes} {s = s} quantities_set r done nodes_once pods_once p =
      let (nodes, pods, _) = collect_gathers r done in
      let held : NamedBatch quantities_set = record {
        batch = s.res;
        nodes_once = Identifies-perm (λ x. x.name) s.res.nodes _ nodes nodes_once;
        pods_once = Identifies-perm pod_ident s.res.pods _ pods pods_once;
      } in
      let same : Quot.mk held ≡ contents_of quantities_set outcomes nodes_once pods_once =
        Quot.sound (nodes, pods) in
      rw (← same) (receive-Shows quantities_set p held)
