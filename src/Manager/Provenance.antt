-- ===== src/Manager/Provenance.antt =====
-- Where a point comes from that a query is answered with: the node, its address, and the summary.
use mathlib.Core.List.{Mem, mem-cons_self, mem-cons_of_mem, mem-append, not-mem-nil}
use mathlib.Core.Logic.{∥∥₁_prop, ∥∥₁_map}
use mathlib.Core.Logic.Or as Or
use my_learning_journey.Base.{
  ◌*◌, ◌≡◌, inl, inr, String, Option, none, some, List, [], ◌∷◌, ◌++◌, Result-cases, ok,
}
use my_learning_journey.Base.Int.{pos}
use my_learning_journey.Golang.{Duration, Context, millisecond}
use my_learning_journey.Sources.{MetricsBatch, Packages}
use my_learning_journey.Sources.Stats.{Summary, Quantities, KubeletInterface}
use my_learning_journey.Sources.Summary.{decode_summary}
use my_learning_journey.Sources.Addresses.{Node, NodeAddressResolver}
use my_learning_journey.Sources.SourceManager.{scrape_context}
use my_learning_journey.Sources.SourceManager.Collects.{Start}
use my_learning_journey.Sources.SourceManager.Gather.{gather}
use my_learning_journey.Manager.Kubelets.{request_time, decoded, kubelet_answer, kubelet_answers}

module _ {Quantity : Type 0} (quantities : Quantities Quantity) (packages : Packages)
    (client : KubeletInterface) (resolver : NodeAddressResolver) (ctx : Context)
    (timeout : Duration) where
  -- A summary that the client has got from a node, at the address that the resolver gives it.
  pub record Origin (nodes : List Node) : Type 0 where
    pub node : Node
    pub addr : String
    pub start : Start
    pub summary : Summary
    pub known : Mem node nodes
    pub resolved : resolver.resolve node ≡ ok addr
    pub fetched :
        (client.get_summary
          (scrape_context ctx timeout start.now (pos (start.draw * millisecond)))
          addr
          (request_time packages start)).0
        ≡ ok summary

  -- The batch that is decoded from it.
  abbrev pub decoded_from : {nodes : List Node} → Origin nodes → MetricsBatch Quantity
  decoded_from o =
      (decode_summary quantities (record { name = o.node.name; connect_address = o.addr })
        o.summary).0

  more_nodes : (n : Node) (nodes : List Node) → Origin nodes → Origin (n ∷ nodes)
  more_nodes n nodes o = record {
    node = o.node;
    addr = o.addr;
    start = o.start;
    summary = o.summary;
    known = mem-cons_of_mem n o.known;
    resolved = o.resolved;
    fetched = o.fetched;
  }

  module _ {X : Type 0} (f : Option (MetricsBatch Quantity) → List X)
      (nothing : (x : X) → ¬ Mem x (f none)) (x : X) where
    -- It is among the points of a batch that is decoded from a summary of one of the nodes.
    abbrev pub Came : List Node → Type 0
    Came nodes = ∥ ((o : Origin nodes) × Mem x (f (some (decoded_from o)))) ∥₁

    Came-cons_self :
        (s : Start) (node : Node) (nodes : List Node) (addr : String)
        → resolver.resolve node ≡ ok addr
        → Mem x (
            f (
              kubelet_answer quantities packages client resolver ctx timeout s
                (record { name = node.name; connect_address = addr })))
        → Came (node ∷ nodes)
    Came-cons_self s node nodes addr e m =
        let sleep = pos (s.draw * millisecond) in
        elim (Result-cases
          (client.get_summary (scrape_context ctx timeout s.now sleep) addr
            (request_time packages s)).0) [
              | inr (cause, g) ↦ absurd (nothing x (rw (g, decoded) at m))
              | inl (summary, g) ↦ ∣ (
                record {
                  node = node;
                  addr = addr;
                  start = s;
                  summary = summary;
                  known = mem-cons_self;
                  resolved = e;
                  fetched = g;
                },
                rw (g, decoded) at m,
              ) ∣₁
            ]

    Came-cons : (node : Node) (nodes : List Node) → Came nodes → Came (node ∷ nodes)
    unfolding more_nodes
    Came-cons node nodes t = ∥∥₁_map t (λ w. (more_nodes node nodes w.0, w.1))

    pub kubelet_answers-Came :
        (starts : List Start) (nodes : List Node)
        → Mem x (
            gather f (kubelet_answers quantities packages client resolver ctx timeout starts nodes))
        → Came nodes
    kubelet_answers-Came starts [] m = absurd (not-mem-nil m)
    kubelet_answers-Came [] (node ∷ nodes) m = absurd (not-mem-nil m)
    kubelet_answers-Came (s ∷ starts) (node ∷ nodes) m =
        elim (Result-cases (resolver.resolve node)) [
          | inr (cause, e) ↦
              Came-cons node nodes
                (kubelet_answers-Came (s ∷ starts) nodes (rw (e, kubelet_answers) at m))
          | inl (addr, e) ↦
              let there : Mem x (
                  f (
                    kubelet_answer quantities packages client resolver ctx timeout s
                      (record { name = node.name; connect_address = addr }))
                  ++ gather f (
                      kubelet_answers quantities packages client resolver ctx timeout starts
                        nodes)) =
                rw (e, kubelet_answers) at m in
              Or.elim ∥∥₁_prop (mem-append.0 there) (λ h. Came-cons_self s node nodes addr e h)
                (λ h. Came-cons node nodes (kubelet_answers-Came starts nodes h))
        ]
