-- ===== src/Server/Provenance.antt =====
-- From the options of the server to an answer of its API: where a point comes from that is served.
use mathlib.Core.List.{Mem, not-mem-nil}
use mathlib.Core.Logic.{∥∥₁_map}
use my_learning_journey.Base.{
  ◌*◌, ◌≡◌, sym, ap, ok_injective, ◌∙◌, inl, inr, String, Option, some, List, [], ◌∷◌, ok, returns,
}
use my_learning_journey.Base.Int.{pos}
use my_learning_journey.Golang.{Time, Context, background, with_timeout, millisecond}
use my_learning_journey.Float.{scrape_timeout_of}
use my_learning_journey.Sources.{
  NodeMetricsPoint, PodMetricsPoint, MetricSource, Packages, IsAggregate,
}
use my_learning_journey.Sources.Stats.{Summary, Quantities}
use my_learning_journey.Sources.Summary.{decode_summary}
use my_learning_journey.Sources.SourceManager.Collects.{Start}
use my_learning_journey.Sources.Addresses.{Node}
use my_learning_journey.Sources.Addresses.Priority.{Resolves}
use my_learning_journey.Sources.Kubelet.{Network, RestConfig, new_kubelet_client}
use my_learning_journey.Sources.Fetching.{kubelet_interface, IsFetched, IsFetched-iff}
use my_learning_journey.Sources.SourceManager.{scrape_context}
use my_learning_journey.Sources.SourceManager.Gather.{gather, nodes_of, pods_of}
use my_learning_journey.Provider.{NamespacedName, TimeInfo, ResourceList, ContainerMetrics}
use my_learning_journey.Sink.{
  SinkMetricsProvider, new_sink_provider, get_node_metrics, get_container_metrics, node_time_info,
  node_usage, pod_ident, pod_metrics,
}
use my_learning_journey.Manager.{State, Phase, Cycle, Reach}
use my_learning_journey.Manager.FromSources.{Answers, PodAnswers, IsSourceManager}
use my_learning_journey.Manager.Kubelets.{
  request_time, manager_over, kubelet_answers, Reach-AnswersFromKubelets,
}
use my_learning_journey.Manager.Provenance.{Origin, kubelet_answers-Came}
use my_learning_journey.Manager.Serving as Serving
use my_learning_journey.Server.{
  MetricsServerOptions, Environment, Server, Ran, client_config, kubelet_config, run,
}
use my_learning_journey.Server.Settings.{IsAssembled, run-IsAssembled}

same_head : {A : Type 0} {a b : A} → ◌≡◌ {A = List A} (a ∷ []) (b ∷ []) → a ≡ b
same_head e = cc

some_head : {A : Type 0} {a b : A} → ◌≡◌ {A = List (Option A)} (some a ∷ []) (some b ∷ []) → a ≡ b
some_head e = cc

module _ {Other Rest Request Transport Completed Api Quantity Collector Registry : Type 0}
    (env : Environment Other Rest Request Transport Summary Completed Api Quantity Collector
      Registry)
    (o : MetricsServerOptions) (quantities : Quantities Quantity) (packages : Packages)
    (net_at : Time → Network Request Transport (RestConfig Other Rest) Summary)
    (finished_at : Context → String → Time → Time) (nodes_at : Time → List Node) where
  -- The source is the source manager that `Run` makes, over the nodes of the lister at each time.
  abbrev pub IsSourceOf : Server Transport Api Quantity → MetricSource Quantity → Type 0
  IsSourceOf s source =
      IsSourceManager packages
        (λ now.
          manager_over quantities packages (kubelet_interface net_at s.kubelet_client finished_at)
            s.addr_resolver (nodes_at now) s.scrape_timeout)
        source

  -- A node that the lister knew at a time, with an address of it by the types of the options in
  -- their order, and a summary that has been fetched from there, by a kubelet client with the port
  -- of the options and the transport of the kubelet configuration that they ask for.
  pub record FetchedFrom (at : Time) (node : Node) (addr : String) (summary : Summary)
      : Type 0 where
    pub known : Mem node (nodes_at at)
    pub resolved : Resolves o.kubelet_preferred_address_types node (ok addr)
    pub config : RestConfig Other Rest
    pub loaded : client_config env o ≡ ok config
    pub transport : Transport
    pub secured : env.network.transport_for (kubelet_config env o config).rest_config ≡ ok transport
    pub start : Start
    pub fetched :
        IsFetched net_at
          (new_kubelet_client transport o.kubelet_port o.deprecated_completely_insecure_kubelet)
          finished_at
          (scrape_context
            (with_timeout background at o.metric_resolution)
            (scrape_timeout_of o.metric_resolution)
            start.now
            (pos (start.draw * millisecond)))
          addr
          (request_time packages start)
          summary

  -- The point of a node, or of a pod, is decoded from a summary that has been fetched so.
  abbrev pub NodeFetched : Time → NodeMetricsPoint Quantity → Type 0
  NodeFetched at p =
      (node : Node) × (addr : String) × (summary : Summary) × FetchedFrom at node addr summary
      × Mem p
          (decode_summary quantities (record { name = node.name; connect_address = addr })
            summary).0.nodes

  abbrev pub PodFetched : Time → PodMetricsPoint Quantity → Type 0
  PodFetched at p =
      (node : Node) × (addr : String) × (summary : Summary) × FetchedFrom at node addr summary
      × Mem p
          (decode_summary quantities (record { name = node.name; connect_address = addr })
            summary).0.pods

  module _ {s : Server Transport Api Quantity} (is : IsAssembled env o s) (at : Time) where
    abbrev ctx : Context
    ctx = with_timeout background at s.resolution

    from_origin :
        (g : Origin quantities packages
          (kubelet_interface net_at s.kubelet_client finished_at)
          s.addr_resolver
          ctx
          s.scrape_timeout
          (nodes_at at))
        → FetchedFrom at g.node g.addr g.summary
    from_origin g = record {
      known = g.known;
      resolved = rw g.resolved at (is.resolves g.node);
      config = is.config;
      loaded = is.loaded;
      transport = is.transport;
      secured = is.kubelet_transport;
      start = g.start;
      fetched =
          rw (is.kubelet_client, is.scrape_timeout, is.resolution) at
            ((IsFetched-iff net_at s.kubelet_client finished_at _ g.addr _ g.summary).0 g.fetched);
    }

    -- The points of the kubelets' answers.
    node_answers :
        (starts : List Start) (name : String) (st : SinkMetricsProvider Quantity) (t : TimeInfo)
        (u : ResourceList Quantity)
        → Answers name
            (gather nodes_of (
              kubelet_answers quantities packages
                (kubelet_interface net_at s.kubelet_client finished_at)
                s.addr_resolver
                ctx
                s.scrape_timeout
                starts
                (nodes_at at)))
            (get_node_metrics st (name ∷ []))
        → get_node_metrics st (name ∷ []) ≡ ok (t ∷ [], some u ∷ [])
        → ∥ (
            (p : NodeMetricsPoint Quantity) × NodeFetched at p
            × (p.name ≡ name)
            × (t ≡ node_time_info p)
            × (u ≡ node_usage p)) ∥₁
    node_answers starts name st t u (inl (e, _)) h = absurd (cc)
    node_answers starts name st t u (inr (p, m, named, e)) h =
        ∥∥₁_map
          (kubelet_answers-Came quantities packages
            (kubelet_interface net_at s.kubelet_client finished_at) s.addr_resolver ctx
            s.scrape_timeout nodes_of (λ x. not-mem-nil) p starts (nodes_at at) m)
          (λ w. (
            p,
            (w.0.node, w.0.addr, w.0.summary, from_origin w.0, w.1),
            named,
            same_head (ap (λ r. r.0) (ok_injective (sym h ∙ e))),
            some_head (ap (λ r. r.1) (ok_injective (sym h ∙ e))),
          ))

    pod_answers :
        (starts : List Start) (ident : NamespacedName) (st : SinkMetricsProvider Quantity)
        (t : TimeInfo) (cs : List (ContainerMetrics Quantity))
        → PodAnswers ident
            (gather pods_of (
              kubelet_answers quantities packages
                (kubelet_interface net_at s.kubelet_client finished_at)
                s.addr_resolver
                ctx
                s.scrape_timeout
                starts
                (nodes_at at)))
            (get_container_metrics st (ident ∷ []))
        → get_container_metrics st (ident ∷ []) ≡ ok (t ∷ [], some cs ∷ [])
        → ∥ (
            (p : PodMetricsPoint Quantity) × PodFetched at p
            × (pod_ident p ≡ ident)
            × (t ≡ (pod_metrics p).0)
            × (cs ≡ (pod_metrics p).1)) ∥₁
    pod_answers starts ident st t cs (inl (e, _)) h = absurd (cc)
    pod_answers starts ident st t cs (inr (p, m, named, e)) h =
        let same = ok_injective (sym h ∙ e) in
        ∥∥₁_map
          (kubelet_answers-Came quantities packages
            (kubelet_interface net_at s.kubelet_client finished_at) s.addr_resolver ctx
            s.scrape_timeout pods_of (λ x. not-mem-nil) p starts (nodes_at at) m)
          (λ w. (
            p,
            (w.0.node, w.0.addr, w.0.summary, from_origin w.0, w.1),
            named,
            same_head (ap (λ r. r.0) same),
            some_head (ap (λ r. r.1) same),
          ))

  -- Where a server's manager is started, and a cycle of it is finished: until the next cycle is
  -- finished, whatever a query for one node or one pod is answered with is a point of that name
  -- which was decoded from a summary that the kubelet client of the server had fetched in the
  -- cycle, with the port and the transport that the options ask for, from a node that the lister
  -- knew, at its address by the types of the options.
  pub served-Fetched :
      (registry : Registry) (ran : Ran Transport Api Quantity Registry)
      (s : Server Transport Api Quantity) (source : MetricSource Quantity) (log : List Cycle)
      (c : Cycle) (st : State (SinkMetricsProvider Quantity)) (phase : Phase)
      → IsAggregate packages
      → run env o registry ≡ returns ran
      → ran.started ≡ some s
      → IsSourceOf s source
      → Reach (Serving.server source s.resolution) new_sink_provider (c ∷ log) st phase
      → ((name : String) (t : TimeInfo) (u : ResourceList Quantity)
          → get_node_metrics st.stored (name ∷ []) ≡ ok (t ∷ [], some u ∷ [])
          → ∥ (
              (p : NodeMetricsPoint Quantity) × NodeFetched c.now p
              × (p.name ≡ name)
              × (t ≡ node_time_info p)
              × (u ≡ node_usage p)) ∥₁)
        × ((ident : NamespacedName) (t : TimeInfo) (cs : List (ContainerMetrics Quantity))
            → get_container_metrics st.stored (ident ∷ []) ≡ ok (t ∷ [], some cs ∷ [])
            → ∥ (
                (p : PodMetricsPoint Quantity) × PodFetched c.now p
                × (pod_ident p ≡ ident)
                × (t ≡ (pod_metrics p).0)
                × (cs ≡ (pod_metrics p).1)) ∥₁)
  served-Fetched registry ran s source log c st phase h started there over r =
      let is = run-IsAssembled env o registry ran s started there in
      let (starts, _, nodes, pods) =
        Reach-AnswersFromKubelets quantities packages
          (kubelet_interface net_at s.kubelet_client finished_at) s.addr_resolver nodes_at
          s.scrape_timeout source s.resolution log c st phase h over r in
      (
        (λ name t u. node_answers is c.now starts name st.stored t u (nodes name)),
        (λ ident t cs. pod_answers is c.now starts ident st.stored t cs (pods ident)),
      )
