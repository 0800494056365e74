-- ===== src/Sources/Summary/Points.antt =====
-- decodeNodeStats and decodePodStats against a description by points that are there or not.
use mathlib.Core.Option
use mathlib.Core.List.{append_assoc, append-nil}
use my_learning_journey.Base.{
  ℕ, suc, ◌≡◌, sym, ap, ◌∙◌, ◌≢◌, inl, inr, Option, none, some, Option-cases, Result, ok, arith,
  List, [], ◌∷◌, ◌++◌, length, replicate, set, set-append, length-snoc, length-replicate, cons?,
  cons?-eq-some, cons?-eq-none, eq-nil_of_append_left, eq-nil_of_append_right,
}
use my_learning_journey.Base.Int.{pos, negsuc}
use my_learning_journey.Golang.{Time}
use my_learning_journey.Errors.{Error}
use my_learning_journey.Sources.{
  MetricsPoint, NodeMetricsPoint, ContainerMetricsPoint, PodMetricsPoint,
}
use my_learning_journey.Sources.Stats.{
  CpuStats, MemoryStats, NodeStats, ContainerStats, PodStats, Quantities,
}
use my_learning_journey.Sources.Summary.{
  NodeInfo, get_scrape_time, uint64_quantity, decode_cpu, decode_memory, zero_container_point,
  decode_node_stats, decode_container, containers_from, decode_pod_stats,
}

module _ {Quantity : Type 0} (quantities : Quantities Quantity) where
  open quantities use {with_binary_si}

  abbrev pub cpu_amount? : Option CpuStats → Option Quantity
  cpu_amount? none = none
  cpu_amount? (some stats) =
      Option.map (λ n. uint64_quantity quantities n (negsuc 8)) stats.usage_nano_cores

  abbrev pub memory_amount? : Option MemoryStats → Option Quantity
  memory_amount? none = none
  memory_amount? (some stats) =
      Option.map (λ n. with_binary_si (uint64_quantity quantities n (pos 0)))
        stats.working_set_bytes

  abbrev pub point_of :
      Result Error Time → Option Quantity → Option Quantity → Option (MetricsPoint Quantity)
  point_of (ok t) (some cpu) (some memory) =
      some (record { timestamp = t; cpu_usage = cpu; memory_usage = memory })
  point_of _ _ _ = none

  -- A point is there when a time, a CPU rate and a memory size all are.
  abbrev pub point? : Option CpuStats → Option MemoryStats → Option (MetricsPoint Quantity)
  point? cpu memory =
      point_of (get_scrape_time cpu memory) (cpu_amount? cpu) (memory_amount? memory)

  abbrev pub container_point? : ContainerStats → Option (ContainerMetricsPoint Quantity)
  container_point? c = Option.map (λ p. record { name = c.name; point = p }) (point? c.cpu c.memory)

  -- The points of all containers, if every one of them is there.
  abbrev pub container_points? :
      List ContainerStats → Option (List (ContainerMetricsPoint Quantity))
  container_points? [] = some []
  container_points? (c ∷ cs) = cons? (container_point? c) (container_points? cs)

  abbrev pub pod_point? : PodStats → Option (PodMetricsPoint Quantity)
  pod_point? pod =
      Option.map (λ cs. record { name = pod.name; namespace = pod.namespace; containers = cs })
        (container_points? pod.containers)

  module _ (src : NodeInfo) where
    -- The node's point is written when it is there.
    pub decode_node_stats-some :
        (stats : NodeStats) (target : NodeMetricsPoint Quantity) (p : MetricsPoint Quantity)
        → point? stats.cpu stats.memory ≡ some p
        → decode_node_stats quantities src stats target
          ≡ (record { name = src.name; point = p }, [])
    unfolding decode_node_stats decode_cpu decode_memory
    decode_node_stats-some stats target p h = ground arith

    -- Otherwise there is an error.
    pub decode_node_stats-none :
        (stats : NodeStats) (target : NodeMetricsPoint Quantity)
        → point? stats.cpu stats.memory ≡ none
        → (decode_node_stats quantities src stats target).1 ≢ []
    unfolding decode_node_stats decode_cpu decode_memory
    decode_node_stats-none stats target h = ground arith

    module _ (pod : PodStats) where
      -- The errors that one container adds.
      abbrev container_errors : ContainerStats → List Error
      container_errors c = (decode_container quantities src pod 0 c ([], [])).1

      decode_container-some :
          (i : ℕ) (c : ContainerStats) (points : List (ContainerMetricsPoint Quantity))
          (errs : List Error) (p : ContainerMetricsPoint Quantity)
          → container_point? c ≡ some p
          → decode_container quantities src pod i c (points, errs) ≡ (set points i p, errs)
      unfolding decode_container decode_cpu decode_memory
      decode_container-some i c points errs p h = ground (arith, append-nil errs)

      decode_container-errors :
          (i : ℕ) (c : ContainerStats) (points : List (ContainerMetricsPoint Quantity))
          (errs : List Error)
          → (decode_container quantities src pod i c (points, errs)).1 ≡ errs ++ container_errors c
      unfolding decode_container
      decode_container-errors i c points errs = ground arith

      decode_container-none :
          (c : ContainerStats) → container_point? c ≡ none → container_errors c ≢ []
      unfolding decode_container decode_cpu decode_memory
      decode_container-none c h = ground arith

      containers_from-some :
          (cs : List ContainerStats) (done rest : List (ContainerMetricsPoint Quantity))
          (errs : List Error) (ps : List (ContainerMetricsPoint Quantity))
          → length rest ≡ length cs
          → container_points? cs ≡ some ps
          → containers_from quantities src pod (length done) cs (done ++ rest, errs)
            ≡ (done ++ ps, errs)
      unfolding containers_from
      containers_from-some [] done [] errs ps n h = ground arith
      containers_from-some [] done (r ∷ rest) errs ps n h = absurd (omega arith)
      containers_from-some (c ∷ cs) done [] errs ps n h = absurd (omega arith)
      containers_from-some (c ∷ cs) done (r ∷ rest) errs ps n h =
          let (p, qs, here, later, e) =
            cons?-eq-some (container_point? c) (container_points? cs) h in
          let step = decode_container-some (length done) c (done ++ r ∷ rest) errs p here in
          rw (step, set-append, ← length-snoc done p, ← append_assoc done (p ∷ []) rest)
            (containers_from-some cs (done ++ p ∷ []) rest errs qs (omega arith) later
              ∙ rw (e, append_assoc done (p ∷ []) qs))

      containers_from-errors :
          (cs : List ContainerStats) (i : ℕ) (points : List (ContainerMetricsPoint Quantity))
          (errs : List Error)
          → (es : List Error) × ((containers_from quantities src pod i cs (points, errs)).1
              ≡ errs ++ es)
            × (container_points? cs ≡ none → es ≢ [])
      unfolding containers_from
      containers_from-errors [] i points errs = ([], sym (append-nil errs), λ h. cc)
      containers_from-errors (c ∷ cs) i points errs =
          let out = decode_container quantities src pod i c (points, errs) in
          let (es, e, missing) = containers_from-errors cs (suc i) out.0 out.1 in
          (
            container_errors c ++ es,
            e
                ∙ ap (λ l. l ++ es) (decode_container-errors i c points errs)
                ∙ append_assoc errs (container_errors c) es,
            λ h z. elim (cons?-eq-none (container_point? c) (container_points? cs) h) [
              | inl here ↦ decode_container-none c here (eq-nil_of_append_left _ es z)
              | inr later ↦ missing later (eq-nil_of_append_right _ es z)
            ],
          )

    -- A pod's point is there exactly when it decodes without an error.
    pub decode_pod_stats-some :
        (pod : PodStats) (p : PodMetricsPoint Quantity)
        → pod_point? pod ≡ some p
        → decode_pod_stats quantities src pod ≡ (p, [])
    unfolding decode_pod_stats
    decode_pod_stats-some pod p h = elim (Option-cases (container_points? pod.containers)) [
      | inl missing ↦ ground arith
      | inr (ps, e) ↦
          let blank = replicate (length pod.containers) (zero_container_point quantities) in
          ground (
            arith,
            containers_from-some pod pod.containers [] blank [] ps
                (length-replicate (length pod.containers) _) e,
          )
    ]

    pub decode_pod_stats-none :
        (pod : PodStats) → pod_point? pod ≡ none → (decode_pod_stats quantities src pod).1 ≢ []
    unfolding decode_pod_stats
    decode_pod_stats-none pod h = elim (Option-cases (container_points? pod.containers)) [
      | inl missing ↦
          let blank = replicate (length pod.containers) (zero_container_point quantities) in
          let (es, e, some_error) = containers_from-errors pod pod.containers 0 blank [] in
          λ z. some_error missing (sym e ∙ z)
      | inr (ps, e) ↦ ground arith
    ]
