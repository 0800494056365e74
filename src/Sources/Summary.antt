-- ===== src/Sources/Summary.antt =====
-- pkg/sources/summary/summary.go: decoding a kubelet's summary into a batch of metrics points.
-- A pointer that a function writes through is an argument, and its new value a result.
pub mod ScrapeTime
pub mod Amounts
pub mod Points
pub mod Latency
pub mod Batch
pub mod Collecting
use Prim.Native.String.{◌++◌ as str_append}
use mathlib.Core.Option
use my_learning_journey.Base.{
  ℕ, suc, ◌/◌, String, true, false, ◌&&◌, not, Option, none, some, List, [], ◌∷◌, ◌++◌, Result, ok,
  err, length, set, take, replicate, leb, if◌then◌else◌,
}
use my_learning_journey.Base.Int.{ℤ, pos, negsuc, ◌+ℤ◌}
use my_learning_journey.Golang.{Time, zero_time, is_zero, after, int64, max_int64, sub, Context}
use my_learning_journey.Errors.{Error}
use my_learning_journey.Sources.{
  MetricsPoint, NodeMetricsPoint, ContainerMetricsPoint, PodMetricsPoint, MetricsBatch, Event,
  Collected, MetricSource, Packages,
}
use my_learning_journey.Sources.Stats.{
  CpuStats, MemoryStats, NodeStats, ContainerStats, PodStats, Summary, Quantities, KubeletInterface,
}

pub record NodeInfo : Type 0 where
  pub name : String
  pub connect_address : String

-- `errs = append(errs, fmt.Errorf(…, err))` if there is an error.
abbrev pub error_if : Option Error → (Error → Error) → List Error
error_if none wrap = []
error_if (some e) wrap = wrap e ∷ []

-- `num`, after a pod that decoded with these errors: a pod with errors is discarded.
abbrev pub next_slot : List Error → ℕ → ℕ
next_slot [] num = suc num
next_slot (_ ∷ _) num = num

-- One `if` of `getScrapeTime`: `stat_time` is the time of the stats, if they are there.
unfoldable pub consider : Option Time → Option Time → Option Time
consider earliest none = earliest
consider none (some t) = if not (is_zero t) then some t else none
consider (some u) (some t) = if not (is_zero t) && after u t then some t else some u

unfoldable pub get_scrape_time : Option CpuStats → Option MemoryStats → Result Error Time
unfolding consider
get_scrape_time cpu memory =
    let earliest = consider none (Option.map (λ c. c.time) cpu) in
    elim (consider earliest (Option.map (λ m. m.time) memory)) [
      | none ↦ err Error.no_timestamp
      | some t ↦ ok t
    ]

module _ {Quantity : Type 0} (quantities : Quantities Quantity) where
  open quantities use {zero_quantity, new_scaled_quantity, with_binary_si}

  unfoldable pub uint64_quantity : ℕ → ℤ → Quantity
  uint64_quantity val scale =
      if leb val max_int64
      then new_scaled_quantity (int64 val) scale
      else new_scaled_quantity (int64 (val / 10)) (pos 1 +ℤ scale)

  unfoldable pub decode_cpu : Quantity → Option CpuStats → Quantity × Option Error
  decode_cpu target none = (target, some Error.missing_cpu)
  decode_cpu target (some stats) = elim stats.usage_nano_cores [
    | none ↦ (target, some Error.missing_cpu)
    | some usage ↦ (uint64_quantity usage (negsuc 8), none)
  ]

  unfoldable pub decode_memory : Quantity → Option MemoryStats → Quantity × Option Error
  decode_memory target none = (target, some Error.missing_memory)
  decode_memory target (some stats) = elim stats.working_set_bytes [
    | none ↦ (target, some Error.missing_memory)
    | some bytes ↦ (with_binary_si (uint64_quantity bytes (pos 0)), none)
  ]

  -- The zero values of the point types.
  abbrev pub zero_point : MetricsPoint Quantity
  zero_point = record {
    timestamp = zero_time;
    cpu_usage = zero_quantity;
    memory_usage = zero_quantity;
  }

  abbrev pub zero_node_point : NodeMetricsPoint Quantity
  zero_node_point = record { name = ""; point = zero_point }

  abbrev pub zero_container_point : ContainerMetricsPoint Quantity
  zero_container_point = record { name = ""; point = zero_point }

  abbrev pub zero_pod_point : PodMetricsPoint Quantity
  zero_pod_point = record { name = ""; namespace = ""; containers = [] }

  unfoldable pub decode_node_stats :
      NodeInfo → NodeStats → NodeMetricsPoint Quantity → NodeMetricsPoint Quantity × List Error
  decode_node_stats src stats target = elim (get_scrape_time stats.cpu stats.memory) [
    | err e ↦ (target, Error.node_timestamp src.connect_address e ∷ [])
    | ok timestamp ↦
        let (cpu, cpu_error) = decode_cpu zero_quantity stats.cpu in
        let (memory, memory_error) = decode_memory zero_quantity stats.memory in
        (
          record {
            name = src.name;
            point = record { timestamp = timestamp; cpu_usage = cpu; memory_usage = memory };
          },
          error_if cpu_error (Error.node_cpu src.connect_address)
              ++ error_if memory_error (Error.node_memory src.connect_address),
        )
  ]

  -- The body of the loop of `decodePodStats`, at the container of index `i`.
  unfoldable pub decode_container :
      NodeInfo
      → PodStats
      → ℕ
      → ContainerStats
      → List (ContainerMetricsPoint Quantity) × List Error
      → List (ContainerMetricsPoint Quantity) × List Error
  decode_container src pod i container (containers, errs) =
      elim (get_scrape_time container.cpu container.memory) [
        | err e ↦ (
          containers,
          errs
              ++ Error.container_timestamp container.name pod.namespace pod.name src.connect_address
                  e
                ∷ [],
        )
        | ok timestamp ↦
            let (cpu, cpu_error) = decode_cpu zero_quantity container.cpu in
            let (memory, memory_error) = decode_memory zero_quantity container.memory in
            let wrap_cpu =
              Error.container_cpu container.name pod.namespace pod.name src.connect_address in
            let wrap_memory =
              Error.container_memory container.name pod.namespace pod.name src.connect_address in
            (
              set containers i (record {
                name = container.name;
                point = record { timestamp = timestamp; cpu_usage = cpu; memory_usage = memory };
              }),
              errs ++ (error_if cpu_error wrap_cpu ++ error_if memory_error wrap_memory),
            )
      ]

  unfoldable pub containers_from :
      NodeInfo
      → PodStats
      → ℕ
      → List ContainerStats
      → List (ContainerMetricsPoint Quantity) × List Error
      → List (ContainerMetricsPoint Quantity) × List Error
  containers_from src pod i [] out = out
  containers_from src pod i (c ∷ cs) out =
      containers_from src pod (suc i) cs (decode_container src pod i c out)

  -- The target is overwritten as a whole, so its old value is no argument.
  unfoldable pub decode_pod_stats : NodeInfo → PodStats → PodMetricsPoint Quantity × List Error
  decode_pod_stats src pod =
      let (containers, errs) =
        containers_from src pod 0 pod.containers
          (replicate (length pod.containers) zero_container_point, []) in
      (record { name = pod.name; namespace = pod.namespace; containers = containers }, errs)

  -- The loop over the pods: the slots of `res.Pods`, the number `num` of those kept, the errors.
  unfoldable pub pods_from :
      NodeInfo
      → List PodStats
      → ℕ
      → List (PodMetricsPoint Quantity)
      → List Error
      → List (PodMetricsPoint Quantity) × ℕ × List Error
  pods_from src [] num slots errs = (slots, num, errs)
  pods_from src (pod ∷ pods) num slots errs =
      let (point, pod_errs) = decode_pod_stats src pod in
      pods_from src pods (next_slot pod_errs num) (set slots num point) (errs ++ pod_errs)

  -- `res.Nodes` after the node's stats decoded with these errors.
  unfoldable pub node_points :
      NodeMetricsPoint Quantity → List Error → List (NodeMetricsPoint Quantity)
  node_points node [] = node ∷ []
  node_points node (_ ∷ _) = take 1 (node ∷ [])

  -- `Collect` from the point where the summary is there: the batch, and the list of errors.
  unfoldable pub decode_summary : NodeInfo → Summary → MetricsBatch Quantity × List Error
  decode_summary src summary =
      let (node, node_errs) = decode_node_stats src summary.node zero_node_point in
      let (slots, num, errs) =
        pods_from src summary.pods 0 (replicate (length summary.pods) zero_pod_point) node_errs in
      (record { nodes = node_points node node_errs; pods = take num slots }, errs)

  module _ (packages : Packages) (client : KubeletInterface) (src : NodeInfo) where
    -- A deferred call's arguments are evaluated at the `defer`: the clock is read for the second
    -- time before the request is made.
    unfoldable pub collect : Context → Time → Collected Quantity
    collect ctx start_time =
        let since = packages.next_read start_time in
        let latency = Event.request_latency src.name (sub since start_time) in
        let (answer, finished) = client.get_summary ctx src.connect_address since in
        elim answer [
          | err e ↦ record {
            batch = none;
            error = some (Error.fetch_failed src.name src.connect_address e);
            finished = finished;
            events = latency ∷ Event.scrape_total false ∷ [];
          }
          | ok summary ↦
              let (batch, errs) = decode_summary src summary in
              record {
                batch = some batch;
                error = packages.new_aggregate errs;
                finished = finished;
                events = latency ∷ Event.scrape_total true ∷ [];
              }
        ]

    -- `NewSummaryMetricsSource`, with `Name`.
    unfoldable pub new_summary_metrics_source : MetricSource Quantity
    unfolding collect
    new_summary_metrics_source = record {
      name = str_append "kubelet_summary:" src.name;
      collect = collect;
    }
