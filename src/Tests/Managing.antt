-- ===== src/Tests/Managing.antt =====
-- Two cycles of a manager over the sink, the second one still running.
use my_learning_journey.Base.{
  ℕ, arith, Bool, Result, err, Run, returns, if◌then◌else◌, ◌==◌, string_comparable, String, ◌≡◌,
  ◌↔◌, ◌*◌, refl, none, some, [], ◌∷◌, ok, true,
}
use my_learning_journey.Base.Int.{pos, ◌≤ℤ◌, ◌+ℤ◌}
use my_learning_journey.Golang.{second, sub}
use my_learning_journey.Float.{max_tick_wait_of, wiggle}
use my_learning_journey.Sources.{MetricSource, Event}
use my_learning_journey.Sink.{SinkMetricsProvider, new_sink_provider, receive}
use my_learning_journey.Sink.Latest.{node_in}
use my_learning_journey.Manager.{
  Manager, State, check_health, finish, begin, healthy_tick, collecting, waiting, Cycle, Reach, new,
  first, tick, finished,
}
use my_learning_journey.Manager.Cycles.{IsAfter, Reach-IsAfter}
use my_learning_journey.Manager.HealthCheck.{last_start, LastGood, check_health-Reach}
use my_learning_journey.Manager.Serving.{server}
use my_learning_journey.Manager.FromSources.{IsSourceManager}
use my_learning_journey.Provider.{}
use my_learning_journey.Tests.SourceManager as Scraping
use my_learning_journey.Tests.SourceManager.{missing, Collects-manager}
use my_learning_journey.Errors.{Error}
use my_learning_journey.Golang.{Time}
use my_learning_journey.Sink.{node_time_info, node_usage}
use my_learning_journey.Storage.Nodes as Nodes
use my_learning_journey.Storage.Nodes.{NodeMetrics, node_item}
use my_learning_journey.Storage.Pods as Pods
use my_learning_journey.Storage.Pods.Served.{get_answer}
use my_learning_journey.Api.Generic.{node_storage, pod_storage}
use my_learning_journey.Api.Serving.{
  storage_of, group_over, nodes_over, pods_over, installed-serves,
}
use my_learning_journey.Tests.Starting.{metrics_api, informers}
use my_learning_journey.Tests.Serving.{pod_lister}
use my_learning_journey.Tests.{Amount, packages, batch_of, at}

-- A source whose answers have an error beside their batch.
abbrev pub source : MetricSource Amount
source = record {
  name = "source";
  collect = λ ctx now. record {
    batch = some (batch_of "n1");
    error = some missing;
    finished = now +ℤ pos second;
    events = [];
  };
}

abbrev pub manager : Manager (SinkMetricsProvider Amount) Amount
manager = server source (pos (60 * second))

abbrev pub cycle : Cycle
cycle = record { start_time = at 10; now = at 10; finished = at 11 }

wait_of_a_minute : max_tick_wait_of (pos (60 * second)) ≡ pos (66 * second)
unfolding max_tick_wait_of wiggle
wait_of_a_minute = refl

abbrev after_one : State (SinkMetricsProvider Amount)
after_one = record {
  last_tick_start = at 10;
  last_ok = true;
  stored = (receive new_sink_provider (batch_of "n1")).0;
  events = Event.tick_duration (pos second) ∷ [];
}

run1 : Reach manager new_sink_provider (cycle ∷ []) after_one waiting
unfolding begin finish healthy_tick receive sub
run1 = finished cycle (first (at 10) (omega arith) new) refl

abbrev pub in_second : State (SinkMetricsProvider Amount)
in_second = begin (at 70) after_one

pub run2 : Reach manager new_sink_provider (cycle ∷ []) in_second (collecting (at 70))
run2 = tick (at 70) run1

Reach-IsAfter_example : IsAfter manager new_sink_provider (cycle ∷ []) in_second
Reach-IsAfter_example =
    Reach-IsAfter manager new_sink_provider (cycle ∷ []) in_second (collecting (at 70)) run2

check_health-Reach_example : (check_health manager (at 100) in_second ≡ none) ↔ (
    (sub (at 100) (last_start manager new_sink_provider (cycle ∷ []) (collecting (at 70)))
      ≤ℤ max_tick_wait_of (pos (60 * second)))
    × LastGood manager new_sink_provider (cycle ∷ []))
check_health-Reach_example =
    check_health-Reach manager new_sink_provider (cycle ∷ []) in_second (collecting (at 70))
      (at 100) run2

source-IsSourceManager : IsSourceManager packages (λ now. Scraping.manager) source
source-IsSourceManager ctx now = (batch_of "n1", refl, Collects-manager ctx)

installed-serves_example :
    ((resource : String)
      → storage_of (group_over metrics_api informers in_second.stored) "v1beta1" resource ≡ (
          if "nodes" == resource
          then some (node_storage (nodes_over metrics_api informers in_second.stored))
          else if "pods" == resource
          then some (pod_storage (pods_over metrics_api informers in_second.stored))
          else none))
    × ((now : ℕ → Time) (name : String)
        → Nodes.get (nodes_over metrics_api informers in_second.stored) now name
          ≡ (elim (node_in (batch_of "n1") name) as (λ _. Run (Result Error (NodeMetrics Amount))) [
            | none ↦ returns (err (Error.not_found "nodemetrics" name))
            | some q ↦ returns (ok (node_item (now 0) name (node_time_info q) (node_usage q)))
          ]))
    × ((is_not_found : Error → Bool) (now : ℕ → Time) (namespace name : String)
        → Pods.get is_not_found
            (pods_over metrics_api informers in_second.stored)
            now
            namespace
            name
          ≡ returns (
              get_answer new_sink_provider
                (batch_of "n1")
                "podmetrics"
                pod_lister
                is_not_found
                (now 0)
                namespace
                name
                (pod_lister.get namespace name)))
installed-serves_example =
    installed-serves metrics_api informers source (pos (60 * second)) [] cycle in_second
      (collecting (at 70)) (batch_of "n1") run2 refl
