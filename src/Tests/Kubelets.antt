-- ===== src/Tests/Kubelets.antt =====
-- A cycle of the manager over the source manager of one node, whose kubelet answers.
use mathlib.Core.List.{filter_map}
use my_learning_journey.Base.{◌≡◌, refl, ◌*◌, String, some, none, List, [], ◌∷◌, length, arith}
use my_learning_journey.Base.Int.{pos}
use my_learning_journey.Golang.{Time, Duration, Context, background, with_timeout, second, sub}
use my_learning_journey.Sources.Stats.{KubeletInterface}
use my_learning_journey.Errors.{Error}
use my_learning_journey.Sources.{MetricSource, MetricsBatch, Event, empty_batch}
use my_learning_journey.Sources.Addresses.{
  node_address, default_address_type_priority, address_by_priority,
  new_priority_node_address_resolver,
}
use my_learning_journey.Sources.Summary.{new_summary_metrics_source}
use my_learning_journey.Sources.Provider.{
  new_summary_provider, get_metric_sources, sources_from, get_node_info,
}
use my_learning_journey.Sources.Provider.Nodes.{source_of}
use my_learning_journey.Sources.SourceManager.{
  Outcome, done, State, returned, send_response, send_error, receive_error, receive_response,
  return, start, Reach, here, later, delay_ms, add_batch, add_error, result, goroutine,
}
use my_learning_journey.Sources.SourceManager.Collects.{Start, outcomes_from, collects}
use my_learning_journey.Sources.SourceManager.Gather.{gather, nodes_of, pods_of}
use my_learning_journey.Provider.{NamespacedName}
use my_learning_journey.Sink.{
  SinkMetricsProvider, new_sink_provider, receive, get_node_metrics, get_container_metrics,
}
use my_learning_journey.Manager as Manager
use my_learning_journey.Manager.{begin, finish, healthy_tick, waiting, Cycle, new, first, finished}
use my_learning_journey.Manager.Serving.{server}
use my_learning_journey.Manager.FromSources.{Answers, PodAnswers, IsSourceManager}
use my_learning_journey.Manager.Kubelets.{manager_over, kubelet_answers, Reach-AnswersFromKubelets}
use my_learning_journey.Tests.{
  Amount, amounts, packages, packages-IsAggregate, info, kubelet, first_error, at,
}
use my_learning_journey.Tests.Summaries.{resolver, reached}

-- The run of a single goroutine.
abbrev after_run : List Error → Outcome Amount → State Amount
after_run errs o = record {
  workers = done ∷ [];
  responses = [];
  errors = [];
  main = returned;
  res = add_batch empty_batch o.metrics;
  errs = add_error errs o.error;
}

run_one : (errs : List Error) (o : Outcome Amount) → Reach errs (o ∷ []) 5 (after_run errs o)
unfolding start
run_one errs o =
    later
      (later
        (later
          (later (later here (send_response [] [] o refl (omega arith)))
            (send_error [] [] o refl (omega arith)))
          (receive_error 0 o.error [] refl refl))
        (receive_response 0 o.error o.metrics [] refl refl))
      (return refl)

abbrev pub cycle : Cycle
cycle = record { start_time = at 10; now = at 10; finished = at 11 }

-- The cycle with a client of the kubelets that is given.
module _ (client : KubeletInterface) (timeout : Duration) where
  -- What the goroutine answers that starts at once.
  abbrev pub outcome_at : Context → Time → Outcome Amount
  outcome_at ctx now =
      goroutine packages ctx timeout now 0 (new_summary_metrics_source amounts packages client info)

  abbrev pub source : MetricSource Amount
  source = record {
    name = "source_manager";
    collect = λ ctx now. record {
      batch = some (add_batch empty_batch (outcome_at ctx now).metrics);
      error = first_error (add_error [] (outcome_at ctx now).error);
      finished = now;
      events = [];
    };
  }

  pub source-IsSourceManager :
      IsSourceManager packages
        (λ now. manager_over amounts packages client resolver (reached ∷ []) timeout)
        source
  unfolding new_summary_provider get_metric_sources sources_from get_node_info node_address
      address_by_priority default_address_type_priority outcomes_from result delay_ms
      new_priority_node_address_resolver
  source-IsSourceManager ctx now = (
    add_batch empty_batch (outcome_at ctx now).metrics,
    refl,
    collects (record { now = now; draw = 0 } ∷ []) refl (omega arith, tt)
        (run_one [] (outcome_at ctx now)) refl,
  )

  abbrev pub batch : MetricsBatch Amount
  batch =
      add_batch empty_batch
        (outcome_at (with_timeout background (at 10) (pos (60 * second))) (at 10)).metrics

  abbrev pub after_cycle : Manager.State (SinkMetricsProvider Amount)
  after_cycle = record {
    last_tick_start = at 10;
    last_ok =
        healthy_tick
          (first_error (
            add_error []
              (outcome_at (with_timeout background (at 10) (pos (60 * second))) (at 10)).error))
          batch none;
    stored = (receive new_sink_provider batch).0;
    events = Event.tick_duration (sub (at 11) (at 10)) ∷ [];
  }

  pub cycle_run :
      Manager.Reach
        (server source (pos (60 * second)))
        new_sink_provider
        (cycle ∷ [])
        after_cycle
        waiting
  unfolding begin finish receive
  cycle_run = finished cycle (first (at 10) (omega arith) new) refl

Reach-AnswersFromKubelets_example :
    (starts : List Start) × (length starts
      ≡ length (filter_map (source_of amounts packages kubelet resolver) (reached ∷ [])))
    × ((name : String)
        → Answers name
            (gather nodes_of (
              kubelet_answers amounts packages kubelet resolver
                (with_timeout background (at 10) (pos (60 * second)))
                (pos (54 * second))
                starts
                (reached ∷ [])))
            (get_node_metrics (after_cycle kubelet (pos (54 * second))).stored (name ∷ [])))
    × ((ident : NamespacedName)
        → PodAnswers ident
            (gather pods_of (
              kubelet_answers amounts packages kubelet resolver
                (with_timeout background (at 10) (pos (60 * second)))
                (pos (54 * second))
                starts
                (reached ∷ [])))
            (get_container_metrics (after_cycle kubelet (pos (54 * second))).stored (ident ∷ [])))
Reach-AnswersFromKubelets_example =
    Reach-AnswersFromKubelets amounts packages kubelet resolver (λ now. reached ∷ [])
      (pos (54 * second)) (source kubelet (pos (54 * second))) (pos (60 * second)) [] cycle
      (after_cycle kubelet (pos (54 * second))) waiting packages-IsAggregate
      (source-IsSourceManager kubelet (pos (54 * second))) (cycle_run kubelet (pos (54 * second)))
