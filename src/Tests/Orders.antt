-- ===== src/Tests/Orders.antt =====
-- Two sources whose goroutines make progress in source_two orders, and what is read of the batch.
use mathlib.Core.List.{mem-cons, not-mem-nil}
use mathlib.Core.Logic.Or as Or
use native.Mathlib.Decide.{ℕ_discrete}
use my_learning_journey.Base.{
  ◌≡◌, ◌≢◌, refl, sym, ◌∙◌, some, none, List, [], ◌∷◌, ok, map, arith, ap, string_comparable, true,
  false,
}
use my_learning_journey.Base.Find.{Identifies}
use my_learning_journey.Base.Sets.{String-set}
use my_learning_journey.Sink.Contents.{Shows}
use my_learning_journey.Sources.SourceManager.{
  Outcome, scraping, sending_error, done, State, awaiting_error, returned, send_response,
  send_error, receive_error, receive_response, return, start, Reach, here, later, add_batch,
}
use my_learning_journey.Sources.{empty_batch, NodeMetricsPoint, PodMetricsPoint, MetricsBatch}
use my_learning_journey.Sink.{
  new_sink_provider, get_node_metrics, get_container_metrics, pod_ident, receive, node_time_info,
  node_usage, pod_metrics,
}
use my_learning_journey.Sink.RoundTrip.{receive-RoundTrip}
use my_learning_journey.Manager.Interleavings.{order_irrelevant, contents_of, Reach-Shows}
use my_learning_journey.Tests.{Amount, named, node_point, pod_point}

node_points_set : IsSet (NodeMetricsPoint Amount)
node_points_set = hlevel (String-set, ℕ_discrete)

pod_points_set : IsSet (PodMetricsPoint Amount)
pod_points_set = hlevel (String-set, ℕ_discrete)

Identifies-pair :
    {A K : Type 0} (key : A → K) (a b : A) → IsSet A → key a ≢ key b → Identifies key (a ∷ b ∷ [])
Identifies-pair key a b is differ x y m n same =
    Or.elim (is x y) (mem-cons.0 m)
      (λ e.
        Or.elim (is x y) (mem-cons.0 n) (λ f. e ∙ sym f)
          (λ l.
            Or.elim (is x y) (mem-cons.0 l)
              (λ f. absurd (differ (ap key (sym e) ∙ same ∙ ap key f)))
              (λ l. absurd (not-mem-nil l))))
      (λ l.
        Or.elim (is x y) (mem-cons.0 l)
          (λ e.
            Or.elim (is x y) (mem-cons.0 n)
              (λ f. absurd (differ (ap key (sym f) ∙ sym same ∙ ap key e)))
              (λ l. Or.elim (is x y) (mem-cons.0 l) (λ f. e ∙ sym f) (λ l. absurd (not-mem-nil l))))
          (λ l. absurd (not-mem-nil l)))

-- What the source_two sources answer.
abbrev source_one : Outcome Amount
source_one = record {
  metrics = some (record { nodes = node_point "n1" ∷ []; pods = pod_point "p1" ∷ [] });
  error = none;
}

abbrev source_two : Outcome Amount
source_two = record {
  metrics = some (record { nodes = node_point "n2" ∷ []; pods = pod_point "p2" ∷ [] });
  error = none;
}

abbrev outcomes : List (Outcome Amount)
outcomes = source_one ∷ source_two ∷ []

-- The batch in which the first source's points stand first, and that in the other order.
abbrev forth : MetricsBatch Amount
forth = record {
  nodes = node_point "n1" ∷ node_point "n2" ∷ [];
  pods = pod_point "p1" ∷ pod_point "p2" ∷ [];
}

abbrev back : MetricsBatch Amount
back = record {
  nodes = node_point "n2" ∷ node_point "n1" ∷ [];
  pods = pod_point "p2" ∷ pod_point "p1" ∷ [];
}

abbrev ended : MetricsBatch Amount → State Amount
ended res = record {
  workers = done ∷ done ∷ [];
  responses = [];
  errors = [];
  main = returned;
  res = res;
  errs = [];
}

-- The loop after both goroutines are done, whose batches came in this order.
abbrev queued : (first second : Outcome Amount) → State Amount
queued first second = record {
  workers = done ∷ done ∷ [];
  responses = first.metrics ∷ second.metrics ∷ [];
  errors = none ∷ none ∷ [];
  main = awaiting_error 2;
  res = empty_batch;
  errs = [];
}

received :
    (first second : Outcome Amount)
    → Reach [] outcomes 4 (queued first second)
    → Reach [] outcomes 9 (ended (add_batch (add_batch empty_batch first.metrics) second.metrics))
received first second r =
    later
      (later
        (later
          (later (later r (receive_error 1 none _ refl refl))
            (receive_response 1 none first.metrics _ refl refl))
          (receive_error 0 none _ refl refl))
        (receive_response 0 none second.metrics _ refl refl))
      (return refl)

in_order : Reach [] outcomes 4 (queued source_one source_two)
unfolding start
in_order =
    later
      (later
        (later (later here (send_response [] _ source_one refl (omega arith)))
          (send_response (sending_error source_one ∷ []) [] source_two refl (omega arith)))
        (send_error [] _ source_one refl (omega arith)))
      (send_error (done ∷ []) [] source_two refl (omega arith))

swapped : Reach [] outcomes 4 (queued source_two source_one)
unfolding start
swapped =
    later
      (later
        (later
          (later here (send_response (scraping source_one ∷ []) [] source_two refl (omega arith)))
          (send_response [] _ source_one refl (omega arith)))
        (send_error (sending_error source_one ∷ []) [] source_two refl (omega arith)))
      (send_error [] _ source_one refl (omega arith))

nodes_once : Identifies (λ q. q.name) forth.nodes
nodes_once =
    Identifies-pair (λ q. q.name) (node_point "n1") (node_point "n2") node_points_set
      (λ e. (let t : false ≡ true = (string_comparable.equal_iff "n1" "n2").1 e in cc))

pods_once : Identifies pod_ident forth.pods
pods_once = Identifies-pair pod_ident (pod_point "p1") (pod_point "p2") pod_points_set (λ e.
    (let t : false ≡ true = (string_comparable.equal_iff "p1" "p2").1 (ap (λ i. i.name) e) in cc))

order_irrelevant_example :
    (get_node_metrics (receive new_sink_provider forth).0 ("n2" ∷ [])
      ≡ get_node_metrics (receive new_sink_provider back).0 ("n2" ∷ []))
    × (get_container_metrics (receive new_sink_provider forth).0 (named "p1" ∷ [])
        ≡ get_container_metrics (receive new_sink_provider back).0 (named "p1" ∷ []))
order_irrelevant_example =
    order_irrelevant (received source_one source_two in_order) refl
      (received source_two source_one swapped) refl nodes_once pods_once new_sink_provider
      new_sink_provider ("n2" ∷ []) (named "p1" ∷ [])

receive-RoundTrip_example :
    (get_node_metrics (receive new_sink_provider forth).0 ("n1" ∷ "n2" ∷ [])
      ≡ ok (map node_time_info forth.nodes, map (λ q. some (node_usage q)) forth.nodes))
    × (get_container_metrics (receive new_sink_provider forth).0 (named "p1" ∷ named "p2" ∷ [])
        ≡ ok
            (map (λ q. (pod_metrics q).0) forth.pods, map (λ q. some (pod_metrics q).1) forth.pods))
receive-RoundTrip_example = receive-RoundTrip new_sink_provider forth nodes_once pods_once

amounts_set : IsSet Amount
amounts_set = hlevel (ℕ_discrete)

Reach-Shows_example :
    Shows amounts_set
      (receive new_sink_provider back).0
      (contents_of amounts_set outcomes nodes_once pods_once)
Reach-Shows_example =
    Reach-Shows amounts_set (received source_two source_one swapped) refl nodes_once pods_once
      new_sink_provider
