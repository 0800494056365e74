-- ===== src/Sink/Snapshots.antt =====
-- The sink under its lock: what concurrent queries answer, and that every call returns.
use my_learning_journey.Base.{
  ℕ, ◌<◌, ◌+◌, ◌≤◌, ◌≡◌, refl, sym, ap, ◌∙◌, ◌⊎◌, inl, inr, List, [], ◌∷◌, ◌++◌, ok, length, All,
  arith,
}
use my_learning_journey.Sources.{MetricsBatch}
use my_learning_journey.Golang.RwMutex.{
  Thread, answered, Locked, Runs, Moves, after, Reads, begins, continues, Answers, Since,
}
use my_learning_journey.Golang.RwMutex.Snapshots.{Runs-answered}
use my_learning_journey.Golang.RwMutex.Progress.{Bounded, all_steps_left}
use my_learning_journey.Golang.RwMutex.Returns.{IsFinished, Runs-returns}
use my_learning_journey.Sink.{
  SinkMetricsProvider, new_sink_provider, nodes_from, get_node_metrics, pods_from,
  get_container_metrics, receive,
}
use my_learning_journey.Sink.Locking.{
  Query, of_nodes, of_pods, Cursor, at_node, at_pod, Answer, nodes_answer, pods_answer, start_query,
  advance_query, locked_sink,
}

inl_injective : {A B : Type 0} {a c : A} → ◌≡◌ {A = A ⊎ B} (inl a) (inl c) → a ≡ c
inl_injective e = cc

module _ {Quantity : Type 0} where
  -- A query in one step.
  abbrev pub query_answer : SinkMetricsProvider Quantity → Query → Answer Quantity
  query_answer p (of_nodes nodes) = nodes_answer (get_node_metrics p nodes)
  query_answer p (of_pods pods) = pods_answer (get_container_metrics p pods)

  -- The sink that has received batches, the last one first, each in one step.
  abbrev pub received : List (MetricsBatch Quantity) → SinkMetricsProvider Quantity
  received [] = new_sink_provider
  received (batch ∷ log) = (receive (received log) batch).0

  after-received :
      (log : List (MetricsBatch Quantity)) → after locked_sink new_sink_provider log ≡ received log
  unfolding locked_sink receive
  after-received [] = refl
  after-received (batch ∷ log) = ap (λ p. (receive p batch).0) (after-received log)

  -- The answer that the loop goes on to, if the maps stay as they are.
  abbrev rest_of : SinkMetricsProvider Quantity → Cursor Quantity → Answer Quantity
  rest_of p (at_node i nodes out) = nodes_answer (ok (nodes_from p.nodes i nodes out))
  rest_of p (at_pod i pods out) = pods_answer (ok (pods_from p.pods i pods out))

  rest_of-start :
      (p : SinkMetricsProvider Quantity) (q : Query) → rest_of p (start_query q) ≡ query_answer p q
  unfolding start_query get_node_metrics get_container_metrics
  rest_of-start p (of_nodes nodes) = refl
  rest_of-start p (of_pods pods) = refl

  rest_of-advance :
      (p : SinkMetricsProvider Quantity) (c d : Cursor Quantity)
      → advance_query p c ≡ inl d
      → rest_of p d ≡ rest_of p c
  unfolding advance_query nodes_from pods_from
  rest_of-advance p (at_node i [] out) d e = cc
  rest_of-advance p (at_node i (node ∷ nodes) out) d e = ap (rest_of p) (sym (inl_injective e))
  rest_of-advance p (at_pod i [] out) d e = cc
  rest_of-advance p (at_pod i (pod ∷ pods) out) d e = ap (rest_of p) (sym (inl_injective e))

  rest_of-answer :
      (p : SinkMetricsProvider Quantity) (c : Cursor Quantity) (a : Answer Quantity)
      → advance_query p c ≡ inr a
      → a ≡ rest_of p c
  unfolding advance_query nodes_from pods_from
  rest_of-answer p (at_node i [] out) a e = cc
  rest_of-answer p (at_node i (node ∷ nodes) out) a e = cc
  rest_of-answer p (at_pod i [] out) a e = cc
  rest_of-answer p (at_pod i (pod ∷ pods) out) a e = cc

  Reads-rest_of :
      (p : SinkMetricsProvider Quantity) (q : Query) (c : Cursor Quantity)
      → Reads locked_sink p q c
      → rest_of p c ≡ query_answer p q
  unfolding locked_sink
  Reads-rest_of p q _ begins = rest_of-start p q
  Reads-rest_of p q _ (continues {c = c} {d = d} r e) =
      rest_of-advance p c d e ∙ Reads-rest_of p q c r

  Answers-query_answer :
      (p : SinkMetricsProvider Quantity) (q : Query) (a : Answer Quantity)
      → Answers locked_sink p q a
      → a ≡ query_answer p q
  unfolding locked_sink
  Answers-query_answer p q a (c, r, e) = rest_of-answer p c a e ∙ Reads-rest_of p q c r

  -- However the accesses of the calls interleave, a query answers as `GetNodeMetrics` or
  -- `GetContainerMetrics` does in one step, over a sink that has received some batches one by one:
  -- all whose `Receive` was done when the query was called, and none whose `Receive` is not done.
  pub Runs-query_answer :
      {s : Locked
        (SinkMetricsProvider Quantity)
        Query
        (Cursor Quantity)
        (Answer Quantity)
        (MetricsBatch Quantity)}
      → Runs locked_sink new_sink_provider s
      → (before behind : List (
          Thread
            (SinkMetricsProvider Quantity)
            Query
            (Cursor Quantity)
            (Answer Quantity)
            (MetricsBatch Quantity)))
        (q : Query) (since : List (MetricsBatch Quantity)) (a : Answer Quantity)
      → s.threads ≡ before ++ answered q since a ∷ behind
      → (seen : List (MetricsBatch Quantity)) × Since since seen
        × Since seen s.log
        × (a ≡ query_answer (received seen) q)
  Runs-query_answer r before behind q since a e =
      let (seen, early, late, read) =
        Runs-answered locked_sink new_sink_provider r before behind q since a e in
      (
        seen,
        early,
        late,
        Answers-query_answer (received seen) q a (rw (after-received seen) at read),
      )

  -- The rounds that a loop has left.
  abbrev rounds_left : Cursor Quantity → ℕ
  rounds_left (at_node i nodes out) = length nodes
  rounds_left (at_pod i pods out) = length pods

  advance_query-fewer :
      (p : SinkMetricsProvider Quantity) (c d : Cursor Quantity)
      → advance_query p c ≡ inl d
      → rounds_left d < rounds_left c
  unfolding advance_query
  advance_query-fewer p (at_node i [] out) d e = cc
  advance_query-fewer p (at_node i (node ∷ nodes) out) d e =
      omega (arith, ap rounds_left (inl_injective e))
  advance_query-fewer p (at_pod i [] out) d e = cc
  advance_query-fewer p (at_pod i (pod ∷ pods) out) d e =
      omega (arith, ap rounds_left (inl_injective e))

  pub bounded : Bounded (locked_sink {Quantity = Quantity})
  unfolding locked_sink
  bounded = record { left = rounds_left; fewer = advance_query-fewer }

  -- Every call of the sink returns, in whatever order the goroutines take their steps: from each
  -- state, if no more calls come, no run has more steps than the goroutines have left in it, and
  -- some run goes on to a state in which every call has returned.
  pub calls_return :
      {s : Locked
        (SinkMetricsProvider Quantity)
        Query
        (Cursor Quantity)
        (Answer Quantity)
        (MetricsBatch Quantity)}
      → Runs locked_sink new_sink_provider s
      → ((k : ℕ)
            (t : Locked
              (SinkMetricsProvider Quantity)
              Query
              (Cursor Quantity)
              (Answer Quantity)
              (MetricsBatch Quantity))
          → Moves locked_sink s k t
          → k + all_steps_left locked_sink bounded t ≤ all_steps_left locked_sink bounded s)
        × ((k : ℕ) × (t : Locked
              (SinkMetricsProvider Quantity)
              Query
              (Cursor Quantity)
              (Answer Quantity)
              (MetricsBatch Quantity))
            × Moves locked_sink s k t
            × All IsFinished t.threads)
  calls_return r = Runs-returns locked_sink bounded new_sink_provider r
