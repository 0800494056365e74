-- ===== src/Manager/ConcurrentQueries.antt =====
-- The manager's cycles beside the queries of the API that run at the same time, with the sink's
-- lock between them.
use my_learning_journey.Base.{
  ◌≡◌, refl, sym, ap, ◌∙◌, inl, inr, none, some, Option-cases, List, [], ◌∷◌, ◌++◌,
  eq-nil_of_append_right,
}
use my_learning_journey.Golang.{Duration}
use my_learning_journey.Golang.RwMutex.{Thread, answered, Locked, Runs, Since, Since-cases}
use my_learning_journey.Sources.{MetricsBatch, MetricSource}
use my_learning_journey.Sink.{SinkMetricsProvider, new_sink_provider, receive}
use my_learning_journey.Sink.Locking.{Query, Cursor, Answer, locked_sink}
use my_learning_journey.Sink.Snapshots.{query_answer, received, Runs-query_answer}
use my_learning_journey.Manager.{
  State, Phase, starting, collecting, waiting, Cycle, Reach, new, bad_ticker, first, tick, finished,
  crash, stop,
}
use my_learning_journey.Manager.Cycles.{answer, stored_after, IsAfter, Reach-IsAfter, finish-none}
use my_learning_journey.Manager.Serving.{server}

module _ {Quantity : Type 0} (source : MetricSource Quantity) (resolution : Duration) where
  -- The batches that the manager has stored in its finished cycles, the last one first.
  abbrev pub batches : List Cycle → List (MetricsBatch Quantity)
  batches [] = []
  batches (c ∷ log) = elim (answer (server source resolution) new_sink_provider c).batch [
    | none ↦ batches log
    | some batch ↦ batch ∷ batches log
  ]

  received-batches :
      (log : List Cycle)
      → received (batches log) ≡ stored_after (server source resolution) new_sink_provider log
  received-batches [] = refl
  received-batches (c ∷ log) =
      elim (Option-cases (answer (server source resolution) new_sink_provider c).batch) [
        | inl e ↦ rw (e, batches, stored_after) (received-batches log)
        | inr (batch, e) ↦
            rw (e, batches, stored_after) (ap (λ p. (receive p batch).0) (received-batches log))
      ]

  -- The manager was in a state in which just those batches were stored.
  abbrev Was : List (MetricsBatch Quantity) → Type 0
  Was seen =
      (log : List Cycle) × (s : State (SinkMetricsProvider Quantity)) × (phase : Phase) × Reach
        (server source resolution) new_sink_provider log s phase
      × (batches log ≡ seen)

  Reach-Was :
      (log : List Cycle) (s : State (SinkMetricsProvider Quantity)) (phase : Phase)
      → Reach (server source resolution) new_sink_provider log s phase
      → (seen : List (MetricsBatch Quantity)) → Since seen (batches log)
      → Was seen
  Reach-Was _ s _ new seen (more, e) =
      ([], s, starting, new, sym (eq-nil_of_append_right more seen (sym e)))
  Reach-Was log s _ (bad_ticker h r) seen early = Reach-Was log s starting r seen early
  Reach-Was log t _ (first {s = s} now h r) seen early = Reach-Was log s starting r seen early
  Reach-Was log t _ (tick {s = s} start r) seen early = Reach-Was log s waiting r seen early
  Reach-Was _ t _ (finished {log = log} {s = s} c r f) seen early =
      elim (Option-cases (answer (server source resolution) new_sink_provider c).batch) [
        | inl e ↦ cc (finish-none (server source resolution) new_sink_provider s c e)
        | inr (batch, e) ↦
            let grown : batches (c ∷ log) ≡ batch ∷ batches log = rw (e, batches) refl in
            elim (Since-cases batch (batches log) seen (rw grown at early)) [
              | inl same ↦ (c ∷ log, t, waiting, finished c r f, grown ∙ same)
              | inr before ↦ Reach-Was log s (collecting c.start_time) r seen before
            ]
      ]
  Reach-Was log s _ (crash c r f) seen early =
      Reach-Was log s (collecting c.start_time) r seen early
  Reach-Was log s _ (stop r) seen early = Reach-Was log s waiting r seen early

  -- A query answers as in one step, over the sink of a state that the manager was in when the query
  -- was called or has reached since, however its accesses of the maps interleave with those of
  -- `Receive` and of other queries: where the batches that have been received are those of the
  -- manager's finished cycles.
  pub query-Concurrent :
      (log : List Cycle) (s : State (SinkMetricsProvider Quantity)) (phase : Phase)
      {l : Locked
        (SinkMetricsProvider Quantity)
        Query
        (Cursor Quantity)
        (Answer Quantity)
        (MetricsBatch Quantity)}
      → Reach (server source resolution) new_sink_provider log s phase
      → Runs locked_sink new_sink_provider l
      → l.log ≡ batches log
      → (before behind : List (
          Thread
            (SinkMetricsProvider Quantity)
            Query
            (Cursor Quantity)
            (Answer Quantity)
            (MetricsBatch Quantity)))
        (q : Query) (since : List (MetricsBatch Quantity)) (a : Answer Quantity)
      → l.threads ≡ before ++ answered q since a ∷ behind
      → (old : List Cycle) × (then_ : State (SinkMetricsProvider Quantity)) × (at : Phase) × Reach
          (server source resolution)
          new_sink_provider
          old
          then_
          at
        × Since since (batches old)
        × Since (batches old) (batches log)
        × (a ≡ query_answer then_.stored q)
  unfolding IsAfter
  query-Concurrent log s phase r runs same before behind q since a e =
      let (seen, early, late, is) = Runs-query_answer runs before behind q since a e in
      let (old, then_, at, reached, these) = Reach-Was log s phase r seen (rw same at late) in
      let (stored, _) =
        Reach-IsAfter (server source resolution) new_sink_provider old then_ at reached in
      let whole : received seen ≡ then_.stored = rw (← these, stored) (received-batches old) in
      (
        old,
        then_,
        at,
        reached,
        rw these early,
        rw (these, ← same) late,
        is ∙ ap (λ p. query_answer p q) whole,
      )
