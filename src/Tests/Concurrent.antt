-- ===== src/Tests/Concurrent.antt =====
-- A query that is called while a batch is being stored, and a health check between two cycles.
use my_learning_journey.Base.{
  ℕ, ◌+◌, ◌*◌, ◌≤◌, Bool, All, ◌≡◌, refl, some, true, false, List, [], ◌∷◌, ok, string_comparable,
}
use my_learning_journey.Golang.RwMutex.{
  Thread, answered, updated, asking, waiting, reading, Locked, Runs, idle, call_read, call_update,
  moves, read_lock, read, read_unlock, lock, readers_gone, write, unlock, Since, Moves, write_all,
}
use my_learning_journey.Golang.RwMutex.Progress.{all_steps_left}
use my_learning_journey.Golang.RwMutex.Returns.{IsFinished}
use my_learning_journey.Golang.{Time, second}
use my_learning_journey.Base.Int.{pos}
use my_learning_journey.Base.Dict.{lookup, contains, insert}
use my_learning_journey.Manager.{
  State, Phase, collecting, Cycle, Reach, health_of, check_health, healthy_tick,
}
use my_learning_journey.Manager.Serving.{server}
use my_learning_journey.Manager.ConcurrentQueries.{batches, query-Concurrent}
use my_learning_journey.Manager.ConcurrentChecks.{updates, check_health-Concurrent}
use my_learning_journey.Manager.Locking.{
  Health, new_health, HealthCursor, at_tick, at_ok, HealthUpdate, begins, ends, collect_writes,
  locked_health,
}
use my_learning_journey.Tests.Managing.{source, cycle, in_second, run2, manager}
use my_learning_journey.Sources.{MetricsBatch}
use my_learning_journey.Sink.{
  SinkMetricsProvider, new_sink_provider, receive, node_time_info, node_usage,
}
use my_learning_journey.Sink.Locking.{Query, of_nodes, Cursor, Answer, nodes_answer, locked_sink}
use my_learning_journey.Sink.Snapshots.{
  query_answer, received, Runs-query_answer, calls_return, bounded,
}
use my_learning_journey.Tests.{Amount, batch_of, node_point, at}

abbrev batch : MetricsBatch Amount
batch = batch_of "n1"

abbrev query : Query
query = of_nodes ("n1" ∷ [])

abbrev answer : Answer Amount
answer =
    nodes_answer
      (ok (node_time_info (node_point "n1") ∷ [], some (node_usage (node_point "n1")) ∷ []))

abbrev Sinks : Type 0
Sinks =
    Locked (SinkMetricsProvider Amount) Query (Cursor Amount) (Answer Amount) (MetricsBatch Amount)

abbrev stored : SinkMetricsProvider Amount
stored = (receive new_sink_provider batch).0

-- The query is called while `Receive` has the lock, and waits for it.
abbrev blocked : Sinks
blocked = record {
  memory = new_sink_provider;
  readers = 0;
  writer = true;
  threads = asking query [] ∷ waiting batch ∷ [];
  log = [];
}

abbrev served : Sinks
served = record {
  memory = stored;
  readers = 0;
  writer = false;
  threads = answered query [] answer ∷ updated batch ∷ [];
  log = batch ∷ [];
}

run_blocked : Runs locked_sink new_sink_provider blocked
run_blocked = call_read query (moves (call_update batch idle) (lock [] [] batch refl refl))

abbrev stored_once : Sinks
stored_once = record {
  memory = stored;
  readers = 0;
  writer = false;
  threads = asking query [] ∷ updated batch ∷ [];
  log = batch ∷ [];
}

run_stored : Runs locked_sink new_sink_provider stored_once
unfolding locked_sink receive
run_stored =
    moves
      (moves
        (moves (moves run_blocked (readers_gone (asking query [] ∷ []) [] batch refl refl))
          (write (asking query [] ∷ []) [] batch _ _ refl))
        (write (asking query [] ∷ []) [] batch _ _ refl))
      (unlock (asking query [] ∷ []) [] batch refl)

run_served : Runs locked_sink new_sink_provider served
unfolding locked_sink receive lookup contains insert
run_served =
    moves
      (moves (moves run_stored (read_lock [] (updated batch ∷ []) query [] refl refl))
        (read [] (updated batch ∷ []) query [] _ _ refl refl))
      (read_unlock [] (updated batch ∷ []) query [] _ answer refl refl)

Runs-query_answer_example :
    (seen : List (MetricsBatch Amount)) × Since [] seen
    × Since seen (batch ∷ [])
    × (answer ≡ query_answer (received seen) query)
Runs-query_answer_example =
    Runs-query_answer run_served [] (updated batch ∷ []) query [] answer refl

calls_return_example :
    ((k : ℕ) (t : Sinks)
      → Moves locked_sink blocked k t
      → k + all_steps_left locked_sink bounded t ≤ all_steps_left locked_sink bounded blocked)
    × ((k : ℕ) × (t : Sinks) × Moves locked_sink blocked k t × All IsFinished t.threads)
calls_return_example = calls_return run_blocked

query-Concurrent_example :
    (old : List Cycle) × (then_ : State (SinkMetricsProvider Amount)) × (at : Phase) × Reach
      (server source (pos (60 * second)))
      new_sink_provider
      old
      then_
      at
    × Since [] (batches source (pos (60 * second)) old)
    × Since
        (batches source (pos (60 * second)) old)
        (batches source (pos (60 * second)) (cycle ∷ []))
    × (answer ≡ query_answer then_.stored query)
query-Concurrent_example =
    query-Concurrent source (pos (60 * second)) (cycle ∷ []) in_second (collecting (at 70)) run2
      run_served refl [] (updated batch ∷ []) query [] answer refl

-- The first cycle is done; a check reads the first field, and the second cycle waits to begin.
abbrev checked : Locked Health (Unit {0}) HealthCursor (Time × Bool) HealthUpdate
checked = record {
  memory = record { last_tick_start = at 70; last_ok = true };
  readers = 0;
  writer = false;
  threads =
      updated (begins (at 70))
      ∷ answered tt (ends true ∷ begins (at 10) ∷ []) (at 10, true)
      ∷ updated (ends true)
      ∷ updated (begins (at 10))
      ∷ [];
  log = begins (at 70) ∷ ends true ∷ begins (at 10) ∷ [];
}

-- `Collect` in one of its critical sections, while nobody else has the lock.
section_done :
    (s : Locked Health (Unit {0}) HealthCursor (Time × Bool) HealthUpdate) (u : HealthUpdate)
    → Runs locked_health new_health s
    → s.writer ≡ false
    → s.readers ≡ 0
    → Runs locked_health new_health (record s {
      memory = write_all locked_health (collect_writes u) s.memory;
      writer = false;
      threads = updated u ∷ s.threads;
      log = u ∷ s.log;
    })
unfolding locked_health
section_done s (begins t) r free unread =
    let rest = s.threads in
    moves
      (moves
        (moves (moves (call_update (begins t) r) (lock [] rest (begins t) refl free))
          (readers_gone [] rest (begins t) refl unread))
        (write [] rest (begins t) _ [] refl))
      (unlock [] rest (begins t) refl)
section_done s (ends tick_ok) r free unread =
    let rest = s.threads in
    moves
      (moves
        (moves (moves (call_update (ends tick_ok) r) (lock [] rest (ends tick_ok) refl free))
          (readers_gone [] rest (ends tick_ok) refl unread))
        (write [] rest (ends tick_ok) _ [] refl))
      (unlock [] rest (ends tick_ok) refl)

abbrev done : List (Thread Health (Unit {0}) HealthCursor (Time × Bool) HealthUpdate)
done = updated (ends true) ∷ updated (begins (at 10)) ∷ []

abbrev first_updates : List HealthUpdate
first_updates = ends true ∷ begins (at 10) ∷ []

abbrev half_checked : Locked Health (Unit {0}) HealthCursor (Time × Bool) HealthUpdate
half_checked = record {
  memory = record { last_tick_start = at 10; last_ok = true };
  readers = 1;
  writer = true;
  threads = waiting (begins (at 70)) ∷ reading tt first_updates (at_ok (at 10)) ∷ done;
  log = first_updates;
}

run_half : Runs locked_health new_health half_checked
unfolding locked_health
run_half =
    let first_done =
      section_done _ (ends true) (section_done _ (begins (at 10)) idle refl refl) refl refl in
    moves
      (call_update (begins (at 70)) (
        moves (moves (call_read tt first_done) (read_lock [] done tt first_updates refl refl))
          (read [] done tt first_updates at_tick (at_ok (at 10)) refl refl)))
      (lock [] (reading tt first_updates (at_ok (at 10)) ∷ done) (begins (at 70)) refl refl)

run_checked : Runs locked_health new_health checked
unfolding locked_health
run_checked =
    let others : List (Thread Health (Unit {0}) HealthCursor (Time × Bool) HealthUpdate) =
      answered tt first_updates (at 10, true) ∷ done in
    moves
      (moves
        (moves
          (moves run_half (
            read_unlock (waiting (begins (at 70)) ∷ []) done tt first_updates (at_ok (at 10))
              (at 10, true) refl refl))
          (readers_gone [] others (begins (at 70)) refl refl))
        (write [] others (begins (at 70)) _ [] refl))
      (unlock [] others (begins (at 70)) refl)

section_log : checked.log ≡ updates manager new_sink_provider (cycle ∷ []) (collecting (at 70))
unfolding receive healthy_tick
section_log = refl

check_health-Concurrent_example :
    (old : List Cycle) × (then_ : State (SinkMetricsProvider Amount)) × (phase : Phase) × Reach
      manager new_sink_provider old then_ phase
    × Since first_updates (updates manager new_sink_provider old phase)
    × Since
        (updates manager new_sink_provider old phase)
        (updates manager new_sink_provider (cycle ∷ []) (collecting (at 70)))
    × ((now : Time) → health_of manager now (at 10) true ≡ check_health manager now then_)
check_health-Concurrent_example =
    check_health-Concurrent manager new_sink_provider (cycle ∷ []) in_second (collecting (at 70))
      run2 run_checked section_log (updated (begins (at 70)) ∷ []) done first_updates (at 10) true
      refl
