-- ===== src/Manager.antt =====
-- pkg/manager/manager.go: the cycle that collects a batch and stores it, and its health check.
pub mod Cycles
pub mod HealthCheck
pub mod Serving
pub mod Durations
pub mod FromSources
pub mod Interleavings
pub mod Kubelets
pub mod Locking
pub mod Provenance
pub mod ConcurrentChecks
pub mod ConcurrentQueries
use my_learning_journey.Base.{
  Bool, true, false, Option, none, some, List, [], ◌∷◌, ◌++◌, ◌≡◌, Run, returns, panics,
  if◌then◌else◌,
}
use my_learning_journey.Base.Int.{pos, ◌≤ℤ◌, ◌<ℤ◌, ltb_ℤ}
use my_learning_journey.Golang.{Time, Duration, zero_time, sub, Context, background, with_timeout}
use my_learning_journey.Float.{max_tick_wait_of}
use my_learning_journey.Errors.{Error}
use my_learning_journey.Sources.{MetricsBatch, MetricSource, Collected, Event}

-- pkg/sink/interfaces.go: `Receive`, with the state that it changes.
pub record MetricSink (Stored Quantity : Type 0) : Type 0 where
  pub receive : Stored → MetricsBatch Quantity → Stored × Option Error

-- The fields that never change.
pub record Manager (Stored Quantity : Type 0) : Type 0 where
  pub source : MetricSource Quantity
  pub sink : MetricSink Stored Quantity
  pub resolution : Duration

-- The fields under the lock, with the sink's state and the reports to the program's own monitoring.
pub record State (Stored : Type 0) : Type 0 where
  pub last_tick_start : Time
  pub last_ok : Bool
  pub stored : Stored
  pub events : List Event

-- `NewManager`
abbrev pub new_state : {Stored : Type 0} → Stored → State Stored
new_state stored = record {
  last_tick_start = zero_time;
  last_ok = false;
  stored = stored;
  events = [];
}

-- `healthyTick` where `Collect` has the source's results: the first condition that it tests.
abbrev pub healthy_collect :
    {Quantity : Type 0} → (collect_err : Option Error) → MetricsBatch Quantity → Bool
healthy_collect none batch = true
healthy_collect (some e) batch = elim batch.nodes [ [] ↦ false | n ∷ ns ↦ true ]

-- `healthyTick` at the end of a cycle.
unfoldable pub healthy_tick :
    {Quantity : Type 0}
    → (collect_err : Option Error) → MetricsBatch Quantity
    → (recv_err : Option Error) → Bool
healthy_tick collect_err batch none = healthy_collect collect_err batch
healthy_tick collect_err batch (some e) = false

-- The first critical section of `Collect`.
unfoldable pub begin : {Stored : Type 0} → Time → State Stored → State Stored
begin start_time s = record s { last_tick_start = start_time }

module _ {Stored Quantity : Type 0} where
  -- The rest of `Collect`: `now` is the clock when it makes the context, and `finished` when it has
  -- stored the batch. A nil batch is dereferenced, here or by the sink.
  unfoldable pub finish :
      Manager Stored Quantity → (start_time now finished : Time) → State Stored → Run (State Stored)
  unfolding healthy_tick
  finish rm start_time now finished s =
      let ctx = with_timeout background now rm.resolution in
      let c = rm.source.collect ctx now in
      elim c.batch [
        | none ↦ panics
        | some batch ↦
            let (stored, recv_err) = rm.sink.receive s.stored batch in
            returns (record s {
              last_ok = healthy_tick c.error batch recv_err;
              stored = stored;
              events = s.events ++ c.events ++ Event.tick_duration (sub finished start_time) ∷ [];
            })
      ]

  -- `CheckHealth` after its critical section, at the time `now`.
  unfoldable pub health_of :
      Manager Stored Quantity → Time → (last_tick : Time) → (healthy_tick : Bool) → Option Error
  unfolding max_tick_wait_of
  health_of rm now last_tick healthy_tick =
      let max_tick_wait = max_tick_wait_of rm.resolution in
      let tick_wait = sub now last_tick in
      if ltb_ℤ max_tick_wait tick_wait
      then some (Error.stale_tick tick_wait max_tick_wait)
      else if healthy_tick
      then none
      else some Error.unhealthy_tick

  -- `CheckHealth` at the time `now`.
  unfoldable pub check_health : Manager Stored Quantity → Time → State Stored → Option Error
  unfolding health_of
  check_health rm now s = health_of rm now s.last_tick_start s.last_ok

-- Where the goroutine of `RunUntil` is.
pub data Phase : Type 0 where
  starting : Phase
  collecting : (start_time : Time) → Phase
  waiting stopped : Phase
  crashed : (start_time : Time) → Phase
  no_ticker : Phase

-- The clock's answers in one cycle.
pub record Cycle : Type 0 where
  pub start_time : Time
  pub now : Time
  pub finished : Time

-- The states that `RunUntil` reaches, with its finished cycles, the last one first. A health check
-- reads the state at any of them. The times of the ticks are the ticker's.
pub data Reach {Stored Quantity : Type 0} (rm : Manager Stored Quantity) (stored : Stored)
    : List Cycle → State Stored → Phase → Type 0 where
  new : Reach rm stored [] (new_state stored) starting
  -- `time.NewTicker` panics where the resolution is not positive.
  bad_ticker :
      {log : List Cycle} {s : State Stored}
      → rm.resolution ≤ℤ pos 0
      → Reach rm stored log s starting
      → Reach rm stored log s no_ticker
  first :
      {log : List Cycle} {s : State Stored} (now : Time)
      → pos 0 <ℤ rm.resolution
      → Reach rm stored log s starting
      → Reach rm stored log (begin now s) (collecting now)
  tick :
      {log : List Cycle} {s : State Stored} (start_time : Time)
      → Reach rm stored log s waiting
      → Reach rm stored log (begin start_time s) (collecting start_time)
  finished :
      {log : List Cycle} {s t : State Stored} (c : Cycle)
      → Reach rm stored log s (collecting c.start_time)
      → finish rm c.start_time c.now c.finished s ≡ returns t
      → Reach rm stored (c ∷ log) t waiting
  crash :
      {log : List Cycle} {s : State Stored} (c : Cycle)
      → Reach rm stored log s (collecting c.start_time)
      → finish rm c.start_time c.now c.finished s ≡ panics
      → Reach rm stored log s (crashed c.start_time)
  stop :
      {log : List Cycle} {s : State Stored}
      → Reach rm stored log s waiting
      → Reach rm stored log s stopped
