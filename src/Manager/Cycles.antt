-- ===== src/Manager/Cycles.antt =====
-- Manager.Collect, over the cycles of RunUntil: what is stored.
use my_learning_journey.Base.{
  returns_injective, Bool, false, none, some, Option-cases, List, [], ◌∷◌, ◌++◌, ◌≡◌, inl, inr,
  refl, sym, ap, ◌∙◌, returns, panics,
}
use my_learning_journey.Golang.{sub, background, with_timeout}
use my_learning_journey.Sources.{MetricsBatch, Collected, Event}
use my_learning_journey.Manager.{
  Manager, State, healthy_tick, begin, finish, Phase, starting, collecting, waiting, Cycle, Reach,
  new, bad_ticker, first, tick, finished, crash, stop,
}

module _ {Stored Quantity : Type 0} (rm : Manager Stored Quantity) (stored : Stored) where
  -- What the source answers in a cycle.
  abbrev pub answer : Cycle → Collected Quantity
  answer c = rm.source.collect (with_timeout background c.now rm.resolution) c.now

  -- The sink has been given the batch of each finished cycle, in order.
  abbrev pub stored_after : List Cycle → Stored
  stored_after [] = stored
  stored_after (c ∷ log) = elim (answer c).batch [
    | none ↦ stored_after log
    | some batch ↦ (rm.sink.receive (stored_after log) batch).0
  ]

  -- Whether the last finished cycle was healthy.
  abbrev pub ok_after : List Cycle → Bool
  ok_after [] = false
  ok_after (c ∷ log) = elim (answer c).batch [
    | none ↦ false
    | some batch ↦ healthy_tick (answer c).error batch (rm.sink.receive (stored_after log) batch).1
  ]

  -- The sink's state and the flag are those after the finished cycles `log`.
  unfoldable pub IsAfter : List Cycle → State Stored → Type 0
  IsAfter log s = (s.stored ≡ stored_after log) × (s.last_ok ≡ ok_after log)

  -- The state after a cycle in which the source answers with a batch.
  finished_state : Cycle → State Stored → MetricsBatch Quantity → State Stored
  finished_state c s batch = record s {
    last_ok = healthy_tick (answer c).error batch (rm.sink.receive s.stored batch).1;
    stored = (rm.sink.receive s.stored batch).0;
    events =
        s.events ++ (answer c).events ++ Event.tick_duration (sub c.finished c.start_time) ∷ [];
  }

  finish-some :
      (s : State Stored) (c : Cycle) (batch : MetricsBatch Quantity)
      → (answer c).batch ≡ some batch
      → finish rm c.start_time c.now c.finished s ≡ returns (finished_state c s batch)
  unfolding finish finished_state
  finish-some s c batch g = rw (g, finish) refl

  pub finish-none :
      (s : State Stored) (c : Cycle)
      → (answer c).batch ≡ none
      → finish rm c.start_time c.now c.finished s ≡ panics
  unfolding finish
  finish-none s c g = rw (g, finish) refl

  finished_state-IsAfter :
      (log : List Cycle) (s : State Stored) (c : Cycle) (batch : MetricsBatch Quantity)
      → IsAfter log s
      → (answer c).batch ≡ some batch
      → IsAfter (c ∷ log) (finished_state c s batch)
  unfolding finished_state IsAfter
  finished_state-IsAfter log s c batch (h, k) g =
      (rw (g, stored_after, h) refl, rw (g, ok_after, h) refl)

  finish-IsAfter :
      (log : List Cycle) (s t : State Stored) (c : Cycle)
      → IsAfter log s
      → finish rm c.start_time c.now c.finished s ≡ returns t
      → IsAfter (c ∷ log) t
  finish-IsAfter log s t c h e = elim (Option-cases (answer c).batch) [
    | inl g ↦ cc (finish-none s c g)
    | inr (batch, g) ↦
        let same : finished_state c s batch ≡ t =
          returns_injective (sym (finish-some s c batch g) ∙ e) in
        rw (← same) (finished_state-IsAfter log s c batch h g)
  ]

  pub finish-last_tick_start :
      (s t : State Stored) (c : Cycle)
      → finish rm c.start_time c.now c.finished s ≡ returns t
      → t.last_tick_start ≡ s.last_tick_start
  unfolding finished_state
  finish-last_tick_start s t c e = elim (Option-cases (answer c).batch) [
    | inl g ↦ cc (finish-none s c g)
    | inr (batch, g) ↦
        sym (ap (λ s. s.last_tick_start) (returns_injective (sym (finish-some s c batch g) ∙ e)))
  ]

  -- In every state that the manager reaches the sink holds what the batches of all finished cycles
  -- leave, received in order, also of those that came with an error, and the health flag is that of
  -- the last finished cycle, false before there is one.
  pub Reach-IsAfter :
      (log : List Cycle) (s : State Stored) (phase : Phase)
      → Reach rm stored log s phase
      → IsAfter log s
  unfolding IsAfter begin
  Reach-IsAfter _ _ _ new = (refl, refl)
  Reach-IsAfter log s _ (bad_ticker h r) = Reach-IsAfter log s starting r
  Reach-IsAfter log _ _ (first {s = s} now h r) = Reach-IsAfter log s starting r
  Reach-IsAfter log _ _ (tick {s = s} t r) = Reach-IsAfter log s waiting r
  Reach-IsAfter _ t _ (finished {log = log} {s = s} c r e) =
      finish-IsAfter log s t c (Reach-IsAfter log s (collecting c.start_time) r) e
  Reach-IsAfter log s _ (crash c r e) = Reach-IsAfter log s (collecting c.start_time) r
  Reach-IsAfter log s _ (stop r) = Reach-IsAfter log s waiting r
