-- ===== src/Manager/ConcurrentChecks.antt =====
-- The manager's cycles beside the health checks that run at the same time, with healthMu between
-- them.
use my_learning_journey.Base.{
  ◌≡◌, refl, sym, ap, ◌⊎◌, inl, inr, Bool, List, [], ◌∷◌, ◌++◌, eq-nil_of_append_right,
}
use mathlib.Core.Path.{ap₂}
use my_learning_journey.Golang.{Time}
use my_learning_journey.Golang.RwMutex.{
  Thread, answered, Locked, Runs, after, Reads, begins, continues, Answers, Since, Since-cases,
}
use my_learning_journey.Golang.RwMutex.Snapshots.{Runs-answered}
use my_learning_journey.Sources.{}
use my_learning_journey.Manager.{
  Manager, State, health_of, check_health, Phase, starting, no_ticker, collecting, waiting, stopped,
  crashed, Cycle, Reach, new, bad_ticker, first, tick, finished, crash, stop,
}
use my_learning_journey.Manager.Cycles.{ok_after, IsAfter, Reach-IsAfter}
use my_learning_journey.Manager.HealthCheck.{last_start, last_start-Reach}
use my_learning_journey.Manager.Locking.{
  Health, new_health, HealthCursor, at_tick, at_ok, HealthUpdate, ends, advance_check,
  collect_writes, locked_health,
}
use my_learning_journey.Manager.Locking as Locking

module _ {Stored Quantity : Type 0} (rm : Manager Stored Quantity) (stored : Stored) where
  -- The critical sections of `Collect` that are done, the last one first.
  abbrev pub updates_done : List Cycle → List HealthUpdate
  updates_done [] = []
  updates_done (c ∷ log) =
      ends (ok_after rm stored (c ∷ log)) ∷ Locking.begins c.start_time ∷ updates_done log

  abbrev pub updates : List Cycle → Phase → List HealthUpdate
  updates log (collecting t) = Locking.begins t ∷ updates_done log
  updates log (crashed t) = Locking.begins t ∷ updates_done log
  updates log starting = updates_done log
  updates log waiting = updates_done log
  updates log stopped = updates_done log
  updates log no_ticker = updates_done log

  -- What those updates leave in the fields.
  after-done :
      (log : List Cycle)
      → after locked_health new_health (updates_done log) ≡ record {
        last_tick_start = last_start rm stored log waiting;
        last_ok = ok_after rm stored log;
      }
  unfolding locked_health
  after-done [] = refl
  after-done (c ∷ log) = refl

  after-updates :
      (log : List Cycle) (phase : Phase)
      → after locked_health new_health (updates log phase) ≡ record {
        last_tick_start = last_start rm stored log phase;
        last_ok = ok_after rm stored log;
      }
  unfolding locked_health
  after-updates log (collecting t) =
      ap (λ (h : Health). record h { last_tick_start = t }) (after-done log)
  after-updates log (crashed t) =
      ap (λ (h : Health). record h { last_tick_start = t }) (after-done log)
  after-updates [] starting = refl
  after-updates (c ∷ log) starting = refl
  after-updates log waiting = after-done log
  after-updates [] stopped = refl
  after-updates (c ∷ log) stopped = refl
  after-updates [] no_ticker = refl
  after-updates (c ∷ log) no_ticker = refl

  -- The manager was in a state in which just those updates were done.
  abbrev Was : List HealthUpdate → Type 0
  Was seen =
      (log : List Cycle) × (s : State Stored) × (phase : Phase) × Reach rm stored log s phase
      × (updates log phase ≡ seen)

  Reach-Was :
      (log : List Cycle) (s : State Stored) (phase : Phase)
      → Reach rm stored log s phase
      → (seen : List HealthUpdate) → Since seen (updates log phase)
      → Was seen
  Reach-Was _ s _ new seen (more, e) =
      ([], s, starting, new, sym (eq-nil_of_append_right more seen (sym e)))
  Reach-Was log s _ (bad_ticker h r) seen early = Reach-Was log s starting r seen early
  Reach-Was log t _ (first {s = s} now h r) seen early = elim (Since-cases _ _ seen early) [
    | inl e ↦ (log, t, collecting now, first now h r, e)
    | inr before ↦ Reach-Was log s starting r seen before
  ]
  Reach-Was log t _ (tick {s = s} start r) seen early = elim (Since-cases _ _ seen early) [
    | inl e ↦ (log, t, collecting start, tick start r, e)
    | inr before ↦ Reach-Was log s waiting r seen before
  ]
  Reach-Was log t _ (finished {log = older} {s = s} c r f) seen early =
      elim (Since-cases _ _ seen early) [
        | inl e ↦ (log, t, waiting, finished c r f, e)
        | inr before ↦ Reach-Was older s (collecting c.start_time) r seen before
      ]
  Reach-Was log s _ (crash c r f) seen early =
      Reach-Was log s (collecting c.start_time) r seen early
  Reach-Was log s _ (stop r) seen early = Reach-Was log s waiting r seen early

  -- A check that meets one state of the fields is before the first of them, or has read it.
  Reads-cursor :
      (h : Health) (c : HealthCursor)
      → Reads locked_health h tt c
      → (c ≡ at_tick) ⊎ (c ≡ at_ok h.last_tick_start)
  unfolding locked_health advance_check
  Reads-cursor h _ begins = inl refl
  Reads-cursor h d (continues {c = c} r f) = elim (Reads-cursor h c r) [
    | inl e ↦ let g = rw e at f in inr (cc)
    | inr e ↦ let g = rw e at f in cc
  ]

  Answers-check :
      (h : Health) (a : Time × Bool)
      → Answers locked_health h tt a
      → a ≡ (h.last_tick_start, h.last_ok)
  unfolding locked_health advance_check
  Answers-check h a (c, r, f) = elim (Reads-cursor h c r) [
    | inl e ↦ let g = rw e at f in cc
    | inr e ↦ let g = rw e at f in cc
  ]

  -- A health check answers as in one step, in a state that the manager was in when the check was
  -- called or has reached since, however their accesses of the fields interleave: where the updates
  -- that are done are those of the manager in the state that it has reached.
  pub check_health-Concurrent :
      (log : List Cycle) (s : State Stored) (phase : Phase)
      {l : Locked Health (Unit {0}) HealthCursor (Time × Bool) HealthUpdate}
      → Reach rm stored log s phase
      → Runs locked_health new_health l
      → l.log ≡ updates log phase
      → (before behind : List (Thread Health (Unit {0}) HealthCursor (Time × Bool) HealthUpdate))
        (since : List HealthUpdate) (last_tick : Time) (healthy_tick : Bool)
      → l.threads ≡ before ++ answered tt since (last_tick, healthy_tick) ∷ behind
      → (old : List Cycle) × (then_ : State Stored) × (at : Phase) × Reach rm stored old then_ at
        × Since since (updates old at)
        × Since (updates old at) (updates log phase)
        × ((now : Time) → health_of rm now last_tick healthy_tick ≡ check_health rm now then_)
  unfolding check_health IsAfter
  check_health-Concurrent log s phase r runs same before behind since last_tick healthy_tick e =
      let (seen, early, late, read) =
        Runs-answered locked_health new_health runs before behind tt since (last_tick, healthy_tick)
          e in
      let (old, then_, at, reached, is) = Reach-Was log s phase r seen (rw same at late) in
      let (_, good) = Reach-IsAfter rm stored old then_ at reached in
      let start = last_start-Reach rm stored old then_ at reached in
      let fields : Health = record {
        last_tick_start = then_.last_tick_start;
        last_ok = then_.last_ok;
      } in
      let unwound : after locked_health new_health seen ≡ fields =
        rw (← is, start, good) (after-updates old at) in
      let both = Answers-check fields (last_tick, healthy_tick) (rw unwound at read) in
      (
        old,
        then_,
        at,
        reached,
        rw is early,
        rw (is, ← same) late,
        λ now.
            ap₂ (health_of rm now) (ap (λ (a : Time × Bool). a.0) both)
              (ap (λ (a : Time × Bool). a.1) both),
      )
