-- ===== src/Manager/HealthCheck.antt =====
-- Manager.CheckHealth, in the states that RunUntil reaches.
use my_learning_journey.Base.{
  some_injective, Bool, true, false, Option, none, some, Option-cases, List, [], ◌∷◌, ◌≡◌, ◌≢◌, ◌↔◌,
  ◌⊎◌, inl, inr, refl, ◌∙◌, arith, if◌then◌else◌,
}
use my_learning_journey.Base.Int.{ℤ, ◌≤ℤ◌, ltb_ℤ}
use my_learning_journey.Golang.{Time, zero_time, sub}
use my_learning_journey.Float.{max_tick_wait_of}
use my_learning_journey.Errors.{Error}
use my_learning_journey.Sources.{MetricsBatch}
use my_learning_journey.Manager.{
  Manager, State, healthy_tick, begin, check_health, Phase, starting, no_ticker, collecting,
  waiting, stopped, crashed, Cycle, Reach, new, bad_ticker, first, tick, finished, crash, stop,
}
use my_learning_journey.Manager.Cycles.{
  answer, stored_after, ok_after, IsAfter, Reach-IsAfter, finish-last_tick_start,
}

nonempty_iff :
    {A : Type 0} (xs : List A)
    → ((elim xs as (λ _. Bool) [ [] ↦ false | y ∷ ys ↦ true ]) ≡ true) ↔ (xs ≢ [])
nonempty_iff [] = ((λ z. cc), (λ z. absurd (z refl)))
nonempty_iff (x ∷ xs) = ((λ _ z. cc), (λ _. refl))

healthy_tick_iff :
    {Quantity : Type 0} (collect_err : Option Error) (batch : MetricsBatch Quantity)
    (recv_err : Option Error)
    → (healthy_tick collect_err batch recv_err ≡ true)
      ↔ ((recv_err ≡ none) × ((collect_err ≡ none) ⊎ (batch.nodes ≢ [])))
unfolding healthy_tick
healthy_tick_iff none batch none = ((λ _. (refl, inl refl)), (λ _. refl))
healthy_tick_iff e batch (some r) = ((λ z. cc), (λ z. let (y, _) = z in cc))
healthy_tick_iff (some e) batch none = (
  (λ z. (refl, inr ((nonempty_iff batch.nodes).0 z))),
  (λ z. elim z.1 [ inl h ↦ cc | inr h ↦ (nonempty_iff batch.nodes).1 h ]),
)

tests_iff :
    {A : Type 0} (longest wait : ℤ) (good : Bool) (e f : A)
    → ((if ltb_ℤ longest wait then some e else if good then none else some f) ≡ none)
      ↔ ((wait ≤ℤ longest) × (good ≡ true))
tests_iff longest wait good e f = ground arith

check_health_iff :
    {Stored Quantity : Type 0} (rm : Manager Stored Quantity) (now : Time) (s : State Stored)
    → (check_health rm now s ≡ none)
      ↔ ((sub now s.last_tick_start ≤ℤ max_tick_wait_of rm.resolution) × (s.last_ok ≡ true))
unfolding check_health
check_health_iff rm now s =
    let longest = max_tick_wait_of rm.resolution in
    let wait = sub now s.last_tick_start in
    tests_iff longest wait s.last_ok (Error.stale_tick wait longest) Error.unhealthy_tick

module _ {Stored Quantity : Type 0} (rm : Manager Stored Quantity) (stored : Stored) where
  -- When the last cycle began, finished or not.
  abbrev pub last_start : List Cycle → Phase → Time
  last_start log (collecting t) = t
  last_start log (crashed t) = t
  last_start [] phase = zero_time
  last_start (c ∷ log) phase = c.start_time

  -- The last finished cycle stored a batch without an error, and it has nodes unless there was no
  -- error in collecting it.
  abbrev pub LastGood : List Cycle → Type 0
  LastGood [] = ⊥
  LastGood (c ∷ log) =
      (batch : MetricsBatch Quantity) × ((answer rm stored c).batch ≡ some batch)
      × ((rm.sink.receive (stored_after rm stored log) batch).1 ≡ none)
      × (((answer rm stored c).error ≡ none) ⊎ (batch.nodes ≢ []))

  ok_after_iff : (log : List Cycle) → (ok_after rm stored log ≡ true) ↔ LastGood log
  ok_after_iff [] = ((λ z. cc), (λ z. absurd z))
  ok_after_iff (c ∷ log) = elim (Option-cases (answer rm stored c).batch) [
    | inl g ↦ rw (g, ok_after) ((λ z. cc), (λ z. let (_, h, _, _) = z in cc))
    | inr (batch, g) ↦
        rw (g, ok_after)
          (let r = (rm.sink.receive (stored_after rm stored log) batch).1 in
            let (there, back) = healthy_tick_iff (answer rm stored c).error batch r in
            (
              (λ z. let (y, w) = there z in (batch, refl, y, w)),
              (λ z. let (b, h, y, w) = z in back (rw (some_injective h) (y, w))),
            ))
  ]

  last_start-stopped : (log : List Cycle) → last_start log waiting ≡ last_start log stopped
  last_start-stopped [] = refl
  last_start-stopped (c ∷ log) = refl

  last_start-no_ticker : (log : List Cycle) → last_start log starting ≡ last_start log no_ticker
  last_start-no_ticker [] = refl
  last_start-no_ticker (c ∷ log) = refl

  pub last_start-Reach :
      (log : List Cycle) (s : State Stored) (phase : Phase)
      → Reach rm stored log s phase
      → s.last_tick_start ≡ last_start log phase
  unfolding begin
  last_start-Reach _ _ _ new = refl
  last_start-Reach log s _ (bad_ticker h r) =
      last_start-Reach log s starting r ∙ last_start-no_ticker log
  last_start-Reach log _ _ (first {s = s} now h r) = refl
  last_start-Reach log _ _ (tick {s = s} t r) = refl
  last_start-Reach _ t _ (finished {log = log} {s = s} c r e) =
      finish-last_tick_start rm stored s t c e ∙ last_start-Reach log s (collecting c.start_time) r
  last_start-Reach log s _ (crash c r e) = last_start-Reach log s (collecting c.start_time) r
  last_start-Reach log s _ (stop r) = last_start-Reach log s waiting r ∙ last_start-stopped log

  -- In any state that the manager reaches with the finished cycles `log` the health check at the
  -- time `now` passes exactly where the last cycle, finished or not, began no longer ago than the
  -- wait that the resolution allows, and the last finished cycle stored its batch without an error,
  -- and with a node unless there was no error in collecting it. So it never passes before the first
  -- cycle is finished.
  pub check_health-Reach :
      (log : List Cycle) (s : State Stored) (phase : Phase) (now : Time)
      → Reach rm stored log s phase
      → (check_health rm now s ≡ none)
        ↔ ((sub now (last_start log phase) ≤ℤ max_tick_wait_of rm.resolution) × LastGood log)
  unfolding IsAfter
  check_health-Reach log s phase now r =
      let (_, good) = Reach-IsAfter rm stored log s phase r in
      let (there, back) = check_health_iff rm now s in
      let (ok_there, ok_back) = ok_after_iff log in
      let start = last_start-Reach log s phase r in
      (
        (λ z. let (near, y) = there z in (rw (← start) near, ok_there (rw (← good) y))),
        (λ z. let (near, y) = z in back (rw start near, rw good (ok_back y))),
      )
