-- ===== src/Tests/SourceManager.antt =====
-- Runs of the source manager: one source that answers in part, beside an error of the provider.
use mathlib.Core.List.{Perm}
use my_learning_journey.Base.{
  ◌+◌, ◌*◌, ◌<◌, ◌≤◌, ◌-◌, ◌≡◌, ◌↔◌, ◌⊎◌, refl, none, some, List, [], ◌∷◌, ◌++◌, length, All, arith,
}
use my_learning_journey.Base.Int.{pos}
use my_learning_journey.Golang.{Context, background, second}
use my_learning_journey.Errors.{Error}
use my_learning_journey.Sources.SourceManager.{
  Outcome, sending_error, done, State, awaiting_error, awaiting_response, returned, Step,
  send_response, send_error, receive_error, receive_response, return, start, Reach, here, later,
  delay_ms,
}
use my_learning_journey.Sources.SourceManager.Gather.{
  gather, nodes_of, pods_of, error_list, collect_gathers,
}
use my_learning_journey.Sources.SourceManager.Progress.{no_deadlock}
use my_learning_journey.Sources.{MetricSource}
use my_learning_journey.Sources.SourceManager.{goroutine, scrape_with_metrics, result}
use my_learning_journey.Sources.SourceManager.Collects.{
  SourceManager, Start, new_source_manager, outcomes_from, Collects, collects,
}
use my_learning_journey.Sources.SourceManager.Answers.{
  ReturnsIn, run_returns, answers, Collects-answers,
}
use my_learning_journey.Tests.{
  packages, packages-IsAggregate, node_point, pod_point, Amount, batch_of, at,
}

abbrev pub missing : Error
missing = Error.foreign "no address"

abbrev outcome : Outcome Amount
outcome = record { metrics = some (batch_of "n1"); error = some (Error.foreign "partial") }

abbrev outcomes : List (Outcome Amount)
outcomes = outcome ∷ []

abbrev s1 : State Amount
s1 = record (start (missing ∷ []) outcomes) {
  workers = sending_error outcome ∷ [];
  responses = outcome.metrics ∷ [];
}

abbrev s2 : State Amount
s2 = record s1 { workers = done ∷ []; errors = outcome.error ∷ [] }

abbrev s3 : State Amount
s3 = record s2 { main = awaiting_response 0 outcome.error; errors = [] }

abbrev s4 : State Amount
s4 = record s3 {
  main = awaiting_error 0;
  responses = [];
  res = batch_of "n1";
  errs = missing ∷ Error.foreign "partial" ∷ [];
}

abbrev s5 : State Amount
s5 = record s4 { main = returned }

run1 : Reach (missing ∷ []) outcomes 1 s1
unfolding start
run1 = later here (send_response [] [] outcome refl (omega arith))

run3 : Reach (missing ∷ []) outcomes 3 s3
unfolding start
run3 =
    later (later run1 (send_error [] [] outcome refl (omega arith)))
      (receive_error 0 outcome.error [] refl refl)

run5 : Reach (missing ∷ []) outcomes 5 s5
unfolding start
run5 =
    later (later run3 (receive_response 0 outcome.error outcome.metrics [] refl refl)) (return refl)

collect_gathers_example :
    Perm s5.res.nodes (gather (λ o. nodes_of o.metrics) outcomes)
    × Perm s5.res.pods (gather (λ o. pods_of o.metrics) outcomes)
    × Perm s5.errs ((missing ∷ []) ++ gather (λ o. error_list o.error) outcomes)
collect_gathers_example = collect_gathers run5 refl

no_deadlock_example : (s3.main ≡ returned) ⊎ ((t : State Amount) × Step (length outcomes) s3 t)
no_deadlock_example = no_deadlock run3

run_returns_example :
    (3 ≤ 4 * length outcomes + 1) × ReturnsIn (length outcomes) (4 * length outcomes + 1 - 3) s3
run_returns_example = run_returns run3

abbrev source : MetricSource Amount
source = record {
  name = "s";
  collect =
      λ ctx now. record { batch = some (batch_of "n1"); error = none; finished = now; events = [] };
}

abbrev pub manager : SourceManager Amount
manager =
    new_source_manager (record { get_metric_sources = (source ∷ [], some missing) })
      (pos (54 * second))

abbrev starts : List Start
starts = record { now = at 1; draw = 5 } ∷ []

abbrev answered : State Amount
answered = record s5 { res = batch_of "n1"; errs = missing ∷ [] }

abbrev good : Outcome Amount
good = record { metrics = some (batch_of "n1"); error = none }

run_good : Reach (missing ∷ []) (good ∷ []) 5 answered
unfolding start
run_good =
    later
      (later
        (later
          (later (later here (send_response [] [] good refl (omega arith)))
            (send_error [] [] good refl (omega arith)))
          (receive_error 0 none [] refl refl))
        (receive_response 0 none good.metrics [] refl refl))
      (return refl)

pub Collects-manager : (ctx : Context) → Collects packages manager ctx (batch_of "n1", some missing)
unfolding outcomes_from goroutine scrape_with_metrics delay_ms result
Collects-manager ctx = collects starts refl (omega arith, tt) run_good refl

Collects-answers_example :
    (starts : List Start) × (length starts ≡ 1)
    × All (λ s. s.draw < delay_ms 1) starts
    × Perm
        (node_point "n1" ∷ [])
        (gather (λ o. nodes_of o.metrics) (answers packages manager background starts))
    × Perm
        (pod_point "p" ∷ [])
        (gather (λ o. pods_of o.metrics) (answers packages manager background starts))
    × ((some missing ≡ none) ↔ (
        (some missing ≡ none)
        × All (λ o. o.error ≡ none) (answers packages manager background starts)))
Collects-answers_example =
    Collects-answers packages manager background packages-IsAggregate (batch_of "n1", some missing)
      (Collects-manager background)
