-- ===== src/Sources/SourceManager/Gather.antt =====
-- What a run of `Collect` returns: the sources' points and errors, in some order.
use mathlib.Core.List.Perm
use mathlib.Core.List.{Perm, perm_append_comm, append-nil, append_assoc}
use my_learning_journey.Base.{
  ℕ, ◌≡◌, refl, sym, ap, ◌∙◌, Option, none, some, List, [], ◌∷◌, ◌++◌, All, map,
}
use my_learning_journey.Errors.{Error}
use my_learning_journey.Sources.{MetricsBatch, empty_batch, NodeMetricsPoint, PodMetricsPoint}
use my_learning_journey.Sources.SourceManager.{
  Outcome, Worker, scraping, sending_error, done, Main, awaiting_error, awaiting_response, returned,
  State, Step, send_response, send_error, receive_error, receive_response, return, start, add_error,
  add_batch, Reach, here, later,
}
use my_learning_journey.Sources.SourceManager.Progress.{returned-done}

-- All that the elements of a list hold, one after the other.
abbrev pub gather {ℓ κ} : {A : Type ℓ} {X : Type κ} → (A → List X) → List A → List X
gather f [] = []
gather f (x ∷ xs) = f x ++ gather f xs

gather-append {ℓ κ} :
    {A : Type ℓ} {X : Type κ} (f : A → List X) (xs ys : List A)
    → gather f (xs ++ ys) ≡ gather f xs ++ gather f ys
gather-append f [] ys = refl
gather-append f (x ∷ xs) ys =
    ap (λ l. f x ++ l) (gather-append f xs ys)
    ∙ sym (append_assoc (f x) (gather f xs) (gather f ys))

abbrev pub nodes_of :
    {Quantity : Type 0} → Option (MetricsBatch Quantity) → List (NodeMetricsPoint Quantity)
nodes_of none = []
nodes_of (some b) = b.nodes

abbrev pub pods_of :
    {Quantity : Type 0} → Option (MetricsBatch Quantity) → List (PodMetricsPoint Quantity)
pods_of none = []
pods_of (some b) = b.pods

abbrev pub error_list : Option Error → List Error
error_list none = []
error_list (some e) = e ∷ []

module _ {X : Type 0} where
  to_front :
      (before message behind : List X)
      → Perm (before ++ (message ++ behind)) (message ++ (before ++ behind))
  to_front before message behind =
      rw (← append_assoc before message behind, ← append_assoc message before behind)
        (Perm.append_right behind (perm_append_comm before message))

  -- A message moves from a worker to the end of a channel.
  to_channel :
      (acc waiting before message behind : List X)
      → Perm
          (acc ++ (waiting ++ (before ++ (message ++ behind))))
          (acc ++ ((waiting ++ message) ++ (before ++ behind)))
  to_channel acc waiting before message behind = Perm.append_left acc (
      rw (append_assoc waiting message (before ++ behind))
        (Perm.append_left waiting (to_front before message behind)))

module _ {Quantity X : Type 0} (f : Option (MetricsBatch Quantity) → List X)
    (acc : MetricsBatch Quantity → List X)
    (add : (res : MetricsBatch Quantity) (b : Option (MetricsBatch Quantity))
      → acc (add_batch res b) ≡ acc res ++ f b) where
  held : Worker Quantity → List X
  held (scraping o) = f o.metrics
  held (sending_error o) = []
  held done = []

  -- All that was gathered, or is on its way.
  collected : State Quantity → List X
  collected s = acc s.res ++ (gather f s.responses ++ gather held s.workers)

  Step-collected :
      {total : ℕ} {s t : State Quantity} → Step total s t → Perm (collected s) (collected t)
  unfolding collected held
  Step-collected {s} (send_response before behind o e room) =
      rw (e, gather-append, gather-append, gather-append, append-nil)
        (to_channel (acc s.res) (gather f s.responses) (gather held before) (f o.metrics)
          (gather held behind))
  Step-collected {s} (send_error before behind o e room) =
      rw (e, gather-append, gather-append) (Perm.refl _)
  Step-collected {s} (receive_error n x rest e p) = Perm.refl _
  Step-collected {s} (receive_response n x y rest e p) =
      let pending = gather held s.workers in
      rw
        (
          p,
          add s.res y,
          append_assoc (acc s.res) (f y) (gather f rest ++ pending),
          append_assoc (f y) (gather f rest) pending,
        )
        (Perm.refl _)
  Step-collected {s} (return e) = Perm.refl _

  held-start :
      (outcomes : List (Outcome Quantity))
      → gather held (map scraping outcomes) ≡ gather (λ o. f o.metrics) outcomes
  unfolding held
  held-start [] = refl
  held-start (o ∷ outcomes) = ap (λ l. f o.metrics ++ l) (held-start outcomes)

  held-done : (ws : List (Worker Quantity)) → All (λ w. w ≡ done) ws → gather held ws ≡ []
  unfolding held
  held-done [] h = refl
  held-done (w ∷ ws) h = rw (h.0, held) (held-done ws h.1)

  Reach-collected :
      {errs : List Error} {outcomes : List (Outcome Quantity)} {k : ℕ} {s : State Quantity}
      → acc empty_batch ≡ []
      → Reach errs outcomes k s
      → Perm (gather (λ o. f o.metrics) outcomes) (collected s)
  unfolding start collected
  Reach-collected {outcomes} none_yet here = rw (none_yet, held-start outcomes) (Perm.refl _)
  Reach-collected none_yet (later r step) =
      Perm.trans (Reach-collected none_yet r) (Step-collected step)

  -- What a run that has returned has gathered.
  returned-collected :
      {errs : List Error} {outcomes : List (Outcome Quantity)} {k : ℕ} {s : State Quantity}
      → acc empty_batch ≡ []
      → Reach errs outcomes k s
      → s.main ≡ returned
      → Perm (acc s.res) (gather (λ o. f o.metrics) outcomes)
  unfolding collected
  returned-collected {outcomes} {s} none_yet r h =
      let (all, responses, _) = returned-done r h in
      let p = Reach-collected none_yet r in
      Perm.symm (rw (responses, held-done s.workers all, append-nil) at p)

-- The error that the loop holds while it waits for a batch.
holding : Main → List Error
holding (awaiting_error n) = []
holding (awaiting_response n e) = error_list e
holding returned = []

add_error-append : (errs : List Error) (e : Option Error) → add_error errs e ≡ errs ++ error_list e
add_error-append errs none = sym (append-nil errs)
add_error-append errs (some e) = refl

module _ {Quantity : Type 0} where
  held_error : Worker Quantity → List Error
  held_error (scraping o) = error_list o.error
  held_error (sending_error o) = error_list o.error
  held_error done = []

  collected_errors : State Quantity → List Error
  collected_errors s =
      s.errs ++ (holding s.main ++ (gather error_list s.errors ++ gather held_error s.workers))

  Step-collected_errors :
      {total : ℕ} {s t : State Quantity}
      → Step total s t
      → Perm (collected_errors s) (collected_errors t)
  unfolding collected_errors held_error holding
  Step-collected_errors {s} (send_response before behind o e room) =
      rw (e, gather-append, gather-append) (Perm.refl _)
  Step-collected_errors {s} (send_error before behind o e room) =
      rw (e, gather-append, gather-append, gather-append, append-nil)
        (Perm.append_left s.errs (
          to_channel (holding s.main) (gather error_list s.errors) (gather held_error before)
            (error_list o.error) (gather held_error behind)))
  Step-collected_errors {s} (receive_error n x rest e p) =
      let pending = gather held_error s.workers in
      rw (e, p, append_assoc (error_list x) (gather error_list rest) pending) (Perm.refl _)
  Step-collected_errors {s} (receive_response n x y rest e p) =
      let pending = gather error_list s.errors ++ gather held_error s.workers in
      rw (e, add_error-append s.errs x, append_assoc s.errs (error_list x) pending) (Perm.refl _)
  Step-collected_errors {s} (return e) = rw e (Perm.refl _)

  held_error-start :
      (outcomes : List (Outcome Quantity))
      → gather held_error (map scraping outcomes) ≡ gather (λ o. error_list o.error) outcomes
  unfolding held_error
  held_error-start [] = refl
  held_error-start (o ∷ outcomes) = ap (λ l. error_list o.error ++ l) (held_error-start outcomes)

  held_error-done :
      (ws : List (Worker Quantity)) → All (λ w. w ≡ done) ws → gather held_error ws ≡ []
  unfolding held_error
  held_error-done [] h = refl
  held_error-done (w ∷ ws) h = rw (h.0, held_error) (held_error-done ws h.1)

  Reach-collected_errors :
      {errs : List Error} {outcomes : List (Outcome Quantity)} {k : ℕ} {s : State Quantity}
      → Reach errs outcomes k s
      → Perm (errs ++ gather (λ o. error_list o.error) outcomes) (collected_errors s)
  unfolding start collected_errors holding
  Reach-collected_errors {errs} {outcomes} here = rw (held_error-start outcomes) (Perm.refl _)
  Reach-collected_errors (later r step) =
      Perm.trans (Reach-collected_errors r) (Step-collected_errors step)

  returned-errors :
      {errs : List Error} {outcomes : List (Outcome Quantity)} {k : ℕ} {s : State Quantity}
      → Reach errs outcomes k s
      → s.main ≡ returned
      → Perm s.errs (errs ++ gather (λ o. error_list o.error) outcomes)
  unfolding collected_errors holding
  returned-errors {errs} {outcomes} {s} r h =
      let (all, _, errors) = returned-done r h in
      let p = Reach-collected_errors r in
      Perm.symm (rw (h, errors, held_error-done s.workers all, append-nil) at p)

  -- In whatever order the goroutines make progress, a run that has returned has in its batch each
  -- node and pod point that the sources answered, as often as they did, partial results beside an
  -- error included; and its errors are the provider's and those of the sources, each once.
  pub collect_gathers :
      {errs : List Error} {outcomes : List (Outcome Quantity)} {k : ℕ} {s : State Quantity}
      → Reach errs outcomes k s
      → s.main ≡ returned
      → Perm s.res.nodes (gather (λ o. nodes_of o.metrics) outcomes)
        × Perm s.res.pods (gather (λ o. pods_of o.metrics) outcomes)
        × Perm s.errs (errs ++ gather (λ o. error_list o.error) outcomes)
  collect_gathers r h = (
    returned-collected nodes_of (λ b. b.nodes) add_nodes refl r h,
    returned-collected pods_of (λ b. b.pods) add_pods refl r h,
    returned-errors r h,
  )
    where
      add_nodes :
          (res : MetricsBatch Quantity) (b : Option (MetricsBatch Quantity))
          → (add_batch res b).nodes ≡ res.nodes ++ nodes_of b
      add_nodes res none = sym (append-nil res.nodes)
      add_nodes res (some b) = refl

      add_pods :
          (res : MetricsBatch Quantity) (b : Option (MetricsBatch Quantity))
          → (add_batch res b).pods ≡ res.pods ++ pods_of b
      add_pods res none = sym (append-nil res.pods)
      add_pods res (some b) = refl
