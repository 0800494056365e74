-- ===== src/Sources/SourceManager/Progress.antt =====
-- sourceManager.Collect: whether sends wait, and whether the loop gets on.
use my_learning_journey.Base.{
  ℕ, zero, suc, ◌<◌, ◌≤◌, ◌≡◌, refl, ap, ◌⊎◌, inl, inr, List, [], ◌∷◌, ◌++◌, arith, length, All,
  eq-nil_of_length, sum_of, sum_of-append,
}
use my_learning_journey.Errors.{Error}
use my_learning_journey.Sources.SourceManager.{
  Outcome, Worker, scraping, sending_error, done, Main, awaiting_error, awaiting_response, returned,
  State, Step, send_response, send_error, receive_error, receive_response, return, Reach,
}
use my_learning_journey.Sources.SourceManager.Counts.{
  responses_left, errors_left, errors_due, responses_due, IsBalanced, Reach-IsBalanced,
}

errors_due-le : (m : Main) → errors_due m ≤ responses_due m
errors_due-le (awaiting_error n) = omega arith
errors_due-le (awaiting_response n e) = omega arith
errors_due-le returned = omega arith

module _ {Quantity : Type 0} where
  -- A worker that has a message left stands somewhere in the list.
  find_response :
      (ws : List (Worker Quantity))
      → 0 < sum_of responses_left ws
      → (before behind : List (Worker Quantity)) × (o : Outcome Quantity) × (ws
          ≡ before ++ scraping o ∷ behind)
  find_response [] h = absurd (omega arith)
  find_response (scraping o ∷ ws) h = ([], ws, o, refl)
  find_response (sending_error o ∷ ws) h =
      let (before, behind, o', e) = find_response ws (omega arith) in
      (sending_error o ∷ before, behind, o', ap (◌∷◌ (sending_error o)) e)
  find_response (done ∷ ws) h =
      let (before, behind, o', e) = find_response ws (omega arith) in
      (done ∷ before, behind, o', ap (◌∷◌ done) e)

  find_error :
      (ws : List (Worker Quantity))
      → 0 < sum_of errors_left ws
      → (before behind : List (Worker Quantity)) × (o : Outcome Quantity) × ((ws
            ≡ before ++ scraping o ∷ behind)
          ⊎ (ws ≡ before ++ sending_error o ∷ behind))
  find_error [] h = absurd (omega arith)
  find_error (scraping o ∷ ws) h = ([], ws, o, inl refl)
  find_error (sending_error o ∷ ws) h = ([], ws, o, inr refl)
  find_error (done ∷ ws) h =
      let (before, behind, o, e) = find_error ws (omega arith) in
      (
        done ∷ before,
        behind,
        o,
        elim e [ inl p ↦ inl (ap (◌∷◌ done) p) | inr p ↦ inr (ap (◌∷◌ done) p) ],
      )

  module _ {total : ℕ} {s : State Quantity} (b : IsBalanced total s) where
    room_for_response :
        (before behind : List (Worker Quantity)) (o : Outcome Quantity)
        → s.workers ≡ before ++ scraping o ∷ behind
        → length s.responses < total
    room_for_response before behind o e = omega (
      arith,
      b.responses,
      b.rounds,
      ap (sum_of responses_left) e,
      sum_of-append responses_left before (scraping o ∷ behind),
    )

    room_for_error :
        (before behind : List (Worker Quantity)) (o : Outcome Quantity)
        → s.workers ≡ before ++ sending_error o ∷ behind
        → length s.errors < total
    room_for_error before behind o e = omega (
      arith,
      b.errors,
      b.rounds,
      errors_due-le s.main,
      ap (sum_of errors_left) e,
      sum_of-append errors_left before (sending_error o ∷ behind),
    )

    send_for_error : 0 < sum_of errors_left s.workers → (t : State Quantity) × Step total s t
    send_for_error h =
        let (before, behind, o, e) = find_error s.workers h in
        elim e [
          | inl p ↦ (_, send_response before behind o p (room_for_response before behind o p))
          | inr p ↦ (_, send_error before behind o p (room_for_error before behind o p))
        ]

    send_for_response : 0 < sum_of responses_left s.workers → (t : State Quantity) × Step total s t
    send_for_response h =
        let (before, behind, o, e) = find_response s.workers h in
        (_, send_response before behind o e (room_for_response before behind o e))

    progress :
        (m : Main) (responses : List _) (errors : List _)
        → s.main ≡ m
        → s.responses ≡ responses
        → s.errors ≡ errors
        → (s.main ≡ returned) ⊎ ((t : State Quantity) × Step total s t)
    progress (awaiting_error zero) rs es p q r = inr (_, return p)
    progress (awaiting_error (suc n)) rs (e ∷ es) p q r = inr (_, receive_error n e es p r)
    progress (awaiting_error (suc n)) rs [] p q r =
        inr (send_for_error (omega (arith, b.errors, ap errors_due p, ap length r)))
    progress (awaiting_response n e) (x ∷ rs) es p q r = inr (_, receive_response n e x rs p q)
    progress (awaiting_response n e) [] es p q r =
        inr (send_for_response (omega (arith, b.responses, ap responses_due p, ap length q)))
    progress returned rs es p q r = inl p

  -- No send ever waits: a goroutine that is to send finds room in the channel's buffer.
  pub sends_never_wait :
      {errs : List Error} {outcomes : List (Outcome Quantity)} {k : ℕ} {s : State Quantity}
      → Reach errs outcomes k s
      → (before behind : List (Worker Quantity)) (o : Outcome Quantity)
      → (s.workers ≡ before ++ scraping o ∷ behind → length s.responses < length outcomes)
        × (s.workers ≡ before ++ sending_error o ∷ behind → length s.errors < length outcomes)
  sends_never_wait r before behind o =
      let (b, _) = Reach-IsBalanced r in
      (room_for_response b before behind o, room_for_error b before behind o)

  -- No deadlock: a run that has not returned has a next step.
  pub no_deadlock :
      {errs : List Error} {outcomes : List (Outcome Quantity)} {k : ℕ} {s : State Quantity}
      → Reach errs outcomes k s
      → (s.main ≡ returned) ⊎ ((t : State Quantity) × Step (length outcomes) s t)
  no_deadlock {s} r = progress (Reach-IsBalanced r).0 s.main s.responses s.errors refl refl refl

  All-done : (ws : List (Worker Quantity)) → sum_of errors_left ws ≡ 0 → All (λ w. w ≡ done) ws
  All-done [] h = tt
  All-done (scraping o ∷ ws) h = absurd (omega arith)
  All-done (sending_error o ∷ ws) h = absurd (omega arith)
  All-done (done ∷ ws) h = (refl, All-done ws (omega arith))

  -- When the loop has returned every goroutine has made both of its sends and the channels are
  -- empty, so closing them is safe.
  pub returned-done :
      {errs : List Error} {outcomes : List (Outcome Quantity)} {k : ℕ} {s : State Quantity}
      → Reach errs outcomes k s
      → s.main ≡ returned
      → All (λ w. w ≡ done) s.workers × (s.responses ≡ []) × (s.errors ≡ [])
  returned-done {s} r h =
      let (b, _) = Reach-IsBalanced r in
      (
        All-done s.workers (omega (arith, b.errors, ap errors_due h)),
        eq-nil_of_length s.responses (omega (arith, b.responses, ap responses_due h)),
        eq-nil_of_length s.errors (omega (arith, b.errors, ap errors_due h)),
      )
