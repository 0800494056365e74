-- ===== src/Sources/SourceManager/Counts.antt =====
-- sourceManager.Collect: the sends and the rounds that are left in a state of a run.
use my_learning_journey.Base.{
  ℕ, suc, ◌+◌, ◌*◌, ◌≤◌, ◌≡◌, refl, ap, ◌↔◌, List, [], ◌∷◌, ◌++◌, arith, length, length-append, map,
  sum_of,
}
use mathlib.Core.Path.{subst}
use my_learning_journey.Errors.{Error}
use my_learning_journey.Sources.SourceManager.{
  Outcome, Worker, scraping, sending_error, done, Main, awaiting_error, awaiting_response, returned,
  State, Step, send_response, send_error, receive_error, receive_response, return, start, Reach,
  here, later,
}

-- The sends that a goroutine has before it, on each of the channels.
abbrev pub responses_left : {Quantity : Type 0} → Worker Quantity → ℕ
responses_left (scraping _) = 1
responses_left _ = 0

abbrev pub errors_left : {Quantity : Type 0} → Worker Quantity → ℕ
errors_left done = 0
errors_left _ = 1

-- The messages that the loop has still to receive.
abbrev pub errors_due : Main → ℕ
errors_due (awaiting_error n) = n
errors_due (awaiting_response n _) = n
errors_due returned = 0

abbrev pub responses_due : Main → ℕ
responses_due (awaiting_error n) = n
responses_due (awaiting_response n _) = suc n
responses_due returned = 0

abbrev loop_steps : Main → ℕ
loop_steps (awaiting_error n) = 2 * n + 1
loop_steps (awaiting_response n _) = 2 * n + 2
loop_steps returned = 0

module _ {Quantity : Type 0} where
  -- The sends and the receives balance, and the rounds left are as many as the sources at most.
  pub record IsBalanced (total : ℕ) (s : State Quantity) : Type 0 where
    pub workers : length s.workers ≡ total
    pub responses : sum_of responses_left s.workers + length s.responses ≡ responses_due s.main
    pub errors : sum_of errors_left s.workers + length s.errors ≡ errors_due s.main
    pub rounds : responses_due s.main ≤ total

  -- The steps that are left until the run returns.
  pub steps_left : State Quantity → ℕ
  steps_left s = sum_of responses_left s.workers + sum_of errors_left s.workers + loop_steps s.main

  -- Replacing one worker of a list: lengths and sums.
  record Replaced (before behind : List (Worker Quantity)) (w w' : Worker Quantity) : Type 0 where
    same_length : length (before ++ w' ∷ behind) ≡ length (before ++ w ∷ behind)
    responses :
        sum_of responses_left (before ++ w' ∷ behind) + responses_left w
        ≡ sum_of responses_left (before ++ w ∷ behind) + responses_left w'
    errors :
        sum_of errors_left (before ++ w' ∷ behind) + errors_left w
        ≡ sum_of errors_left (before ++ w ∷ behind) + errors_left w'

  replaced :
      (before behind : List (Worker Quantity)) (w w' : Worker Quantity)
      → Replaced before behind w w'
  replaced [] behind w w' = record {
    same_length = refl;
    responses = omega arith;
    errors = omega arith;
  }
  replaced (x ∷ before) behind w w' =
      let r = replaced before behind w w' in
      record {
        same_length = omega (arith, r.same_length);
        responses = omega (arith, r.responses);
        errors = omega (arith, r.errors);
      }

  Step-IsBalanced :
      {total : ℕ} {s t : State Quantity}
      → Step total s t
      → IsBalanced total s
      → IsBalanced total t × (suc (steps_left t) ≡ steps_left s)
  unfolding steps_left
  Step-IsBalanced {total} {s} (send_response before behind o e room) b =
      let r = replaced before behind (scraping o) (sending_error o) in
      let grown = length-append s.responses (o.metrics ∷ []) in
      let b' = subst (λ ws. IsBalanced total (record s { workers = ws })) e b in
      (
        record {
          workers = omega (arith, r.same_length, b'.workers);
          responses = omega (arith, r.responses, b'.responses, grown);
          errors = omega (arith, r.errors, b'.errors);
          rounds = b.rounds;
        },
        rw e (omega (arith, r.responses, r.errors)),
      )
  Step-IsBalanced {total} {s} (send_error before behind o e room) b =
      let r = replaced before behind (sending_error o) done in
      let grown = length-append s.errors (o.error ∷ []) in
      let b' = subst (λ ws. IsBalanced total (record s { workers = ws })) e b in
      (
        record {
          workers = omega (arith, r.same_length, b'.workers);
          responses = omega (arith, r.responses, b'.responses);
          errors = omega (arith, r.errors, b'.errors, grown);
          rounds = b.rounds;
        },
        rw e (omega (arith, r.responses, r.errors)),
      )
  Step-IsBalanced {total} {s} (receive_error n x rest e f) b = ground arith
  Step-IsBalanced {total} {s} (receive_response n x y rest e f) b = ground arith
  Step-IsBalanced {total} {s} (return e) b = ground arith

  start-counts :
      (outcomes : List (Outcome Quantity))
      → let workers = map {B = Worker Quantity} scraping outcomes in
        (length workers ≡ length outcomes)
        × (sum_of responses_left workers ≡ length outcomes)
        × (sum_of errors_left workers ≡ length outcomes)
  start-counts [] = (refl, refl, refl)
  start-counts (o ∷ os) = let (l, r, e) = start-counts os in (ap suc l, omega arith, omega arith)

  start-IsBalanced :
      (errs : List Error) (outcomes : List (Outcome Quantity))
      → IsBalanced (length outcomes) (start errs outcomes)
        × (steps_left (start errs outcomes) ≡ 4 * length outcomes + 1)
  unfolding start steps_left
  start-IsBalanced errs outcomes =
      let (l, r, e) = start-counts outcomes in
      (
        record { workers = l; responses = omega arith; errors = omega arith; rounds = omega arith },
        omega arith,
      )

  pub Reach-IsBalanced :
      {errs : List Error} {outcomes : List (Outcome Quantity)} {k : ℕ} {s : State Quantity}
      → Reach errs outcomes k s
      → IsBalanced (length outcomes) s × (k + steps_left s ≡ 4 * length outcomes + 1)
  Reach-IsBalanced {errs} {outcomes} here =
      let (b, e) = start-IsBalanced errs outcomes in (b, omega arith)
  Reach-IsBalanced (later r step) =
      let (b, e) = Reach-IsBalanced r in let (b', e') = Step-IsBalanced step b in (b', omega arith)

  -- Every run takes the same number of steps: a run of n sources has returned after 4 n + 1 of
  -- them, and it has not returned after fewer.
  pub Reach-length :
      {errs : List Error} {outcomes : List (Outcome Quantity)} {k : ℕ} {s : State Quantity}
      → Reach errs outcomes k s
      → (k ≤ 4 * length outcomes + 1) × ((s.main ≡ returned) ↔ (k ≡ 4 * length outcomes + 1))
  unfolding steps_left
  Reach-length {s} r =
      let (b, e) = Reach-IsBalanced r in (omega arith, ((λ h. ground arith), (λ h. ground arith)))
