-- ===== src/Sources/SourceManager.antt =====
-- pkg/sources/manager.go: one goroutine for each source, and the loop that gathers their answers
-- from two buffered channels. A step of a run is one send, one receive, or the return.
pub mod Delays
pub mod Counts
pub mod Progress
pub mod Gather
pub mod Collects
pub mod Answers
pub mod Durations
use mathlib.Core.Option
use my_learning_journey.Base.{
  ℕ, zero, suc, ◌+◌, ◌*◌, ◌<◌, ◌≡◌, String, Option, none, some, List, [], ◌∷◌, ◌++◌, length, ltb,
  if◌then◌else◌, map,
}
use my_learning_journey.Base.Int.{pos, ◌+ℤ◌, ◌-ℤ◌}
use my_learning_journey.Golang.{Time, Duration, Context, millisecond, sub, with_timeout}
use my_learning_journey.Errors.{Error}
use my_learning_journey.Sources.{
  MetricsBatch, empty_batch, Event, Collected, MetricSource, Packages, MetricSourceProvider,
}

abbrev pub max_delay_ms : ℕ
max_delay_ms = 4 * 1000

abbrev pub delay_per_source_ms : ℕ
delay_per_source_ms = 8

-- `delayMs`, for so many sources.
unfoldable pub delay_ms : ℕ → ℕ
delay_ms sources =
    let delay = delay_per_source_ms * sources in
    if ltb max_delay_ms delay then max_delay_ms else delay

-- What a goroutine sends on the two channels.
pub record Outcome (Quantity : Type 0) : Type 0 where
  pub metrics : Option (MetricsBatch Quantity)
  pub error : Option Error

-- The deadline that a goroutine gives its source, after sleeping for `sleep`.
unfoldable pub scrape_context : Context → Duration → Time → Duration → Context
scrape_context base_ctx scrape_timeout now sleep =
    with_timeout base_ctx (now +ℤ sleep) (scrape_timeout -ℤ sleep)

-- A goroutine before its first send, between the sends, and after them.
pub data Worker (Quantity : Type 0) : Type 0 where
  scraping : Outcome Quantity → Worker Quantity
  sending_error : Outcome Quantity → Worker Quantity
  done : Worker Quantity

-- The loop: so many rounds are left, and it waits for an error or, holding one, for a batch.
pub data Main : Type 0 where
  awaiting_error : ℕ → Main
  awaiting_response : ℕ → Option Error → Main
  returned : Main

pub record State (Quantity : Type 0) : Type 0 where
  pub workers : List (Worker Quantity)
  pub responses : List (Option (MetricsBatch Quantity))
  pub errors : List (Option Error)
  pub main : Main
  pub res : MetricsBatch Quantity
  pub errs : List Error

-- `errs = append(errs, err)` if there is one.
abbrev pub add_error : List Error → Option Error → List Error
add_error errs none = errs
add_error errs (some e) = errs ++ e ∷ []

module _ {Quantity : Type 0} (packages : Packages) where
  -- The deferred calls run last to first, with arguments that were evaluated before the scrape,
  -- each with a read of the clock of its own.
  unfoldable pub scrape_with_metrics : Context → MetricSource Quantity → Time → Collected Quantity
  scrape_with_metrics ctx s start_time =
      let unix = packages.next_read start_time in
      let since = packages.next_read unix in
      let last = Event.last_scrape s.name unix in
      let duration = Event.scraper_duration s.name (sub since start_time) in
      let c = s.collect ctx (packages.next_read since) in
      record c { events = c.events ++ duration ∷ last ∷ [] }

  -- The body of a goroutine that starts at `now`, with `draw` the answer of `rand.Intn(delayMs)`.
  unfoldable pub goroutine :
      Context → Duration → Time → (draw : ℕ) → MetricSource Quantity → Outcome Quantity
  unfolding scrape_context scrape_with_metrics
  goroutine base_ctx scrape_timeout now draw source =
      let sleep = pos (draw * millisecond) in
      let ctx = scrape_context base_ctx scrape_timeout now sleep in
      let c = scrape_with_metrics ctx source (now +ℤ sleep) in
      record { metrics = c.batch; error = Option.map (Error.scrape_failed source.name) c.error }

module _ {Quantity : Type 0} where
  abbrev pub add_batch :
      MetricsBatch Quantity → Option (MetricsBatch Quantity) → MetricsBatch Quantity
  add_batch res none = res
  add_batch res (some b) = record { nodes = res.nodes ++ b.nodes; pods = res.pods ++ b.pods }

  -- `capacity` is the size of both channels' buffers.
  pub data Step (capacity : ℕ) (s : State Quantity) : State Quantity → Type 0 where
    send_response :
        (before behind : List (Worker Quantity)) (o : Outcome Quantity)
        → s.workers ≡ before ++ scraping o ∷ behind
        → length s.responses < capacity
        → Step capacity s (record s {
          workers = before ++ sending_error o ∷ behind;
          responses = s.responses ++ o.metrics ∷ [];
        })
    send_error :
        (before behind : List (Worker Quantity)) (o : Outcome Quantity)
        → s.workers ≡ before ++ sending_error o ∷ behind
        → length s.errors < capacity
        → Step capacity s
            (record s { workers = before ++ done ∷ behind; errors = s.errors ++ o.error ∷ [] })
    receive_error :
        (n : ℕ) (e : Option Error) (rest : List (Option Error))
        → s.main ≡ awaiting_error (suc n)
        → s.errors ≡ e ∷ rest
        → Step capacity s (record s { main = awaiting_response n e; errors = rest })
    receive_response :
        (n : ℕ) (e : Option Error) (b : Option (MetricsBatch Quantity))
        (rest : List (Option (MetricsBatch Quantity)))
        → s.main ≡ awaiting_response n e
        → s.responses ≡ b ∷ rest
        → Step capacity s (record s {
          main = awaiting_error n;
          responses = rest;
          res = add_batch s.res b;
          errs = add_error s.errs e;
        })
    return : s.main ≡ awaiting_error 0 → Step capacity s (record s { main = returned })

  -- The state in which the loop starts: `errs` holds the provider's error, if there is one.
  unfoldable pub start : List Error → List (Outcome Quantity) → State Quantity
  start errs outcomes = record {
    workers = map scraping outcomes;
    responses = [];
    errors = [];
    main = awaiting_error (length outcomes);
    res = empty_batch;
    errs = errs;
  }

  -- The states that a run reaches, with the number of its steps.
  pub data Reach (errs : List Error) (outcomes : List (Outcome Quantity))
      : ℕ → State Quantity → Type 0 where
    here : Reach errs outcomes 0 (start errs outcomes)
    later :
        {k : ℕ} {s t : State Quantity}
        → Reach errs outcomes k s
        → Step (length outcomes) s t
        → Reach errs outcomes (suc k) t

  -- A run of so many steps, from one state to another.
  pub data Steps (capacity : ℕ) : ℕ → State Quantity → State Quantity → Type 0 where
    finished : {s : State Quantity} → Steps capacity 0 s s
    next :
        {k : ℕ} {s t u : State Quantity}
        → Step capacity s t
        → Steps capacity k t u
        → Steps capacity (suc k) s u

  -- What a run of `Collect` returns: the batch, and the aggregate of the errors.
  unfoldable pub result : Packages → State Quantity → MetricsBatch Quantity × Option Error
  result packages s = (s.res, packages.new_aggregate s.errs)
