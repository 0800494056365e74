-- ===== src/Server/InTime.antt =====
-- The time that one scrape takes, with the timeout that the server derives from its resolution.
use my_learning_journey.Base.{
  ℕ, ◌+◌, ◌*◌, ◌^◌, ◌<◌, ◌≤◌, ◌≡◌, refl, ap, ◌∙◌, ◌⊎◌, inl, inr, String, some, arith, Result-cases,
  Option-cases, if◌then◌else◌,
}
use my_learning_journey.Base.Int.{pos, pos_part, neg_part, ◌+ℤ◌, ◌≤ℤ◌, ◌<ℤ◌, ltb_ℤ, int_laws}
use my_learning_journey.Golang.{Time, Duration, Context, with_timeout, millisecond, second}
use my_learning_journey.Float.{scrape_timeout_of}
use my_learning_journey.Float.Bounds.{scrape_timeout_of-bounds}
use my_learning_journey.Sources.{Packages}
use my_learning_journey.Sources.Stats.{Quantities, KubeletInterface}
use my_learning_journey.Sources.Summary.{NodeInfo, collect, new_summary_metrics_source}
use my_learning_journey.Sources.SourceManager.{delay_ms, scrape_context, scrape_with_metrics}
use my_learning_journey.Sources.SourceManager.Delays.{scrape_context_lem}

-- A client that keeps to the deadline of its context: it answers by then, or at once where the
-- deadline has passed when it is called.
abbrev pub KeepsDeadlines : KubeletInterface → Type 0
KeepsDeadlines client =
    (ctx : Context) (address : String) (now deadline : Time)
    → ctx.deadline ≡ some deadline
    → ((client.get_summary ctx address now).1 ≤ℤ deadline)
      ⊎ ((client.get_summary ctx address now).1 ≤ℤ now)

-- The clock shows at most 100 milliseconds more when it is read again.
abbrev pub IsReadSoon : Packages → Type 0
IsReadSoon packages = (t : Time) → packages.next_read t ≤ℤ t +ℤ pos (100 * millisecond)

four_reads :
    (packages : Packages)
    → IsReadSoon packages
    → (now : Time) (sleep : ℕ)
    → let read = packages.next_read in
      read (read (read (read (now +ℤ pos sleep)))) ≤ℤ now +ℤ pos (sleep + 400 * millisecond)
four_reads packages soon now sleep =
    let read = packages.next_read in
    let t = now +ℤ pos sleep in
    let first = soon t in
    let second = soon (read t) in
    let third = soon (read (read t)) in let fourth = soon (read (read (read t))) in omega int_laws

-- Of two times the earlier is not later than the second.
earlier-le : (d e : Time) → (if ltb_ℤ d e then d else e) ≤ℤ e
earlier-le d e = ground arith

-- The deadline of a context with a timeout is there, and not later than the timeout.
with_timeout-deadline :
    (ctx : Context) (now : Time) (timeout : Duration)
    → (d : Time) × ((with_timeout ctx now timeout).deadline ≡ some d) × (d ≤ℤ now +ℤ timeout)
unfolding with_timeout
with_timeout-deadline ctx now timeout = elim (Option-cases ctx.deadline) [
  | inl e ↦ (now +ℤ timeout, rw (e, with_timeout) refl, omega arith)
  | inr (d, e) ↦ (
    if ltb_ℤ d (now +ℤ timeout) then d else now +ℤ timeout,
    rw (e, with_timeout) refl,
    earlier-le d (now +ℤ timeout),
  )
]

-- A sleep of fewer milliseconds than `delay_ms` gives is shorter than 4 seconds.
delay-lt :
    (sources draw : ℕ) → draw < delay_ms sources → draw * millisecond + millisecond ≤ 4 * second
unfolding delay_ms
delay-lt sources draw h = ground arith

-- What is there by the deadline or at the time of the call is there when the timeout is over.
in_time :
    (now finished deadline called : Time) (timeout : Duration) (t sleep resolution : ℕ)
    → timeout ≡ pos t
    → (finished ≤ℤ deadline) ⊎ (finished ≤ℤ called)
    → called ≤ℤ now +ℤ pos sleep
    → deadline ≤ℤ now +ℤ timeout
    → sleep ≤ t
    → t < resolution
    → (finished ≤ℤ now +ℤ timeout) × (now +ℤ timeout <ℤ now +ℤ pos resolution)
in_time now finished deadline called timeout t sleep resolution is (inl h) late early brief less =
    let parts : (pos_part timeout ≡ t) × (neg_part timeout ≡ 0) = rw is (refl, refl) in
    (omega int_laws, omega int_laws)
in_time now finished deadline called timeout t sleep resolution is (inr h) late early brief less =
    let parts : (pos_part timeout ≡ t) × (neg_part timeout ≡ 0) = rw is (refl, refl) in
    (omega int_laws, omega int_laws)

module _ {Quantity : Type 0} (quantities : Quantities Quantity) (packages : Packages)
    (client : KubeletInterface) where
  collect-finished :
      (src : NodeInfo) (ctx : Context) (now : Time)
      → (collect quantities packages client src ctx now).finished
        ≡ (client.get_summary ctx src.connect_address (packages.next_read now)).1
  unfolding collect
  collect-finished src ctx now =
      elim (Result-cases (client.get_summary ctx src.connect_address (packages.next_read now)).0) [
        | inl (summary, e) ↦ rw (e, collect) refl
        | inr (cause, e) ↦ rw (e, collect) refl
      ]

  -- With a resolution of 5 seconds to 104 days, a client that keeps to the deadline of its context,
  -- and 100 milliseconds at most between two reads of the clock: whatever number of milliseconds a
  -- goroutine draws for its sleep, it has the answer of its kubelet when the scrape timeout is
  -- over, which is before the resolution is.
  pub goroutine-InTime :
      (src : NodeInfo) (base_ctx : Context) (now : Time) (sources draw resolution : ℕ)
      → KeepsDeadlines client
      → IsReadSoon packages
      → draw < delay_ms sources
      → 5 * second ≤ resolution
      → resolution < 2 ^ 53
      → let timeout = scrape_timeout_of (pos resolution) in
        let sleep = pos (draw * millisecond) in
        ((scrape_with_metrics packages
            (scrape_context base_ctx timeout now sleep)
            (new_summary_metrics_source quantities packages client src)
            (now +ℤ sleep)).finished
          ≤ℤ now +ℤ timeout)
        × (now +ℤ timeout <ℤ now +ℤ pos resolution)
  unfolding scrape_with_metrics new_summary_metrics_source
  goroutine-InTime src base_ctx now sources draw resolution h soon drawn long short =
      let timeout = scrape_timeout_of (pos resolution) in
      let sleep = pos (draw * millisecond) in
      let ctx = scrape_context base_ctx timeout now sleep in
      let (t, is, above, below) = scrape_timeout_of-bounds resolution short in
      let brief = delay-lt sources draw drawn in
      let (d, there, early) = with_timeout-deadline base_ctx now timeout in
      let read = packages.next_read in
      let called = read (read (read (now +ℤ sleep))) in
      let late : read called ≤ℤ now +ℤ pos (draw * millisecond + 400 * millisecond) =
        four_reads packages soon now (draw * millisecond) in
      let kept : ((client.get_summary ctx src.connect_address (read called)).1 ≤ℤ d)
          ⊎ ((client.get_summary ctx src.connect_address (read called)).1 ≤ℤ read called) =
        h ctx src.connect_address (read called) d (
          ap (λ (c : Context). c.deadline) (scrape_context_lem base_ctx timeout now sleep)
          ∙ there) in
      let finished = collect-finished src ctx called in
      rw finished (
        in_time now _ d (read called) timeout t (draw * millisecond + 400 * millisecond) resolution
          is kept late early (omega arith) (omega arith))
