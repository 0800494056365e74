-- ===== src/Sources/Summary/Collecting.antt =====
-- summaryMetricsSource.Collect: its results and its reports, when the request fails and when not.
use my_learning_journey.Base.{
  ◌≡◌, ◌≢◌, ◌↔◌, refl, Bool, true, false, none, some, [], ◌∷◌, Result, Result-cases, ok, err, All,
  inl, inr,
}
use my_learning_journey.Golang.{Time, Context, sub}
use my_learning_journey.Errors.{Error}
use my_learning_journey.Sources.{Packages, IsAggregate, new_aggregate-eq-none, Collected, Event}
use my_learning_journey.Sources.Stats.{Summary, Quantities, KubeletInterface}
use my_learning_journey.Sources.Summary.{NodeInfo, decode_summary, collect}
use my_learning_journey.Sources.Summary.Points.{point?, pod_point?}
use my_learning_journey.Sources.Summary.Batch.{decode_summary-errors}

module _ {Quantity : Type 0} (quantities : Quantities Quantity) (packages : Packages)
    (client : KubeletInterface) (src : NodeInfo) where
  abbrev pub succeeded : Result Error Summary → Bool
  succeeded (ok summary) = true
  succeeded (err e) = false

  -- Every stat that the batch needs is there.
  abbrev pub IsComplete : Summary → Type 0
  IsComplete summary =
      (point? quantities summary.node.cpu summary.node.memory ≢ none)
      × All (λ pod. pod_point? quantities pod ≢ none) summary.pods

  -- What is returned for the kubelet's answer.
  abbrev pub Returns : Result Error Summary → Collected Quantity → Type 0
  Returns (err e) c =
      (c.batch ≡ none) × (c.error ≡ some (Error.fetch_failed src.name src.connect_address e))
  Returns (ok summary) c =
      (c.batch ≡ some (decode_summary quantities src summary).0)
      × ((c.error ≡ none) ↔ IsComplete summary)

  -- Without an answer of the kubelet there is no batch, and the error names the node and its
  -- address. With one there is a batch, and an error exactly when a stat is missing. The latency
  -- reported is the time between two reads of the clock before the request, whatever the answer is
  -- and however long it takes, and the count of scrapes is that of the outcome.
  pub collect-Returns :
      IsAggregate packages
      → (ctx : Context) (start_time : Time)
      → let answer =
          (client.get_summary ctx src.connect_address (packages.next_read start_time)).0 in
        let c = collect quantities packages client src ctx start_time in
        Returns answer c
        × (c.events
            ≡ Event.request_latency src.name (sub (packages.next_read start_time) start_time)
              ∷ Event.scrape_total (succeeded answer)
              ∷ [])
  unfolding collect
  collect-Returns h ctx start_time =
      elim (Result-cases
        (client.get_summary ctx src.connect_address (packages.next_read start_time)).0) [
          | inr (e, s) ↦ rw (s, collect) ((refl, refl), refl)
          | inl (summary, s) ↦
              let (none_left, empty) =
                new_aggregate-eq-none packages h (decode_summary quantities src summary).1 in
              let (there, back) = decode_summary-errors quantities src summary in
              rw (s, collect) ((refl, ((λ z. there (none_left z)), (λ z. empty (back z)))), refl)
        ]
