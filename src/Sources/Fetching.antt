-- ===== src/Sources/Fetching.antt =====
-- A scrape over the client of the kubelets: from the HTTP answer to the batch.
use mathlib.Core.Option
use my_learning_journey.Base.{
  ◌≡◌, ◌⊎◌, ◌↔◌, ap, inl, inr, String, Option, none, some, Result, Result-cases, ok, ok_injective,
  err,
}
use my_learning_journey.Golang.{Time, Context}
use my_learning_journey.Errors.{Error}
use my_learning_journey.Sources.{Packages, IsAggregate, Collected}
use my_learning_journey.Sources.Stats.{Summary, Quantities, KubeletInterface}
use my_learning_journey.Sources.Summary.{NodeInfo, decode_summary, collect}
use my_learning_journey.Sources.Summary.Collecting.{collect-Returns}
use my_learning_journey.Sources.Kubelet.{Network, KubeletClient, summary_url, get_summary}
use my_learning_journey.Sources.Kubelet.Answers.{Fetches, get_summary_iff}

-- The two results of `GetSummary`, read as its callers do: the error first. A nil summary does not
-- come without an error.
abbrev pub answer_of : Option Summary × Option Error → Result Error Summary
answer_of (summary, some e) = err e
answer_of (some summary, none) = ok summary
answer_of (none, none) = err (Error.foreign "nil summary")

answer_of-ok :
    (r : Option Summary × Option Error) (summary : Summary)
    → (answer_of r ≡ ok summary) ↔ (r ≡ (some summary, none))
answer_of-ok (s, some e) summary = ((λ z. cc), (λ z. let h = ap (λ r. r.1) z in cc))
answer_of-ok (some s, none) summary =
    ((λ z. ap (λ t. (some t, none)) (ok_injective z)), (λ z. ap answer_of z))
answer_of-ok (none, none) summary = ((λ z. cc), (λ z. let h = ap (λ r. r.0) z in cc))

module _ {Request Transport Config : Type 0}
    (net_at : Time → Network Request Transport Config Summary) (kc : KubeletClient Transport)
    (finished_at : Context → String → Time → Time) where
  -- `kubeletClient` as the interface that a source is given. What the network answers, and when,
  -- may change with the time.
  unfoldable pub kubelet_interface : KubeletInterface
  kubelet_interface = record {
    get_summary = λ ctx host now.
        (answer_of (get_summary (net_at now) kc ctx host), finished_at ctx host now);
  }

  -- The summary has come from the host in an answer with status 200, whose body parses to it.
  abbrev pub IsFetched : Context → String → Time → Summary → Type 0
  IsFetched ctx host now summary =
      (req : Request) × ((net_at now).new_request
          (summary_url (net_at now).join_host_port kc.deprecated_no_tls kc.port host)
        ≡ ok req)
      × Fetches (net_at now) (Option.get_or kc.client (net_at now).default_transport) ctx req
          summary

  pub IsFetched-iff :
      (ctx : Context) (host : String) (now : Time) (summary : Summary)
      → ((kubelet_interface.get_summary ctx host now).0 ≡ ok summary)
        ↔ IsFetched ctx host now summary
  unfolding kubelet_interface
  IsFetched-iff ctx host now summary =
      let (there, back) = answer_of-ok (get_summary (net_at now) kc ctx host) summary in
      let (fetched, answered) = get_summary_iff (net_at now) kc ctx host summary in
      ((λ z. fetched (there z)), (λ z. back (answered z)))

  module _ {Quantity : Type 0} (quantities : Quantities Quantity) (packages : Packages)
      (src : NodeInfo) where
    -- What a scrape from the time `now` may return, with the request made after the next read of
    -- the clock: a decoded summary that was fetched from the node's address, or an error with the
    -- node's name and address where none was.
    abbrev pub IsScraped : Context → Time → Collected Quantity → Type 0
    IsScraped ctx now c =
        ((summary : Summary) × IsFetched ctx src.connect_address (packages.next_read now) summary
          × (c.batch ≡ some (decode_summary quantities src summary).0))
        ⊎ (((summary : Summary)
              → ¬ IsFetched ctx src.connect_address (packages.next_read now) summary)
            × (c.batch ≡ none)
            × (e : Error) × (c.error ≡ some (Error.fetch_failed src.name src.connect_address e)))

    -- A scrape over the client of the kubelets gives the batch that is decoded from a summary which
    -- has come from the node's address in an answer with status 200, whose body parses to it; or it
    -- gives no batch but an error with the node's name and address, and no summary has come so.
    pub collect-IsScraped :
        IsAggregate packages
        → (ctx : Context) (now : Time)
        → IsScraped ctx now (collect quantities packages kubelet_interface src ctx now)
    collect-IsScraped h ctx now =
        let host = src.connect_address in
        let at = packages.next_read now in
        let (returned, _) = collect-Returns quantities packages kubelet_interface src h ctx now in
        elim (Result-cases (kubelet_interface.get_summary ctx host at).0) [
          | inl (summary, e) ↦
              inl (summary, (IsFetched-iff ctx host at summary).0 e, (rw e at returned).0)
          | inr (cause, e) ↦ inr (
            (λ summary f. (let t = (IsFetched-iff ctx host at summary).1 f in cc)),
            (rw e at returned).0,
            cause,
            (rw e at returned).1,
          )
        ]
