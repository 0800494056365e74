-- ===== src/Sources/Kubelet/Answers.antt =====
-- kubeletClient.GetSummary: when it gives a summary.
use mathlib.Core.Option
use my_learning_journey.Base.{
  some_injective, ◌≡◌, ◌≢◌, ◌↔◌, inl, inr, refl, sym, ap, ◌∙◌, String, Bool-cases, Option, none,
  some, Result-cases, ok, err, nat_eq, nat_eq_iff, arith,
}
use my_learning_journey.Golang.{Context}
use my_learning_journey.Errors.{Error}
use my_learning_journey.Sources.Kubelet.{
  Url, Response, Network, KubeletClient, summary_url, value_of_body, make_request_and_get_value,
  get_summary,
}

no_error_iff :
    {A : Type 0} (value result : A) (e : Option Error) (f : Error → Error)
    → (◌≡◌ {A = A × Option Error} (value, Option.map f e) (result, none))
      ↔ (◌≡◌ {A = A × Option Error} (value, e) (result, none))
no_error_iff value result none f = ((λ z. z), (λ z. z))
no_error_iff value result (some e) f = (
  (λ z. let y : some (f e) ≡ none = ap (λ p. p.1) z in cc),
  (λ z. let y : some e ≡ none = ap (λ p. p.1) z in cc),
)

not_an_error :
    {A : Type 0} {value result : A} {e : Error}
    → ◌≢◌ {A = A × Option Error} (value, some e) (result, none)
not_an_error {e = e} z = let y : some e ≡ none = ap (λ p. p.1) z in cc

module _ {Request Transport Config Summary : Type 0}
    (net : Network Request Transport Config Summary) where
  value_of_body_iff :
      (req : Request) (response : Response) (body : String) (summary : Summary)
      → (value_of_body net req response body ≡ (summary, none))
        ↔ ((response.status_code ≡ 200) × (net.unmarshal body ≡ (summary, none)))
  unfolding value_of_body
  value_of_body_iff req response body summary =
      let (there, back) =
        no_error_iff (net.unmarshal body).0 summary (net.unmarshal body).1
          (Error.unparsed_output body) in
      elim (Bool-cases (nat_eq response.status_code 404)) [
        | inl g ↦
            rw (g, value_of_body)
              (
                (λ z. absurd (not_an_error z)),
                (λ z.
                    let (y, _) = z in
                    let c = (nat_eq_iff response.status_code 404).0 g in
                    absurd (omega (arith, c, y))),
              )
        | inr g ↦ elim (Bool-cases (nat_eq response.status_code 200)) [
          | inl h ↦
              rw (g, value_of_body)
                (rw h
                  ((λ z. ((nat_eq_iff response.status_code 200).0 h, there z)), (λ z. back z.1)))
          | inr h ↦
              rw (g, value_of_body)
                (rw h (
                  (λ z. absurd (not_an_error z)),
                  (λ z.
                      let (y, _) = z in let yes = (nat_eq_iff response.status_code 200).1 y in cc),
                ))
        ]
      ]

  module _ (client : Transport) (ctx : Context) (req : Request) (summary : Summary) where
    -- The transport and the body's reader succeeded, with `summary` at the end.
    abbrev pub Fetches : Type 0
    Fetches =
        (response : Response) × (body : String) × (net.send client ctx req ≡ ok response)
        × (response.body ≡ ok body)
        × (response.status_code ≡ 200)
        × (net.unmarshal body ≡ (summary, none))

    send-err :
        (e : Error)
        → net.send client ctx req ≡ err e
        → make_request_and_get_value net client ctx req ≡ (net.empty_summary, some e)
    unfolding make_request_and_get_value
    send-err e s = rw (s, make_request_and_get_value) refl

    body-err :
        (response : Response) (e : Error)
        → net.send client ctx req ≡ ok response
        → response.body ≡ err e
        → make_request_and_get_value net client ctx req
          ≡ (net.empty_summary, some (Error.unread_body e))
    unfolding make_request_and_get_value
    body-err response e s b = rw (s, make_request_and_get_value) (rw b refl)

    body-ok :
        (response : Response) (body : String)
        → net.send client ctx req ≡ ok response
        → response.body ≡ ok body
        → make_request_and_get_value net client ctx req ≡ value_of_body net req response body
    unfolding make_request_and_get_value
    body-ok response body s b = rw (s, make_request_and_get_value) (rw b refl)

    make_request_iff : (make_request_and_get_value net client ctx req ≡ (summary, none)) ↔ Fetches
    make_request_iff = (
      (λ z. elim (Result-cases (net.send client ctx req)) [
        | inr (e, s) ↦ absurd (not_an_error (sym (send-err e s) ∙ z))
        | inl (response, s) ↦ elim (Result-cases response.body) [
          | inr (e, b) ↦ absurd (not_an_error (sym (body-err response e s b) ∙ z))
          | inl (body, b) ↦
              let (c, u) =
                (value_of_body_iff req response body summary).0
                  (sym (body-ok response body s b) ∙ z) in
              (response, body, s, b, c, u)
        ]
      ]),
      (λ z.
          let (response, body, s, b, c, u) = z in
          body-ok response body s b ∙ (value_of_body_iff req response body summary).1 (c, u)),
    )

  module _ (kc : KubeletClient Transport) (ctx : Context) (host : String) where
    request_url : Url
    request_url = summary_url net.join_host_port kc.deprecated_no_tls kc.port host

    with_some : Summary × Option Error → Option Summary × Option Error
    with_some (summary, e) = (some summary, e)

    new_request-err :
        (e : Error)
        → net.new_request request_url ≡ err e
        → get_summary net kc ctx host ≡ (none, some e)
    unfolding get_summary request_url
    new_request-err e s = rw (s, get_summary) refl

    new_request-ok :
        (req : Request)
        → net.new_request request_url ≡ ok req
        → get_summary net kc ctx host
          ≡ with_some (
              make_request_and_get_value net
                (Option.get_or kc.client net.default_transport)
                ctx
                req)
    unfolding get_summary request_url with_some
    new_request-ok req s = rw (s, get_summary) refl

    with_some_injective : (x y : Summary × Option Error) → with_some x ≡ with_some y → x ≡ y
    unfolding with_some
    with_some_injective (a, e) (b, f) h =
        let p : a ≡ b = some_injective (ap (λ z. z.0) h) in
        let q : e ≡ f = ap (λ z. z.1) h in rw (p, q) refl

    -- A summary arrives without an error exactly where the request can be made, the transport
    -- answers, the body can be read, the status is 200 and the body parses; it is then what the
    -- body parses to.
    pub get_summary_iff :
        (summary : Summary)
        → (get_summary net kc ctx host ≡ (some summary, none)) ↔ (
            (req : Request) × (net.new_request
                (summary_url net.join_host_port kc.deprecated_no_tls kc.port host)
              ≡ ok req)
            × Fetches (Option.get_or kc.client net.default_transport) ctx req summary)
    unfolding request_url with_some
    get_summary_iff summary = (
      (λ z. elim (Result-cases (net.new_request request_url)) [
        | inr (e, s) ↦ absurd (not_an_error (sym (new_request-err e s) ∙ z))
        | inl (req, s) ↦
            let same =
              with_some_injective
                (make_request_and_get_value net (Option.get_or kc.client net.default_transport) ctx
                  req)
                (summary, none) (sym (new_request-ok req s) ∙ z) in
            (
              req,
              s,
              (make_request_iff (Option.get_or kc.client net.default_transport) ctx req summary).0
                  same,
            )
      ]),
      (λ z.
          let (req, s, f) = z in
          new_request-ok req s
          ∙ ap with_some (
              (make_request_iff (Option.get_or kc.client net.default_transport) ctx req summary).1
                f)),
    )
