-- ===== src/Sources/Kubelet/Configs.antt =====
-- KubeletClientFor and GetKubeletConfig: the client that a configuration makes.
use my_learning_journey.Base.{
  ok_injective, ◌≡◌, inl, inr, refl, sym, ap, ◌∙◌, Bool, true, false, some, Result-cases, ok, err,
}
use my_learning_journey.Base.Int.{ℤ}
use my_learning_journey.Errors.{Error}
use my_learning_journey.Sources.Kubelet.{
  Network, KubeletClient, RestConfig, Anonymous, KubeletClientConfig, new_kubelet_client,
  kubelet_client_for, get_kubelet_config,
}

module _ {Request Transport Other Rest Summary : Type 0}
    (net : Network Request Transport (RestConfig Other Rest) Summary)
    (lib : Anonymous Other Rest) where
  client_for-err :
      (config : KubeletClientConfig (RestConfig Other Rest)) (e : Error)
      → net.transport_for config.rest_config ≡ err e
      → kubelet_client_for net config ≡ err (Error.transport e)
  unfolding kubelet_client_for
  client_for-err config e s = rw (s, kubelet_client_for) refl

  client_for-ok :
      (config : KubeletClientConfig (RestConfig Other Rest)) (transport : Transport)
      → net.transport_for config.rest_config ≡ ok transport
      → kubelet_client_for net config
        ≡ ok (new_kubelet_client transport config.port config.deprecated_completely_insecure)
  unfolding kubelet_client_for
  client_for-ok config transport s = rw (s, kubelet_client_for) refl

  pub kubelet_client_for-made :
      (config : KubeletClientConfig (RestConfig Other Rest)) (kc : KubeletClient Transport)
      → kubelet_client_for net config ≡ ok kc
      → (transport : Transport) × (net.transport_for config.rest_config ≡ ok transport)
        × (new_kubelet_client transport config.port config.deprecated_completely_insecure ≡ kc)
  kubelet_client_for-made config kc h = elim (Result-cases (net.transport_for config.rest_config)) [
    | inr (e, s) ↦ cc (client_for-err config e s)
    | inl (transport, s) ↦ (transport, s, ok_injective (sym (client_for-ok config transport s) ∙ h))
  ]

  -- A kubelet client that talks without TLS has the transport of an anonymous configuration without
  -- any TLS settings, whatever credentials the given configuration has.
  pub kubelet_client_for-anonymous :
      (cfg : RestConfig Other Rest) (port : ℤ) (insecure_tls completely_insecure : Bool)
      (kc : KubeletClient Transport)
      → kubelet_client_for net (get_kubelet_config lib cfg port insecure_tls completely_insecure).0
        ≡ ok kc
      → kc.deprecated_no_tls ≡ true
      → (transport : Transport) × (kc.client ≡ some transport)
        × (net.transport_for
              (record (lib.anonymous_client_config cfg) { tls_client_config = lib.no_tls })
            ≡ ok transport)
  unfolding get_kubelet_config
  kubelet_client_for-anonymous cfg port insecure_tls true kc h t =
      let (transport, s, made) = kubelet_client_for-made _ kc h in
      (transport, sym (ap (λ k. k.client) made), s)
  kubelet_client_for-anonymous cfg port insecure_tls false kc h t =
      let (transport, s, made) = kubelet_client_for-made _ kc h in
      let secure : false ≡ kc.deprecated_no_tls = ap (λ k. k.deprecated_no_tls) made in cc
