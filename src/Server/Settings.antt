-- ===== src/Server/Settings.antt =====
-- MetricsServerOptions.Run: what a server that is started has been made of.
use my_learning_journey.Base.{
  some_injective, ok_injective, ◌≡◌, ◌⊎◌, inl, inr, refl, sym, ap, ◌∙◌, String, true, Bool-cases,
  Option, none, some, List, [], ◌∷◌, ◌++◌, Result, Result-cases, ok, err, string_comparable,
  replicate, length, set-append, length-snoc, returns, panics, returns_injective, Run-cases,
}
use mathlib.Core.List.{append_assoc}
use my_learning_journey.Float.{scrape_timeout_of}
use my_learning_journey.Errors.{Error}
use my_learning_journey.Sources.Addresses.{Node, new_priority_node_address_resolver}
use my_learning_journey.Sources.Addresses.Priority.{Resolves, node_address-Resolves}
use my_learning_journey.Sources.Kubelet.{
  RestConfig, KubeletClient, new_kubelet_client, get_kubelet_config, kubelet_client_for,
}
use my_learning_journey.Sources.Kubelet.Configs.{kubelet_client_for-made}
use my_learning_journey.Server.{
  MetricsServerOptions, copy_from, copy_of, Environment, Server, Ran, unless_error, and_then,
  config, client_config, kubelet_config, prepare, register_metrics, api_server, server_of,
  health_check, start, run,
}
use my_learning_journey.Sink.{new_sink_provider}
use my_learning_journey.Api.{GenericConfig}

copy_from-append :
    (xs done : List String)
    → copy_from (length done) xs (done ++ replicate (length xs) "") ≡ done ++ xs
unfolding copy_from
copy_from-append [] done = refl
copy_from-append (x ∷ xs) done =
    let blank : List String = replicate (length xs) "" in
    let empty : String = "" in
    rw (set-append done empty x blank, ← length-snoc done x, ← append_assoc done (x ∷ []) blank)
      (copy_from-append xs (done ++ x ∷ []) ∙ append_assoc done (x ∷ []) xs)

copy_of-eq : (xs : List String) → copy_of xs ≡ xs
copy_of-eq xs = copy_from-append xs []

unless_error-ok :
    {A : Type 0} (e : Option Error) (wrap : Error → Error) (r : Result Error A) {a : A}
    → unless_error e wrap r ≡ ok a
    → (e ≡ none) × (r ≡ ok a)
unless_error-ok none wrap r h = (refl, h)
unless_error-ok (some e) wrap r h = cc

and_then-ok :
    {A B : Type 0} (r : Result Error A) (wrap : Error → Error) (f : A → Result Error B) {b : B}
    → and_then r wrap f ≡ ok b
    → (a : A) × (r ≡ ok a) × (f a ≡ ok b)
and_then-ok (ok a) wrap f h = (a, refl, h)
and_then-ok (err e) wrap f h = cc

module _ {Other Rest Request Transport Summary Completed Api Quantity Collector Registry : Type 0}
    (env : Environment Other Rest Request Transport Summary Completed Api Quantity Collector
      Registry)
    (o : MetricsServerOptions) where
  -- The authentication and the authorization options apply, unless a test has turned them off.
  abbrev pub Authenticates : Type 0
  Authenticates =
      (o.disable_auth_for_testing ≡ true)
      ⊎ ((env.authentication ≡ none) × (env.authorization ≡ none))

  config-ok :
      {generic : GenericConfig}
      → config env o ≡ ok generic
      → (env.self_signed_certs ≡ none)
        × (env.secure_serving ≡ none)
        × Authenticates
        × (env.new_config ≡ generic)
  unfolding config
  config-ok h =
      let (certs, h1) = unless_error-ok env.self_signed_certs Error.self_signed_certs _ h in
      let (serving, h2) = unless_error-ok env.secure_serving (λ e. e) _ h1 in
      elim (Bool-cases o.disable_auth_for_testing) [
        | inl off ↦ (certs, serving, inl off, ok_injective (rw off at h2))
        | inr on ↦
            let (authn, h3) = unless_error-ok env.authentication (λ e. e) _ (rw on at h2) in
            let (authz, h4) = unless_error-ok env.authorization (λ e. e) _ h3 in
            (certs, serving, inr (authn, authz), ok_injective h4)
      ]

  -- The configuration that the API server is made from.
  abbrev pub metrics_enabled : GenericConfig
  metrics_enabled = record env.new_config { enable_metrics = true }

  -- The parts of a server: where its kubelet client and its other settings come from.
  pub record IsAssembled (s : Server Transport Api Quantity) : Type 0 where
    pub certs : env.self_signed_certs ≡ none
    pub serving : env.secure_serving ≡ none
    pub authenticates : Authenticates
    pub config : RestConfig Other Rest
    pub loaded : client_config env o ≡ ok config
    pub lister_client : env.kube_client config ≡ none
    pub transport : Transport
    pub kubelet_transport :
        env.network.transport_for (kubelet_config env o config).rest_config ≡ ok transport
    pub kubelet_client :
        s.kubelet_client
        ≡ new_kubelet_client transport o.kubelet_port o.deprecated_completely_insecure_kubelet
    pub resolves :
        (node : Node)
        → Resolves o.kubelet_preferred_address_types node (s.addr_resolver.resolve node)
    pub scrape_timeout : s.scrape_timeout ≡ scrape_timeout_of o.metric_resolution
    pub resolution : s.resolution ≡ o.metric_resolution
    pub sink : s.sink ≡ new_sink_provider
    pub made : Api
    pub api : api_server env o metrics_enabled ≡ ok made
    pub checked : s.api ≡ (env.add_healthz_checks (health_check env o ∷ []) made).0

  resolver-Resolves :
      (node : Node)
      → Resolves o.kubelet_preferred_address_types node (
          (new_priority_node_address_resolver (copy_of o.kubelet_preferred_address_types)).resolve
            node)
  unfolding new_priority_node_address_resolver
  resolver-Resolves node =
      rw (copy_of-eq o.kubelet_preferred_address_types)
        (node_address-Resolves o.kubelet_preferred_address_types node)

  -- The API server with the health check.
  abbrev with_check : Api → Api
  with_check api = (env.add_healthz_checks (health_check env o ∷ []) api).0

  server_of-IsAssembled :
      (generic : GenericConfig) (client : KubeletClient Transport) (api : Api)
      → prepare env o ≡ ok (generic, client)
      → api_server env o generic ≡ ok api
      → IsAssembled (server_of env o client (with_check api))
  unfolding prepare kubelet_config get_kubelet_config
  server_of-IsAssembled generic client api h made_api =
      let (first, configured, h1) = and_then-ok (config env o) (λ e. e) _ h in
      let (certs, serving, auth, new) = config-ok configured in
      let (rest, loaded, h2) = and_then-ok (client_config env o) (λ e. e) _ h1 in
      let (lister, h3) = unless_error-ok (env.kube_client rest) Error.lister_client _ h2 in
      let (client', made, h4) =
        and_then-ok (kubelet_client_for env.network (kubelet_config env o rest))
          Error.kubelet_client _ h3 in
      let parts = ok_injective h4 in
      let enabled : metrics_enabled ≡ generic =
        ap {A = GenericConfig} (λ c. record c { enable_metrics = true }) new
        ∙ ap (λ p. p.0) parts in
      let (transport, t, c) =
        kubelet_client_for-made env.network env.anonymous (kubelet_config env o rest) client'
          made in
      record {
        certs = certs;
        serving = serving;
        authenticates = auth;
        config = rest;
        loaded = loaded;
        lister_client = lister;
        transport = transport;
        kubelet_transport = t;
        kubelet_client = sym (ap (λ p. p.1) parts) ∙ sym c;
        resolves = λ node. resolver-Resolves node;
        scrape_timeout = refl;
        resolution = refl;
        sink = refl;
        made = api;
        api = rw enabled made_api;
        checked = refl;
      }

  start-started :
      (generic : GenericConfig) (client : KubeletClient Transport) (registry : Registry)
      (s : Server Transport Api Quantity)
      → (start env o generic client registry).started ≡ some s
      → (api : Api) × (api_server env o generic ≡ ok api)
        × (server_of env o client (with_check api) ≡ s)
  unfolding start
  start-started generic client registry s h = elim (Result-cases (api_server env o generic)) [
    | inl (api, e) ↦ (api, e, some_injective (rw (e, start) at h))
    | inr (cause, e) ↦ cc (rw (e, start) at h)
  ]

  -- `Run` where its preparation succeeds.
  pub run-registered :
      (generic : GenericConfig) (client : KubeletClient Transport) (registry registered : Registry)
      → prepare env o ≡ ok (generic, client)
      → register_metrics env o registry ≡ returns registered
      → run env o registry ≡ returns (start env o generic client registered)
  unfolding run
  run-registered generic client registry registered e f = rw (e, run) (rw f refl)

  run-panics :
      (generic : GenericConfig) (client : KubeletClient Transport) (registry : Registry)
      → prepare env o ≡ ok (generic, client)
      → register_metrics env o registry ≡ panics
      → run env o registry ≡ panics
  unfolding run
  run-panics generic client registry e f = rw (e, run) (rw f refl)

  pub run-failed :
      (cause : Error) (registry : Registry)
      → prepare env o ≡ err cause
      → run env o registry
        ≡ returns (record { registry = registry; started = none; error = some cause })
  unfolding run
  run-failed cause registry e = rw (e, run) refl

  pub run-IsAssembled :
      (registry : Registry) (ran : Ran Transport Api Quantity Registry)
      (s : Server Transport Api Quantity)
      → run env o registry ≡ returns ran
      → ran.started ≡ some s
      → IsAssembled s
  run-IsAssembled registry ran s h started = elim (Result-cases (prepare env o)) [
    | inr (cause, e) ↦
        let same = returns_injective (sym (run-failed cause registry e) ∙ h) in
        cc (ap (λ r. r.started) same ∙ started)
    | inl (p, e) ↦
        let (generic, client) = p in
        elim (Run-cases (register_metrics env o registry)) [
          | inl (registered, f) ↦
              let same : start env o generic client registered ≡ ran =
                returns_injective
                  (sym (run-registered generic client registry registered e f) ∙ h) in
              let (api, made, parts) =
                start-started generic client registered s (ap (λ r. r.started) same ∙ started) in
              rw (← parts) (server_of-IsAssembled generic client api e made)
          | inr f ↦ cc (sym (run-panics generic client registry e f) ∙ h)
        ]
  ]
