-- ===== src/Sources/Kubelet.antt =====
-- pkg/sources/summary/client.go and pkg/sources/summary/configs.go: the client of the kubelets.
pub mod Answers
pub mod Configs
use mathlib.Core.Option
use my_learning_journey.Base.{
  ℕ, String, Bool, true, false, Option, none, some, Result, ok, err, if◌then◌else◌, nat_eq,
}
use my_learning_journey.Base.Int.{ℤ}
use my_learning_journey.Golang.{Context}
use my_learning_journey.Errors.{Error}

-- `url.URL`, with the fields that are set.
pub record Url : Type 0 where
  pub scheme : String
  pub host : String
  pub path : String
  pub raw_query : String

-- A response: its status, and what reading its body to the end gives.
pub record Response : Type 0 where
  pub status_code : ℕ
  pub status : String
  pub body : Result Error String

-- The network and the parsers: `http.NewRequest` of a URL's text, `Do` of a transport with a
-- request that has a context, `req.URL.String()`, `net.JoinHostPort`, and `json.Unmarshal` into an
-- empty summary, which a failure may leave half filled. `transport_for` is `rest.TransportFor`.
pub record Network (Request Transport RestConfig Summary : Type 0) : Type 0 where
  pub new_request : Url → Result Error Request
  pub endpoint : Request → String
  pub send : Transport → Context → Request → Result Error Response
  pub join_host_port : String → ℤ → String
  pub unmarshal : String → Summary × Option Error
  pub empty_summary : Summary
  pub default_transport : Transport
  pub transport_for : RestConfig → Result Error Transport

-- `kubeletClient`; a nil client is `none`.
pub record KubeletClient (Transport : Type 0) : Type 0 where
  pub port : ℤ
  pub deprecated_no_tls : Bool
  pub client : Option Transport

-- `IsNotFoundError`
unfoldable pub is_not_found_error : Error → Bool
is_not_found_error (Error.kubelet_not_found endpoint) = true
is_not_found_error e = false

-- The URL of `GetSummary`.
unfoldable pub summary_url : (join_host_port : String → ℤ → String) → Bool → ℤ → String → Url
summary_url join_host_port deprecated_no_tls port host = record {
  scheme = if deprecated_no_tls then "http" else "https";
  host = join_host_port host port;
  path = "/stats/summary";
  raw_query = "only_cpu_and_memory=true";
}

-- `rest.TLSClientConfig`, with the fields that are written; `other` are those that are not.
pub record TlsClientConfig (Other : Type 0) : Type 0 where
  pub insecure : Bool
  pub ca_data : Option String
  pub ca_file : String
  pub other : Other

pub record RestConfig (Other Rest : Type 0) : Type 0 where
  pub tls_client_config : TlsClientConfig Other
  pub rest : Rest

pub record KubeletClientConfig (Config : Type 0) : Type 0 where
  pub port : ℤ
  pub rest_config : Config
  pub deprecated_completely_insecure : Bool

-- `rest.AnonymousClientConfig`, which makes a new configuration, and the empty `TLSClientConfig`.
pub record Anonymous (Other Rest : Type 0) : Type 0 where
  pub anonymous_client_config : RestConfig Other Rest → RestConfig Other Rest
  pub no_tls : TlsClientConfig Other

-- `GetKubeletConfig`. The second result is the given configuration, which it may write to.
unfoldable pub get_kubelet_config :
    {Other Rest : Type 0}
    → Anonymous Other Rest
    → RestConfig Other Rest
    → (port : ℤ) → (insecure_tls completely_insecure : Bool)
    → KubeletClientConfig (RestConfig Other Rest) × RestConfig Other Rest
get_kubelet_config lib cfg port insecure_tls completely_insecure =
    let insecure = record cfg {
      tls_client_config = record cfg.tls_client_config {
        insecure = true;
        ca_data = none;
        ca_file = "";
      };
    } in
    let anonymous = record (lib.anonymous_client_config cfg) { tls_client_config = lib.no_tls } in
    let given = if completely_insecure then cfg else if insecure_tls then insecure else cfg in
    (
      record {
        port = port;
        rest_config = if completely_insecure then anonymous else given;
        deprecated_completely_insecure = completely_insecure;
      },
      given,
    )

-- `NewKubeletClient`, which never fails.
abbrev pub new_kubelet_client :
    {Transport : Type 0}
    → Transport
    → (port : ℤ) → (deprecated_no_tls : Bool) → KubeletClient Transport
new_kubelet_client transport port deprecated_no_tls = record {
  port = port;
  deprecated_no_tls = deprecated_no_tls;
  client = some transport;
}

module _ {Request Transport Config Summary : Type 0}
    (net : Network Request Transport Config Summary) where
  -- The end of `makeRequestAndGetValue`, where the body has been read.
  unfoldable pub value_of_body : Request → Response → (body : String) → Summary × Option Error
  value_of_body req response body =
      if nat_eq response.status_code 404
      then (net.empty_summary, some (Error.kubelet_not_found (net.endpoint req)))
      else if nat_eq response.status_code 200
      then (let (value, e) = net.unmarshal body in
          (value, Option.map (Error.unparsed_output body) e))
      else (net.empty_summary, some (Error.request_failed response.status body))

  -- `makeRequestAndGetValue`, into an empty summary: what it holds then, and the error.
  unfoldable pub make_request_and_get_value : Transport → Context → Request → Summary × Option Error
  unfolding value_of_body
  make_request_and_get_value client ctx req = elim (net.send client ctx req) [
    | err e ↦ (net.empty_summary, some e)
    | ok response ↦ elim response.body [
      | err e ↦ (net.empty_summary, some (Error.unread_body e))
      | ok body ↦ value_of_body req response body
    ]
  ]

  -- A nil summary is `none`.
  unfoldable pub get_summary :
      KubeletClient Transport → Context → (host : String) → Option Summary × Option Error
  unfolding make_request_and_get_value summary_url
  get_summary kc ctx host =
      elim (net.new_request (summary_url net.join_host_port kc.deprecated_no_tls kc.port host)) [
        | err e ↦ (none, some e)
        | ok req ↦
            let client = Option.get_or kc.client net.default_transport in
            let (summary, e) = make_request_and_get_value client ctx req in (some summary, e)
      ]

  unfoldable pub kubelet_client_for :
      KubeletClientConfig Config → Result Error (KubeletClient Transport)
  kubelet_client_for config = elim (net.transport_for config.rest_config) [
    | err e ↦ err (Error.transport e)
    | ok transport ↦
        ok (new_kubelet_client transport config.port config.deprecated_completely_insecure)
  ]
