-- ===== src/Server/Command.antt =====
-- cmd/metrics-server/app/start.go (`NewCommandStartMetricsServer`) and
-- cmd/metrics-server/metrics-server.go (`main`): the flags of the command, and what the process
-- does.
pub mod Authentication
use my_learning_journey.Base.{
  ℕ, String, Bool, Option, none, some, List, [], ◌∷◌, ◌==◌, string_comparable, if◌then◌else◌,
  Result, ok, err, Run, returns, panics, ◌>>=◌,
}
use my_learning_journey.Base.Int.{ℤ}
use my_learning_journey.Golang.{Duration}
use my_learning_journey.Errors.{Error}
use my_learning_journey.Server.{
  MetricsServerOptions, new_metrics_server_options, Environment, Ran, run,
}

-- A flag with the function that sets its variable from a text; `changed` says that it was set
-- before.
pub record Flag : Type 0 where
  pub name : String
  pub usage : String
  pub deprecated : Option String
  pub set : (changed : Bool) → String → MetricsServerOptions → Result Error MetricsServerOptions

-- The pflag library: the parsers of the types of variables. A slice that was set before is
-- extended.
pub record Parsers : Type 0 where
  pub duration : String → Result Error Duration
  pub bool : String → Result Error Bool
  pub int : String → Result Error ℤ
  pub string_slice : (changed : Bool) → (old : List String) → String → Result Error (List String)

abbrev pub set_with :
    {A : Type 0} → Result Error A → (A → MetricsServerOptions) → Result Error MetricsServerOptions
set_with (ok value) write = ok (write value)
set_with (err e) write = err e

-- The options as the command declares its flags: each variable is given the default of its flag.
unfoldable pub declared : MetricsServerOptions → MetricsServerOptions
declared o = record o { kubelet_ca_file = "" }

-- The message of `MarkDeprecated`.
abbrev pub deprecation : String
deprecation =
    "This is rarely the right option, since it leaves kubelet communication completely insecure.  If you encounter auth errors, make sure you've enabled token webhook auth on the Kubelet, and if you're in a test cluster with self-signed Kubelet certificates, consider using kubelet-insecure-tls instead."

module _ (parsers : Parsers) where
  -- The flags that the command declares itself. Those of the apiserver's options have variables of
  -- their own.
  unfoldable pub flags : List Flag
  flags =
      record {
        name = "metric-resolution";
        usage = "The resolution at which metrics-server will retain metrics.";
        deprecated = none;
        set = λ changed text o.
            set_with (parsers.duration text) (λ v. record o { metric_resolution = v });
      }
      ∷ record {
        name = "kubelet-insecure-tls";
        usage =
            "Do not verify CA of serving certificates presented by Kubelets.  For testing purposes only.";
        deprecated = none;
        set = λ changed text o.
            set_with (parsers.bool text) (λ v. record o { insecure_kubelet_tls = v });
      }
      ∷ record {
        name = "deprecated-kubelet-completely-insecure";
        usage =
            "Do not use any encryption, authorization, or authentication when communicating with the Kubelet.";
        deprecated = some deprecation;
        set = λ changed text o.
            set_with (parsers.bool text)
              (λ v. record o { deprecated_completely_insecure_kubelet = v });
      }
      ∷ record {
        name = "kubelet-port";
        usage = "The port to use to connect to Kubelets.";
        deprecated = none;
        set = λ changed text o. set_with (parsers.int text) (λ v. record o { kubelet_port = v });
      }
      ∷ record {
        name = "kubeconfig";
        usage =
            "The path to the kubeconfig used to connect to the Kubernetes API server and the Kubelets (defaults to in-cluster config)";
        deprecated = none;
        set = λ changed text o. set_with (ok text) (λ v. record o { kubeconfig = v });
      }
      ∷ record {
        name = "kubelet-preferred-address-types";
        usage =
            "The priority of node address types to use when determining which address to use to connect to a particular node";
        deprecated = none;
        set = λ changed text o.
            set_with (parsers.string_slice changed o.kubelet_preferred_address_types text)
              (λ v. record o { kubelet_preferred_address_types = v });
      }
      ∷ record {
        name = "kubelet-certificate-authority";
        usage = "Path to the CA to use to validate the Kubelet's serving certificates.";
        deprecated = none;
        set = λ changed text o. set_with (ok text) (λ v. record o { kubelet_ca_file = v });
      }
      ∷ []

-- What the cobra library finds on the command line: a request for the help text, or the variables
-- as the flags set them.
pub data CommandLine : Type 0 where
  help : CommandLine
  options : MetricsServerOptions → CommandLine

-- `Execute` of the cobra library parses the command line, which sets variables by their flags, and
-- then calls `RunE`, unless it prints the help text.
pub record Cobra : Type 0 where
  pub parse : List Flag → MetricsServerOptions → Result Error CommandLine

module _ {Other Rest Request Transport Summary Completed Api Quantity Collector Registry : Type 0}
    (env : Environment Other Rest Request Transport Summary Completed Api Quantity Collector
      Registry)
    (parsers : Parsers) (cobra : Cobra) where
  -- The command with its default options, executed: how `Run` ended, or the error of the command
  -- line, or no error where the help text is asked for.
  unfoldable pub execute : Registry → Run (Ran Transport Api Quantity Registry)
  execute registry = elim (cobra.parse (flags parsers) (declared new_metrics_server_options)) [
    | err e ↦ returns (record { registry = registry; started = none; error = some e })
    | ok help ↦ returns (record { registry = registry; started = none; error = none })
    | ok (options o) ↦ run env o registry
  ]

  -- `main`: the number of threads that the process may use, and the run. An error of the command is
  -- a panic.
  unfoldable pub main :
      (gomaxprocs : String)
      → (num_cpu threads : ℕ) → Registry
      → ℕ × Run (Ran Transport Api Quantity Registry)
  main gomaxprocs num_cpu threads registry = (
    if gomaxprocs == "" then num_cpu else threads,
    execute registry >>= λ ran. elim ran.error [ some e ↦ panics | none ↦ returns ran ],
  )
