-- ===== src/Api.antt =====
-- pkg/apiserver/config.go: the API server's configuration, and the server that is made from it.
pub mod Generic
pub mod Serving
use Prim.Native.String as Text
use Prim.Native.Char.{code}
use my_learning_journey.Base.{String, Bool, true, false, Option, some, Result, ok, err, nat_eq}
use my_learning_journey.Errors.{Error}
use my_learning_journey.Version.{Build, Runtime, Info, version_info}
use my_learning_journey.Api.Generic.{
  ProviderConfig, Informers, ApiGroupInfo, MetricsApi, install_storage,
}

-- `strings.Split(text, "-")[0]`: the text before the first dash, which has the code 45.
unfoldable pub before_dash : String → String
before_dash Text.[] = ""
before_dash (Text.◌∷◌ c s) = elim (nat_eq (code c) 45) [
  | true ↦ ""
  | false ↦ Text.◌∷◌ c (before_dash s)
]

-- The part of `OpenAPIConfig` that is set after its defaults.
pub record OpenApiConfig : Type 0 where
  pub title : String
  pub version : String

-- `genericapiserver.Config`, with the fields that the program sets.
pub record GenericConfig : Type 0 where
  pub enable_metrics : Bool
  pub version : Option Info
  pub open_api_config : Option OpenApiConfig

pub record Config (Quantity : Type 0) : Type 0 where
  pub generic_config : GenericConfig
  pub provider_config : ProviderConfig Quantity

-- The apiserver library: `Info.String`, `Config.Complete`, `CompletedConfig.New` of a server's
-- name, and `InstallAPIGroup`, which changes the server.
pub record ServerLibrary (Completed Server Quantity : Type 0) : Type 0 where
  pub info_text : Info → String
  pub complete : GenericConfig → Completed
  pub new : Completed → (name : String) → Result Error Server
  pub install_api_group : ApiGroupInfo Quantity → Server → Result Error Server

-- `completedConfig`; the informers are those that `Complete` was given.
pub record CompletedConfig (Completed Quantity : Type 0) : Type 0 where
  pub completed_config : Completed
  pub provider_config : ProviderConfig Quantity
  pub informers : Informers

module _ {Completed Server Quantity : Type 0}
    (library : ServerLibrary Completed Server Quantity) where
  -- The generic configuration that `Complete` leaves.
  unfoldable pub completed_generic : Build → Runtime → GenericConfig → GenericConfig
  unfolding version_info before_dash
  completed_generic build runtime c = record c {
    version = some (version_info build runtime);
    open_api_config = some (record {
      title = "Kubernetes metrics-server";
      version = before_dash (library.info_text (version_info build runtime));
    });
  }

  unfoldable pub complete :
      Build → Runtime → Config Quantity → Informers → CompletedConfig Completed Quantity
  unfolding completed_generic
  complete build runtime c informers = record {
    completed_config = library.complete (completed_generic build runtime c.generic_config);
    provider_config = c.provider_config;
    informers = informers;
  }

  -- `New`: the server with the API group in it.
  unfoldable pub new_metrics_server :
      MetricsApi → CompletedConfig Completed Quantity → Result Error Server
  unfolding install_storage
  new_metrics_server api c = elim (library.new c.completed_config "metrics-server") [
    | err e ↦ err e
    | ok server ↦ install_storage api library.install_api_group c.provider_config c.informers server
  ]
