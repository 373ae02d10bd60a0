-- ===== src/Process.antt =====
-- cmd/main.go: the operator's process, from its flags to the running manager. The module Namespaces
-- has WATCH_NAMESPACE.
pub mod Namespaces
pub mod Startup
use gmos_k8s_operator.Prelude.{
  String, Option, none, some, Bool, true, false, not, List, [], ◌∷◌, if◌then◌else◌,
}
use gmos_k8s_operator.Dict.{Dict}
use gmos_k8s_operator.Exec.{Error, Result, Exec, pure, crash, lift, gets, attempt, ◌>>=◌, ◌>>◌}
use gmos_k8s_operator.Scheme.{SchemeBuilder, scheme_builder}
use gmos_k8s_operator.Process.Namespaces.{get_watch_namespaces}

-- The variables that `flag` fills.
pub record Flags : Type 0 where
  pub metrics_addr : String
  pub probe_addr : String
  pub enable_leader_election : Bool
  pub secure_metrics : Bool
  pub enable_http2 : Bool

abbrev pub default_flags : Flags
default_flags = record {
  metrics_addr = ":8080";
  probe_addr = ":8081";
  enable_leader_election = false;
  secure_metrics = false;
  enable_http2 = false;
}

-- tls.Config, with the field that is set
pub record TlsConfig : Type 0 where
  pub next_protos : List String

unfoldable pub disable_http2 : TlsConfig → TlsConfig
disable_http2 c = record c { next_protos = "http/1.1" ∷ [] }

unfoldable pub tls_opts : Flags → List (TlsConfig → TlsConfig)
unfolding disable_http2
tls_opts flags = if not flags.enable_http2 then disable_http2 ∷ [] else []

-- ctrl.Options, with those of its metrics and webhook servers and of its cache
pub record ManagerOptions : Type 0 where
  pub metrics_bind_address : String
  pub metrics_secure_serving : Bool
  pub metrics_tls_opts : List (TlsConfig → TlsConfig)
  pub webhook_tls_opts : List (TlsConfig → TlsConfig)
  pub health_probe_bind_address : String
  pub leader_election : Bool
  pub leader_election_id : String
  pub default_namespaces : Dict (Unit {0})

unfoldable pub manager_options : Flags → Dict (Unit {0}) → ManagerOptions
unfolding tls_opts
manager_options flags namespaces = record {
  metrics_bind_address = flags.metrics_addr;
  metrics_secure_serving = flags.secure_metrics;
  metrics_tls_opts = tls_opts flags;
  webhook_tls_opts = tls_opts flags;
  health_probe_bind_address = flags.probe_addr;
  leader_election = flags.enable_leader_election;
  leader_election_id = "80f0966d.chtc.wisc.edu";
  default_namespaces = namespaces;
}

-- The types whose resources the operator's controllers reconcile.
pub data ControllerKind : Type 0 where
  glidein_set_collections glidein_sets : ControllerKind

-- flag, os, apimachinery and controller-runtime.
pub record Runtime (W : Type 0) : Type 1 where
  pub Manager : Type 0
  -- utilruntime.Must
  pub must : Exec W (Unit {0}) → Exec W (Unit {0})
  -- AddToScheme of client-go's types, and of a builder
  pub add_client_types : Exec W (Unit {0})
  pub add_to_scheme : SchemeBuilder → Exec W (Unit {0})
  -- flag.Parse, into variables with these values
  pub parse_flags : Flags → Exec W Flags
  pub lookup_env : String → W → Option String
  pub new_manager : ManagerOptions → Exec W Manager
  -- NewControllerManagedBy(mgr).For(...).Complete(r)
  pub complete_controller : Manager → ControllerKind → Exec W (Unit {0})
  pub add_healthz_check : Manager → String → Exec W (Unit {0})
  pub add_readyz_check : Manager → String → Exec W (Unit {0})
  pub start : Manager → Exec W (Unit {0})

module _ {W : Type 0} (rt : Runtime W) where
  -- the package's `init`
  unfoldable pub init : Exec W (Unit {0})
  unfolding scheme_builder ◌>>=◌
  init = do rt.must rt.add_client_types; rt.must (rt.add_to_scheme scheme_builder)

  unfoldable pub collections_setup_with_manager : rt.Manager → Exec W (Unit {0})
  collections_setup_with_manager mgr = rt.complete_controller mgr glidein_set_collections

  unfoldable pub glidein_sets_setup_with_manager : rt.Manager → Exec W (Unit {0})
  glidein_sets_setup_with_manager mgr = rt.complete_controller mgr glidein_sets

  -- The body of `main`: each error is logged and ends the process with `os.Exit(1)`.
  unfoldable pub main : Exec W (Unit {0})
  unfolding get_watch_namespaces manager_options collections_setup_with_manager
      glidein_sets_setup_with_manager ◌>>=◌
  main = do
    flags ← rt.parse_flags default_flags
    env ← gets (rt.lookup_env "WATCH_NAMESPACE")
    ns ← lift (get_watch_namespaces env)
    mgr ← rt.new_manager (manager_options flags ns)
    collections_setup_with_manager mgr
    glidein_sets_setup_with_manager mgr
    rt.add_healthz_check mgr "healthz"
    rt.add_readyz_check mgr "readyz"
    rt.start mgr
