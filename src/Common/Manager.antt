-- ===== src/Common/Manager.antt =====
-- What the programs of the three managers share (cmd/main.go of upgrade-orchestrator,
-- cert-monitor-operator and kafka-access-monitor-operator, which have this part word for word): the
-- flags, the options of the servers, the exits, and of controller-runtime what they call.
use Prim.Native.Nat.{ℕ}
use Prim.Native.String.{String}
use mathlib.Core.Bool.{Bool, true, false}
use mathlib.Core.Option.{Option, none, some}
use mathlib.Core.List.{List, [], ◌∷◌}
use nacho_operators.Common.Tests.{if◌then◌else◌}
use nacho_operators.Common.Effects.{Result, Go, pure, attempt}

-- Of `tls.Config` the field that the programs write.
pub record TlsConfig : Type 0 where
  pub next_protos : List String

-- `func(*tls.Config)`
abbrev pub TlsOption : Type 0
TlsOption = TlsConfig → TlsConfig

pub data FilterProvider : Type 0 where
  with_authentication_and_authorization : FilterProvider

-- `metricsserver.Options`
pub record MetricsOptions : Type 0 where
  pub bind_address : String
  pub secure_serving : Bool
  pub tls_opts : List TlsOption
  pub filter_provider : Option FilterProvider

-- `ctrl.Options`; the webhook server is the options that it is made from, and no namespaces in the
-- cache are all of them.
pub record ManagerOptions : Type 0 where
  pub metrics : MetricsOptions
  pub webhook_tls_opts : List TlsOption
  pub health_probe_bind_address : String
  pub leader_election : Bool
  pub leader_election_id : String
  pub default_namespaces : List String

-- The values of the flags after `flag.Parse`, by name and default.
pub record Flags : Type 0 where
  pub string_flag : String → String → String
  pub bool_flag : String → Bool → Bool

pub data Predicate : Type 0 where
  generation_changed_predicate : Predicate

-- What `ctrl.NewControllerManagedBy(mgr)` is told: the kind of `For` with its predicates, the kinds
-- of `Owns`, and the kinds of `Watches`.
pub record Builder : Type 0 where
  pub for_kind : String
  pub predicates : List Predicate
  pub owns : List String
  pub watches : List String

-- How a program ends: `main` returns, or `os.Exit` is called, which runs no deferred call.
pub data Exit : Type 0 where
  returned : Exit
  exits : ℕ → Exit

-- Package flag and controller-runtime. `get_config_or_die` is none where the library calls
-- `os.Exit(1)`; `start` returns when the manager has stopped.
pub record Runtime : Type 1 where
  pub World : Type 0
  pub Config : Type 0
  pub Manager : Type 0
  pub flags : Flags
  pub get_config_or_die : World → Option Config
  pub new_manager : Config → ManagerOptions → Go World (Result Manager)
  pub complete : Manager → Builder → Go World (Result (Unit {0}))
  pub add_healthz_check : Manager → String → Go World (Result (Unit {0}))
  pub add_readyz_check : Manager → String → Go World (Result (Unit {0}))
  pub start : Manager → Go World (Result (Unit {0}))

-- `disableHTTP2`
unfoldable pub disable_http2 : TlsOption
disable_http2 c = record c { next_protos = "http/1.1" ∷ [] }

unfoldable pub tls_options : Flags → List TlsOption
unfolding disable_http2
tls_options f = if f.bool_flag "enable-http2" false then [] else disable_http2 ∷ []

unfoldable pub metrics_server_options : Flags → MetricsOptions
unfolding tls_options
metrics_server_options f = record {
  bind_address = f.string_flag "metrics-bind-address" "0";
  secure_serving = f.bool_flag "metrics-secure" true;
  tls_opts = tls_options f;
  filter_provider =
      if f.bool_flag "metrics-secure" true
      then some with_authentication_and_authorization
      else none;
}

-- The options of a manager, with the election's id and the namespaces of the cache.
unfoldable pub options_with : Flags → String → List String → ManagerOptions
unfolding metrics_server_options tls_options
options_with f id namespaces = record {
  metrics = metrics_server_options f;
  webhook_tls_opts = tls_options f;
  health_probe_bind_address = f.string_flag "health-probe-bind-address" ":8081";
  leader_election = f.bool_flag "leader-elect" false;
  leader_election_id = id;
  default_namespaces = namespaces;
}

-- `if err := call; err != nil { os.Exit(1) }`
abbrev pub or_exit {ℓ κ} : {W : Type ℓ} {A : Type κ} → Go W (Result A) → (A → Go W Exit) → Go W Exit
or_exit call good = attempt call (λ _. pure (exits 1)) good

module _ (R : Runtime) where
  open R use {
    World, Config, Manager, get_config_or_die, new_manager, add_healthz_check, add_readyz_check,
    start,
  }

  -- `ctrl.NewManager(ctrl.GetConfigOrDie(), options)`
  abbrev pub with_manager : ManagerOptions → (Manager → Go World Exit) → Go World Exit
  with_manager options good w = elim (get_config_or_die w) [
    | none ↦ (exits 1, w)
    | some config ↦ or_exit (new_manager config options) good w
  ]

  -- From the health checks to the end, and what is deferred.
  unfoldable pub serve : Manager → Go World (Unit {0}) → Go World Exit
  serve mgr deferred = or_exit (add_healthz_check mgr "healthz") λ _.
      or_exit (add_readyz_check mgr "readyz")
        λ _. or_exit (start mgr) (λ _ w. let (_, w') = deferred w in (returned, w'))
