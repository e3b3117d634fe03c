-- ===== src/Kafka/Manager/SetUp.antt =====
-- How kafka-access-monitor-operator/cmd/main.go makes the reconciler: its settings from files and
-- from the environment, and its clients of Google Cloud.
use nacho_operators.Common.{
  String, ◌<>◌, ◌==◌, List, [], ◌∷◌, if◌then◌else◌, errorf, wrapped, Result, ok, err, check, Go,
  pure, attempt,
}
use nacho_operators.Common.Dict
use nacho_operators.Common.Dict.{Dict}
use nacho_operators.Common.Strings.{trim_space}
use nacho_operators.Common.Manager.{Runtime}
use nacho_operators.Kafka.Manager.Indexes.{Object}

-- What the program takes from packages os and yaml, from the clients of Google Cloud and from
-- client-go, besides controller-runtime.
pub record Platform : Type 1 where
  pub runtime : Runtime
  pub open runtime use *
  pub index_field : Manager → String → (Object → List String) → Go World (Result (Unit {0}))
  pub read_file : String → World → Result String
  pub unmarshal_rules : String → Result (Dict (List String))
  -- `os.Getenv("EXECUTION_ENVIRONMENT")`
  pub execution_environment : String
  -- The entries of a map, in the order in which `range` visits them.
  pub range : World → Dict String → Dict String
  pub LogClient : Type 0
  pub new_log_client : String → Go World (Result LogClient)
  pub close_log_client : LogClient → Go World (Result (Unit {0}))
  pub QueryClient : Type 0
  pub new_query_client : Go World (Result QueryClient)
  pub close_query_client : QueryClient → Go World (Result (Unit {0}))
  pub Clientset : Type 0
  pub new_for_config : Manager → Result Clientset

-- `SlackReporter` and `GeminiAnalyzer`, but for the timeouts of their clients
pub record SlackReporter : Type 0 where
  pub webhook_url : String

unfoldable pub new_slack_reporter : String → SlackReporter
new_slack_reporter url = record { webhook_url = url }

pub record GeminiAnalyzer : Type 0 where
  pub api_key : String
  pub model : String

unfoldable pub new_gemini_analyzer : String → GeminiAnalyzer
new_gemini_analyzer key = record { api_key = key; model = "gemini-1.5-flash" }

-- What is made before the clients of Google Cloud; the parser is its rules.
pub record Settings : Type 0 where
  pub slack_reporter : SlackReporter
  pub rules : Dict (List String)
  pub ai_analyzer : GeminiAnalyzer

module _ (P : Platform) where
  open P use {
    World, Manager, read_file, unmarshal_rules, execution_environment, range, LogClient,
    QueryClient, new_log_client, new_query_client,
  }

  -- `DynamicParser`, by its rules
  unfoldable pub new_dynamic_parser : String → World → Result (Dict (List String))
  new_dynamic_parser path w =
      check (read_file path w) (λ e. err (wrapped "failed to read parser config file: %w" e))
        λ yaml_file.
          check (unmarshal_rules yaml_file)
            (λ e. err (wrapped "failed to unmarshal parser rules: %w" e)) ok

  unfoldable pub read_settings : World → Result Settings
  unfolding new_dynamic_parser new_slack_reporter new_gemini_analyzer
  read_settings w = check (read_file "/etc/slack/notificationEndpoint" w) err λ endpoint.
      check (new_dynamic_parser "/etc/parser-config/rules.yaml" w) err λ rules.
        check (read_file "/etc/ai/apiKey" w) err λ key.
          if trim_space key == ""
          then err (errorf "AI API key is empty")
          else ok (record {
            slack_reporter = new_slack_reporter (trim_space endpoint);
            rules = rules;
            ai_analyzer = new_gemini_analyzer (trim_space key);
          })

  abbrev pub env : String
  env = if execution_environment == "" then "sta" else execution_environment

  unfoldable pub broker_projects : Dict String
  broker_projects =
      ("bss", "mm-kafka-bss-" <> env)
      ∷ ("cdr", "mm-kafka-cdr-" <> env)
      ∷ ("corp", "mm-kafka-corp-" <> env)
      ∷ []

  unfoldable pub metrics_project_id : String
  metrics_project_id = if env == "prod" then "mm-k8s-prod-01" else "mm-k8s-dev-01"

  -- The map of finders, and the clients whose closing is deferred, the last one first.
  pub record Finders : Type 0 where
    pub by_cluster : Dict LogClient
    pub deferred : List LogClient

  abbrev pub no_finders : Finders
  no_finders = record { by_cluster = []; deferred = [] }

  abbrev pub with_finder : String → Finders → Result LogClient → Finders
  with_finder key found (err e) = found
  with_finder key found (ok finder) = record {
    by_cluster = Dict.insert key finder found.by_cluster;
    deferred = finder ∷ found.deferred;
  }

  unfoldable pub new_broker_log_finder : String → Go World (Result LogClient)
  new_broker_log_finder project =
      attempt (new_log_client project)
        (λ e. pure (err (wrapped "failed to create logadmin client: %w" e)))
        (λ client. pure (ok client))

  -- The loop over the projects; a client that cannot be made is logged, and passed over.
  unfoldable pub open_log_finders : Dict String → Finders → Go World Finders
  unfolding new_broker_log_finder
  open_log_finders [] found w = (found, w)
  open_log_finders ((key, project) ∷ rest) found w =
      let (made, w') = new_broker_log_finder project w in
      open_log_finders rest (with_finder key found made) w'

  -- `GCPMetricsFinder`
  pub record MetricsFinder : Type 0 where
    pub client : QueryClient
    pub project_id : String

  unfoldable pub new_gcp_metrics_finder : String → Go World (Result MetricsFinder)
  new_gcp_metrics_finder project =
      attempt new_query_client
        (λ e. pure (err (wrapped "failed to create monitoring query client: %w" e)))
        (λ client. pure (ok (record { client = client; project_id = project })))

  -- `KafkaAccessQueryReconciler`, as `main` makes it
  pub record Reconciler : Type 0 where
    pub settings : Settings
    pub broker_log_finders : Finders
    pub metrics_finder : MetricsFinder

  -- The clients of Google Cloud, and the reconciler that they are given to.
  unfoldable pub with_clients : Settings → Go World (Result Reconciler)
  unfolding broker_projects open_log_finders metrics_project_id new_gcp_metrics_finder
  with_clients settings w =
      let (finders, w') = open_log_finders (range w broker_projects) no_finders w in
      attempt (new_gcp_metrics_finder metrics_project_id) (λ e. pure (err e))
        (λ metrics. pure (
          ok (record {
            settings = settings;
            broker_log_finders = finders;
            metrics_finder = metrics;
          })))
        w'

  -- From the reading of the files to the finder of metrics.
  unfoldable pub make_reconciler : Go World (Result Reconciler)
  unfolding read_settings with_clients
  make_reconciler w =
      check (read_settings w) (λ e. (err e, w)) (λ settings. with_clients settings w)
