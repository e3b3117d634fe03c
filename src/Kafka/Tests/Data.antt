-- ===== src/Kafka/Tests/Data.antt =====
-- A query, a pod with an event, and problems, for the tests of the monitor.
use nacho_operators.Common.{
  ℕ, String, false, none, some, List, [], ◌∷◌, ok, NamespacedName, LabelSelector,
}
use nacho_operators.Common.Int.{pos}
use nacho_operators.Common.Meta.{local, Time}
use nacho_operators.Kafka.Types.{
  Spec, ProblemDetail, PodAccessInfo, KafkaAccessQuery, Container, Pod,
}
use nacho_operators.Kafka.Diagnostics.{Observation}
use nacho_operators.Kafka.Analysis.{AiResult}
use nacho_operators.Kafka.Memory.{Cluster}

abbrev pub at : ℕ → Time
at n = record { instant = n; form = local }

abbrev pub container : Container
container = record {
  name = "main";
  env = record { name = "BOOTSTRAP"; value = "b.bss.kafka:9092"; config_map_key = none } ∷ [];
}

abbrev pub app : Pod
app = record {
  name = "app";
  namespace = "shop";
  is_deleting = false;
  phase = "Running";
  containers = container ∷ [];
  init_containers = [];
  volumes = [];
}

abbrev pub spec : Spec
spec = record {
  namespace_selector = none;
  pod_selector = some (record { match_labels = []; match_expressions = [] });
  kafka_broker_pattern = "";
  config_map_keys = [];
  environment_variable_names = "BOOTSTRAP" ∷ [];
  requeue_interval = "";
  error_log_scan_interval = "";
  ai_analysis_enabled = some false;
}

abbrev pub query : KafkaAccessQuery
query = record {
  namespace = "shop";
  name = "query";
  generation = pos 1;
  spec = spec;
  status = record {
    last_update_time = some (at 5);
    observed_generation = pos 1;
    accessing_pods = [];
    total_pods_scanned = 0;
    total_pods_with_kafka_access = 0;
    conditions = [];
  };
}

abbrev pub cluster : Cluster
cluster = record {
  nanoseconds = 10;
  query = query;
  pods = (("app", "web") ∷ [], app) ∷ [];
  events = record { reason = "Unhealthy"; message = "no answer"; last_timestamp = at 7 } ∷ [];
  requests = [];
  logged = [];
}

abbrev pub web : LabelSelector
web = record { match_labels = ("app", "web") ∷ []; match_expressions = [] }

abbrev pub other_labels : LabelSelector
other_labels = record { match_labels = ("app", "other") ∷ []; match_expressions = [] }

abbrev pub observed : String → ℕ → Observation
observed message n = record { message = message; kind = "Error"; timestamp = at n }

abbrev pub observations : List Observation
observations = observed "a" 3 ∷ observed "b" 4 ∷ observed "a" 2 ∷ []

abbrev pub problem : ProblemDetail
problem = record {
  kind = "Error";
  message = "a";
  count = pos 1;
  last_seen_timestamp = at 3;
  broker_cpu_utilization = "";
  broker_network_bytes_in = "";
  broker_under_replicated = pos 0;
  ai_analysis = "";
  broker_log_snippets = [];
}

abbrev pub info : PodAccessInfo ℕ
info = record {
  pod_name = "app";
  namespace = "shop";
  client_type = "Consumer";
  detected_broker_endpoints = "b.bss.kafka:9092" ∷ [];
  schema_registry_url = "";
  container_name = "main";
  source_of_endpoint = "env:BOOTSTRAP";
  client_id = "";
  group_id = "group";
  auto_offset_reset = "";
  auto_commit = none;
  additional_config = [];
  topics = [];
  max_poll_records = pos 0;
  max_poll_interval_ms = pos 0;
  service_account_email = "";
  preferred_user_name = "";
  authorized_tenants = [];
  authorized_roles = [];
  recent_problems = 0;
}

abbrev pub result : String → String → AiResult
result message text = record {
  pod_name = "app";
  problem_message = message;
  analysis = ok text;
  broker_log_snippets = [];
}

abbrev pub key : NamespacedName
key = record { namespace = "shop"; name = "query" }

-- The query with no selector.
abbrev pub bare_query : KafkaAccessQuery
bare_query = record query { spec = record spec { pod_selector = none } }

-- A pod with a problem, as the status has it.
abbrev pub reported : PodAccessInfo (List ProblemDetail)
reported = record {
  pod_name = "app";
  namespace = "shop";
  client_type = "Consumer";
  detected_broker_endpoints = "b.bss.kafka:9092" ∷ [];
  schema_registry_url = "";
  container_name = "main";
  source_of_endpoint = "env:BOOTSTRAP";
  client_id = "";
  group_id = "group";
  auto_offset_reset = "";
  auto_commit = none;
  additional_config = [];
  topics = [];
  max_poll_records = pos 0;
  max_poll_interval_ms = pos 0;
  service_account_email = "";
  preferred_user_name = "";
  authorized_tenants = [];
  authorized_roles = [];
  recent_problems = problem ∷ [];
}
