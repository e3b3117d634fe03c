-- ===== src/Kafka/Types.antt =====
-- The API types of kafka-access-monitor-operator/api/v1alpha1/kafkaaccessquery_types.go, those of the
-- packages discovery and ai, and of Kubernetes the fields that the operator reads.
use nacho_operators.Common.{ℕ, String, Bool, Option, List, Error, LabelSelector}
use nacho_operators.Common.Dict.{Dict}
use nacho_operators.Common.Int.{ℤ}
use nacho_operators.Common.Meta.{Time, Condition}
use nacho_operators.Kafka.Parser.{TopicInfo}

pub record Spec : Type 0 where
  pub namespace_selector : Option LabelSelector
  pub pod_selector : Option LabelSelector
  pub kafka_broker_pattern : String
  pub config_map_keys : Dict (List String)
  pub environment_variable_names : List String
  pub requeue_interval : String
  pub error_log_scan_interval : String
  pub ai_analysis_enabled : Option Bool

-- `count` is an int32.
pub record ProblemDetail : Type 0 where
  pub kind : String
  pub message : String
  pub count : ℤ
  pub last_seen_timestamp : Time
  pub broker_cpu_utilization : String
  pub broker_network_bytes_in : String
  pub broker_under_replicated : ℤ
  pub ai_analysis : String
  pub broker_log_snippets : List String

-- A slice shares its elements with its copies. `P` is the list of problems where the value stands
-- alone, as in the API, and the handle of a slice where it is being worked on.
pub record PodAccessInfo (P : Type 0) : Type 0 where
  pub pod_name : String
  pub namespace : String
  pub client_type : String
  pub detected_broker_endpoints : List String
  pub schema_registry_url : String
  pub container_name : String
  pub source_of_endpoint : String
  pub client_id : String
  pub group_id : String
  pub auto_offset_reset : String
  pub auto_commit : Option Bool
  pub additional_config : Dict String
  pub topics : List TopicInfo
  pub max_poll_records : ℤ
  pub max_poll_interval_ms : ℤ
  pub service_account_email : String
  pub preferred_user_name : String
  pub authorized_tenants : List String
  pub authorized_roles : List String
  pub recent_problems : P

pub record Status : Type 0 where
  pub last_update_time : Option Time
  pub observed_generation : ℤ
  pub accessing_pods : List (PodAccessInfo (List ProblemDetail))
  pub total_pods_scanned : ℕ
  pub total_pods_with_kafka_access : ℕ
  pub conditions : List Condition

pub record KafkaAccessQuery : Type 0 where
  pub namespace : String
  pub name : String
  pub generation : ℤ
  pub spec : Spec
  pub status : Status

pub record KeyRef : Type 0 where
  pub name : String
  pub key : String

-- `config_map_key` is `ValueFrom.ConfigMapKeyRef`, where both are given.
pub record EnvVar : Type 0 where
  pub name : String
  pub value : String
  pub config_map_key : Option KeyRef

pub record Container : Type 0 where
  pub name : String
  pub env : List EnvVar

-- The names of the config map and of the secret that a volume is made from.
pub record Volume : Type 0 where
  pub name : String
  pub config_map : Option String
  pub secret : Option String

pub record Pod : Type 0 where
  pub name : String
  pub namespace : String
  pub is_deleting : Bool
  pub phase : String
  pub containers : List Container
  pub init_containers : List Container
  pub volumes : List Volume

-- The entries of `data` stand in the order in which `range` visits them.
pub record ConfigMap : Type 0 where
  pub name : String
  pub entries : Dict String

pub record Event : Type 0 where
  pub reason : String
  pub message : String
  pub last_timestamp : Time

-- What `ReadString` gives until it fails or ends: the lines, with their newlines.
pub record LogStream : Type 0 where
  pub lines : List String
  pub failure : Option Error

pub record TenantDetail : Type 0 where
  pub id : ℤ
  pub org : String

pub record ServiceAccountDetail : Type 0 where
  pub id : String
  pub client_email : String
  pub preferred_username : String
  pub tenants : Dict TenantDetail

-- A log entry of Google Cloud; the payload is the text, or the message of a JSON payload, or "".
pub record LogEntry : Type 0 where
  pub timestamp : Time
  pub severity : String
  pub payload : String

pub record GeminiContent : Type 0 where
  pub parts : List String
  pub role : String

pub record GeminiResponse : Type 0 where
  pub candidates : List GeminiContent
  pub block_reason : String

-- A problem with what a goroutine is given for it.
pub record Task : Type 0 where
  pub info : PodAccessInfo ℕ
  pub problem : ProblemDetail
  pub broker_logs : List String

-- An option of a list call: `client.MatchingLabelsSelector` or `client.InNamespace`.
pub data ListOption (Selector : Type 0) : Type 0 where
  matching_labels_selector : Selector → ListOption Selector
  in_namespace : String → ListOption Selector

-- A value of an entry of the log; a nil pointer to a bool is none.
pub data LogValue : Type 0 where
  text : String → LogValue
  number : ℤ → LogValue
  flag : Option Bool → LogValue
