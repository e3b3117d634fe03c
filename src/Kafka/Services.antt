-- ===== src/Kafka/Services.antt =====
-- What the Kafka access monitor takes from outside the repository: the Kubernetes clients, package
-- labels, JSON and YAML, HTTP, Google Cloud, floating-point numbers and the formats of packages fmt
-- and time, the order of iteration over a map, and the order in which goroutines deliver.
use nacho_operators.Common.{String, Bool, Option, List, Error, Result, Go, NamespacedName, Labels}
use nacho_operators.Common.Dict.{Dict}
use nacho_operators.Common.Int.{ℤ}
use nacho_operators.Common.Meta.{Time, Request, Response}
use nacho_operators.Kafka.Yaml.{Fields}
use nacho_operators.Kafka.Types.{
  KafkaAccessQuery, Pod, ConfigMap, Event, LogStream, ServiceAccountDetail, LogEntry,
  GeminiResponse, Task, ListOption, LogValue,
}

pub record Services : Type 1 where
  pub World : Type 0
  pub now : World → Time
  -- The keys of a map, in the order in which `range` visits them.
  pub range_order : World → List String → List String
  -- The order in which the goroutines of these tasks call the service and deliver.
  pub arrival : World → List Task → List Task
  -- `log.Info`, with a message and with keys and values
  pub log_info : String → Dict LogValue → Go World (Unit {0})
  pub labels : Labels
  pub open labels use *
  pub is_not_found : Error → Bool
  -- The verb `%v`
  pub error_text : Error → String
  -- `os.Getenv("EXECUTION_ENVIRONMENT")`
  pub execution_environment : String
  pub parse_duration : String → Result ℤ
  pub get_query : NamespacedName → World → Result KafkaAccessQuery
  pub status_update : KafkaAccessQuery → Go World (Result (Unit {0}))
  pub retry_on_conflict : Go World (Result (Unit {0})) → Go World (Result (Unit {0}))
  pub list_pods : List (ListOption Selector) → World → Result (List Pod)
  -- Pods of a namespace by a set of labels.
  pub list_pods_labelled : String → Dict String → World → Result (List Pod)
  pub get_config_map : NamespacedName → World → Result ConfigMap
  pub get_secret : NamespacedName → World → Result (Dict String)
  -- The warning events of a pod, by namespace and name.
  pub list_warning_events : String → String → World → Result (List Event)
  -- `GetLogs(…).Stream`: namespace, pod, container, and how many seconds back.
  pub log_stream : String → String → String → ℤ → World → Result LogStream
  -- The field `client_email`
  pub unmarshal_service_account : String → Result String
  -- The values of `service_accounts`, in the order of `range`.
  pub unmarshal_authn : String → Result (List ServiceAccountDetail)
  pub unmarshal_yaml : String → Result Fields
  pub rules : Dict (List String)
  pub new_request : String → Option Error
  pub http_do : Request → Go World (Result Response)
  -- The JSON of a Slack message and of a request to Gemini, with this text
  pub marshal_prompt : String → Result String
  pub marshal_text : String → Result String
  pub webhook_url : String
  -- `time.Now().Format("2006-01-02 15:04:05 MST")`, `time.RFC3339` and the format of MQL, in UTC
  pub format_time : Time → String
  pub format_rfc3339 : Time → String
  pub format_mql : Time → String
  -- The verb `%q`
  pub quote : String → String
  -- `sort.Slice`, which leaves the order of equal elements open
  pub sort_slice : {A : Type 0} → (A → A → Bool) → List A → List A
  pub api_key : String
  pub unmarshal_gemini : String → Result GeminiResponse
  -- The clusters with a finder of broker logs.
  pub log_clusters : List String
  -- The entries that the iterator gives before it ends or fails: by cluster and filter.
  pub log_entries : String → String → World → List LogEntry × Option Error
  pub has_metrics_finder : Bool
  pub Float : Type 0
  pub zero_float : Float
  -- The verbs `%f`, and `%.2f` of a hundredfold
  pub format_float : Float → String
  pub format_percent : Float → String
  -- The first answer of `QueryTimeSeries`, if there is one: the values of its points.
  pub query_time_series : String → World → Result (Option (List (List Float)))
