-- ===== src/Kafka/Logging.antt =====
-- Which events a list of pods leaves in the log.
use nacho_operators.Common.{String, ◌≡◌, sym, List, [], ◌∷◌, ◌++◌, append-nil, append_assoc, map}
use nacho_operators.Common.Dict.{Dict}
use nacho_operators.Common.Strings.{join}
use nacho_operators.Kafka.Parser.{TopicInfo}
use nacho_operators.Kafka.Types.{ProblemDetail, PodAccessInfo, LogValue, text, number, flag}
use nacho_operators.Kafka.Services.{Services}
use nacho_operators.Kafka.Events.{access_event, topic_subjects, log_problems, log_events}

-- An entry is added at the end of the log.
pub record KeepsLog (S : Services) : Type 0 where
  pub log : S.World → List (String × Dict LogValue)
  pub log-log_info :
      (message : String) (fields : Dict LogValue) (w : S.World)
      → log (S.log_info message fields w).1 ≡ log w ++ ((message, fields) ∷ [])

-- The pod and whom it runs for.
abbrev of_pod : PodAccessInfo (List ProblemDetail) → Dict LogValue
of_pod pod =
    ("pod_namespace", text pod.namespace)
    ∷ ("pod_name", text pod.pod_name)
    ∷ ("container_name", text pod.container_name)
    ∷ ("service_account_email", text pod.service_account_email)
    ∷ ("preferred_user_name", text pod.preferred_user_name)
    ∷ ("authorized_tenants", text (join pod.authorized_tenants ","))
    ∷ []

-- The client and the brokers and topics that it uses.
abbrev of_client : PodAccessInfo (List ProblemDetail) → Dict LogValue
of_client pod =
    ("client_type", text pod.client_type)
    ∷ ("client_id", text pod.client_id)
    ∷ ("group_id", text pod.group_id)
    ∷ ("detected_broker_endpoints", text (join pod.detected_broker_endpoints ","))
    ∷ ("schema_registry_url", text pod.schema_registry_url)
    ∷ ("source_of_endpoint", text pod.source_of_endpoint)
    ∷ ("topics", text (join (map (λ (t : TopicInfo). t.subject) pod.topics) ","))
    ∷ []

abbrev of_problem : ProblemDetail → Dict LogValue
of_problem problem =
    ("problem_type", text problem.kind)
    ∷ ("problem_message", text problem.message)
    ∷ ("problem_count", number problem.count)
    ∷ ("ai_analysis", text problem.ai_analysis)
    ∷ ("broker_log_snippets", text (join problem.broker_log_snippets "\n---\n"))
    ∷ []

abbrev of_settings : PodAccessInfo (List ProblemDetail) → Dict LogValue
of_settings pod =
    ("auto_offset_reset", text pod.auto_offset_reset)
    ∷ ("auto_commit", flag pod.auto_commit)
    ∷ ("max_poll_records", number pod.max_poll_records)
    ∷ ("max_poll_interval_ms", number pod.max_poll_interval_ms)
    ∷ []

abbrev of_brokers : ProblemDetail → Dict LogValue
of_brokers problem =
    ("broker_cpu_utilization", text problem.broker_cpu_utilization)
    ∷ ("broker_network_bytes_in", text problem.broker_network_bytes_in)
    ∷ ("broker_under_replicated", number problem.broker_under_replicated)
    ∷ []

-- The event of a problem of a pod.
abbrev event : PodAccessInfo (List ProblemDetail) → ProblemDetail → String × Dict LogValue
event pod problem = (
  "KafkaAccessEvent",
  of_pod pod ++ of_client pod ++ of_problem problem ++ of_settings pod ++ of_brokers problem,
)

-- An event for each problem of each pod.
abbrev pub events_of : List (PodAccessInfo (List ProblemDetail)) → List (String × Dict LogValue)
events_of [] = []
events_of (pod ∷ pods) = map (event pod) pod.recent_problems ++ events_of pods

module _ (S : Services) (law : KeepsLog S) where
  log-log_problems :
      (pod : PodAccessInfo (List ProblemDetail)) (problems : List ProblemDetail) (w : S.World)
      → law.log (log_problems S pod problems w).1 ≡ law.log w ++ map (event pod) problems
  unfolding log_problems access_event topic_subjects
  log-log_problems pod [] w = sym (append-nil (law.log w))
  log-log_problems pod (problem ∷ problems) w =
      simp (log-log_problems pod problems, law.log-log_info, append_assoc)

  -- The loop leaves one event in the log for each problem of each pod, in order, and keeps what the log
  -- had. The event has, under their keys, the pod and whom it runs for, the client with its brokers and
  -- the subjects of its topics, the problem, the settings of the consumer and the state of the brokers;
  -- texts of a list are joined. An entry is added at the end of the log.
  pub log-log_events :
      (pods : List (PodAccessInfo (List ProblemDetail))) (w : S.World)
      → law.log (log_events S pods w).1 ≡ law.log w ++ events_of pods
  unfolding log_events
  log-log_events [] w = sym (append-nil (law.log w))
  log-log_events (pod ∷ pods) w =
      simp (log-log_events pods, log-log_problems pod pod.recent_problems, append_assoc)
