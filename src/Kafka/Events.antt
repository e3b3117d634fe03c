-- ===== src/Kafka/Events.antt =====
-- The last loop of Reconcile of
-- kafka-access-monitor-operator/internal/controller/kafkaaccessquery_controller.go, which writes an
-- event to the log for each problem; a sink of the log takes the events to BigQuery.
use nacho_operators.Common.{String, List, [], ◌∷◌, map, Go}
use nacho_operators.Common.Dict.{Dict}
use nacho_operators.Common.Strings.{join}
use nacho_operators.Kafka.Parser.{TopicInfo}
use nacho_operators.Kafka.Types.{ProblemDetail, PodAccessInfo, LogValue, text, number, flag}
use nacho_operators.Kafka.Services.{Services}

-- `getTopicsAsString` of the package controller
unfoldable pub topic_subjects : List TopicInfo → String
topic_subjects topics = join (map (λ (t : TopicInfo). t.subject) topics) ","

-- The keys and values of the event of a problem.
unfoldable pub access_event : PodAccessInfo (List ProblemDetail) → ProblemDetail → Dict LogValue
unfolding topic_subjects
access_event pod problem =
    ("pod_namespace", text pod.namespace)
    ∷ ("pod_name", text pod.pod_name)
    ∷ ("container_name", text pod.container_name)
    ∷ ("service_account_email", text pod.service_account_email)
    ∷ ("preferred_user_name", text pod.preferred_user_name)
    ∷ ("authorized_tenants", text (join pod.authorized_tenants ","))
    ∷ ("client_type", text pod.client_type)
    ∷ ("client_id", text pod.client_id)
    ∷ ("group_id", text pod.group_id)
    ∷ ("detected_broker_endpoints", text (join pod.detected_broker_endpoints ","))
    ∷ ("schema_registry_url", text pod.schema_registry_url)
    ∷ ("source_of_endpoint", text pod.source_of_endpoint)
    ∷ ("topics", text (topic_subjects pod.topics))
    ∷ ("problem_type", text problem.kind)
    ∷ ("problem_message", text problem.message)
    ∷ ("problem_count", number problem.count)
    ∷ ("ai_analysis", text problem.ai_analysis)
    ∷ ("broker_log_snippets", text (join problem.broker_log_snippets "\n---\n"))
    ∷ ("auto_offset_reset", text pod.auto_offset_reset)
    ∷ ("auto_commit", flag pod.auto_commit)
    ∷ ("max_poll_records", number pod.max_poll_records)
    ∷ ("max_poll_interval_ms", number pod.max_poll_interval_ms)
    ∷ ("broker_cpu_utilization", text problem.broker_cpu_utilization)
    ∷ ("broker_network_bytes_in", text problem.broker_network_bytes_in)
    ∷ ("broker_under_replicated", number problem.broker_under_replicated)
    ∷ []

module _ (S : Services) where
  open S use {World, log_info}

  unfoldable pub log_problems :
      PodAccessInfo (List ProblemDetail) → List ProblemDetail → Go World (Unit {0})
  log_problems pod [] w = (tt, w)
  log_problems pod (problem ∷ problems) w =
      log_problems pod problems (log_info "KafkaAccessEvent" (access_event pod problem) w).1

  unfoldable pub log_events : List (PodAccessInfo (List ProblemDetail)) → Go World (Unit {0})
  log_events [] w = (tt, w)
  log_events (pod ∷ pods) w = log_events pods (log_problems pod pod.recent_problems w).1
