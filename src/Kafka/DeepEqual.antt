-- ===== src/Kafka/DeepEqual.antt =====
-- `reflect.DeepEqual` on the status of a KafkaAccessQuery; called by Reconcile of
-- kafka-access-monitor-operator/internal/controller/kafkaaccessquery_controller.go. A nil slice is
-- the empty one here: the code sets a time that differs before it compares.
use nacho_operators.Common.{String, ◌==◌, Bool, ◌&&◌, List, nat_eq}
use nacho_operators.Common.DeepEqual.{bool, integer, time, optional, list, condition}
use nacho_operators.Kafka.Parser.{TopicInfo}
use nacho_operators.Kafka.Types.{ProblemDetail, PodAccessInfo, Status}

abbrev text : String → String → Bool
text a b = a == b

abbrev entry : String × String → String × String → Bool
entry (k, v) (l, u) = (k == l) && (v == u)

unfoldable pub topic : TopicInfo → TopicInfo → Bool
topic a b =
    (a.cluster == b.cluster)
    && (a.domain == b.domain)
    && (a.subject == b.subject)
    && (a.version == b.version)

unfoldable pub problem : ProblemDetail → ProblemDetail → Bool
problem a b =
    (a.kind == b.kind)
    && (a.message == b.message)
    && integer a.count b.count
    && time a.last_seen_timestamp b.last_seen_timestamp
    && (a.broker_cpu_utilization == b.broker_cpu_utilization)
    && (a.broker_network_bytes_in == b.broker_network_bytes_in)
    && integer a.broker_under_replicated b.broker_under_replicated
    && (a.ai_analysis == b.ai_analysis)
    && list text a.broker_log_snippets b.broker_log_snippets

unfoldable pub pod : PodAccessInfo (List ProblemDetail) → PodAccessInfo (List ProblemDetail) → Bool
pod a b =
    (a.pod_name == b.pod_name)
    && (a.namespace == b.namespace)
    && (a.client_type == b.client_type)
    && list text a.detected_broker_endpoints b.detected_broker_endpoints
    && (a.schema_registry_url == b.schema_registry_url)
    && (a.container_name == b.container_name)
    && (a.source_of_endpoint == b.source_of_endpoint)
    && (a.client_id == b.client_id)
    && (a.group_id == b.group_id)
    && (a.auto_offset_reset == b.auto_offset_reset)
    && optional bool a.auto_commit b.auto_commit
    && list entry a.additional_config b.additional_config
    && list topic a.topics b.topics
    && integer a.max_poll_records b.max_poll_records
    && integer a.max_poll_interval_ms b.max_poll_interval_ms
    && (a.service_account_email == b.service_account_email)
    && (a.preferred_user_name == b.preferred_user_name)
    && list text a.authorized_tenants b.authorized_tenants
    && list text a.authorized_roles b.authorized_roles
    && list problem a.recent_problems b.recent_problems

unfoldable pub status : Status → Status → Bool
status a b =
    optional time a.last_update_time b.last_update_time
    && integer a.observed_generation b.observed_generation
    && list pod a.accessing_pods b.accessing_pods
    && nat_eq a.total_pods_scanned b.total_pods_scanned
    && nat_eq a.total_pods_with_kafka_access b.total_pods_with_kafka_access
    && list condition a.conditions b.conditions
