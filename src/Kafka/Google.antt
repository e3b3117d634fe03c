-- ===== src/Kafka/Google.antt =====
-- kafka-access-monitor-operator/internal/discovery/broker_log_finder.go and gcp_metrics_finder.go.
use nacho_operators.Common.{
  ℕ, ◌+◌, ◌-◌, ◌*◌, String, ◌<>◌, ◌==◌, Option, none, some, List, [], ◌∷◌, ◌++◌, if◌then◌else◌,
  minute, wrapped, Error, Result, ok, err, check,
}
use nacho_operators.Common.Int.{ℤ, pos}
use nacho_operators.Common.Meta.{utc, Time}
use nacho_operators.Kafka.Types.{LogEntry}
use nacho_operators.Kafka.Services.{Services}

-- The swap loop over the two ends of the snippets.
abbrev pub reverse : List String → List String
reverse [] = []
reverse (s ∷ ss) = reverse ss ++ (s ∷ [])

abbrev utc_at : ℕ → Time
utc_at instant = record { instant = instant; form = utc }

module _ (S : Services) where
  open S use {
    World, now, format_rfc3339, format_mql, quote, log_entries, Float, zero_float,
    query_time_series,
  }

  unfoldable pub log_filter : String → Time → ℕ → String
  log_filter client_identifier at time_window =
      "resource.type=\"k8s_container\" AND resource.labels.container_name=\"kafka\" AND timestamp >= \""
      <> format_rfc3339 (utc_at (at.instant - time_window))
      <> "\" AND (textPayload:"
      <> quote client_identifier
      <> " OR jsonPayload.message:"
      <> quote client_identifier
      <> ") AND (severity >= WARNING) ORDER BY timestamp desc LIMIT 20"

  abbrev snippet : LogEntry → String
  snippet entry =
      "[" <> format_rfc3339 entry.timestamp <> "] " <> entry.severity <> ": " <> entry.payload

  -- The loop over the entries; one with no text is passed over.
  unfoldable pub snippets_of : List LogEntry → List String
  snippets_of [] = []
  snippets_of (entry ∷ entries) =
      let rest = snippets_of entries in if entry.payload == "" then rest else snippet entry ∷ rest

  abbrev or_notice : List String → List String
  or_notice [] =
      "No relevant broker logs were found for the specified client identifier and time window." ∷ []
  or_notice (s ∷ ss) = s ∷ ss

  abbrev logs_from : List LogEntry × Option Error → Result (List String)
  logs_from (entries, some e) = err (wrapped "failed to iterate log entries: %w" e)
  logs_from (entries, none) = ok (or_notice (reverse (snippets_of entries)))

  unfoldable pub find_relevant_broker_logs : String → String → ℕ → World → Result (List String)
  find_relevant_broker_logs cluster client_identifier time_window w =
      if client_identifier == ""
      then ok []
      else logs_from (log_entries cluster (log_filter client_identifier (now w) time_window) w)

  unfoldable pub time_window_filter : Time → String
  time_window_filter problem_time =
      "within d'"
      <> format_mql (utc_at (problem_time.instant - 5 * minute))
      <> "', d'"
      <> format_mql (utc_at (problem_time.instant + 1 * minute))
      <> "'"

  unfoldable pub cpu_query : String → Time → String
  cpu_query broker_pod_name problem_time =
      "fetch k8s_container::kubernetes.io/container/cpu/limit_utilization\n\t\t | filter (resource.pod_name == '"
      <> broker_pod_name
      <> "' && resource.container_name == 'kafka')\n\t\t | "
      <> time_window_filter problem_time
      <> "\n\t\t | group_by [], mean(val())"

  unfoldable pub network_query : String → Time → String
  network_query broker_pod_name problem_time =
      "fetch k8s_pod::kubernetes.io/pod/network/received_bytes_count\n\t\t | filter (resource.pod_name == '"
      <> broker_pod_name
      <> "')\n\t\t | align rate(1m)\n\t\t | "
      <> time_window_filter problem_time
      <> "\n\t\t | group_by [], mean(val())"

  abbrev first_value : Option (List (List Float)) → Float
  first_value (some ((value ∷ values) ∷ points)) = value
  first_value _ = zero_float

  unfoldable pub execute_scalar_query : String → World → Result Float
  execute_scalar_query query w =
      check (query_time_series query w) err (λ answer. ok (first_value answer))

  -- A query that fails is logged, and counts as 0.
  abbrev or_zero : Result Float → Float
  or_zero r = check r (λ _. zero_float) (λ value. value)

  -- `BrokerMetrics`, less the field that nothing writes.
  abbrev pub BrokerMetrics : Type 0
  BrokerMetrics = Float × Float × ℤ

  -- CPU utilisation, bytes received, and partitions; it never returns an error.
  unfoldable pub fetch_broker_metrics : String → Time → World → BrokerMetrics
  fetch_broker_metrics broker_pod_name problem_time w = (
    or_zero (execute_scalar_query (cpu_query broker_pod_name problem_time) w),
    or_zero (execute_scalar_query (network_query broker_pod_name problem_time) w),
    pos 0,
  )
