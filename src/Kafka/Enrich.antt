-- ===== src/Kafka/Enrich.antt =====
-- The loop of Reconcile that adds broker metrics to the problems, and its helpers, of
-- kafka-access-monitor-operator/internal/controller/kafkaaccessquery_controller.go.
use nacho_operators.Common.{
  ℕ, String, ◌<>◌, ◌==◌, List, [], ◌∷◌, map, nat_eq, if◌then◌else◌, wrapped, Result, ok, err, check,
}
use nacho_operators.Common.Int.{ℤ}
use nacho_operators.Common.Meta.{Time}
use nacho_operators.Common.Strings.{to_lower, has_infix, join, decimal}
use nacho_operators.Kafka.Types.{ProblemDetail, PodAccessInfo, Pod}
use nacho_operators.Kafka.Services.{Services}
use nacho_operators.Kafka.Google.{fetch_broker_metrics}
use nacho_operators.Kafka.Inspect.{Slices, change_slice, Infos}

unfoldable pub get_cluster_key_from_endpoint : List String → String
get_cluster_key_from_endpoint [] = "unknown"
get_cluster_key_from_endpoint (first ∷ endpoints) =
    let endpoint = to_lower first in
    if has_infix endpoint ".bss.kafka"
    then "bss"
    else if has_infix endpoint ".cdr.kafka"
    then "cdr"
    else if has_infix endpoint ".corp.kafka"
    then "corp"
    else "unknown"

module _ (S : Services) where
  open S use {
    World, now, Float, format_float, format_percent, has_metrics_finder, list_pods_labelled,
  }

  unfoldable pub find_broker_pods_for_cluster : String → String → World → Result (List Pod)
  find_broker_pods_for_cluster cluster_key env w =
      let name = "kafka-" <> cluster_key <> "-" <> env in
      check
        (list_pods_labelled name
          (("strimzi.io/cluster", name) ∷ ("strimzi.io/broker-role", "true") ∷ []) w)
        (λ e. err (wrapped "failed to list broker pods with labels %s in namespace %s: %w" e))
        (λ pods. ok pods)

  unfoldable pub with_metrics : Float × Float × ℤ → ProblemDetail → ProblemDetail
  with_metrics (cpu, network, partitions) problem = record problem {
    broker_cpu_utilization = format_float cpu;
    broker_network_bytes_in = format_float network;
    broker_under_replicated = partitions;
  }

  unfoldable pub metrics_summary : String → Float × Float × ℤ → String
  metrics_summary name (cpu, network, partitions) =
      " - Broker Health (pod: "
      <> name
      <> "): CPU: "
      <> format_percent cpu
      <> "%, URPartitions: "
      <> decimal partitions

  -- The metrics of each broker overwrite those of the one before.
  unfoldable pub with_all_metrics : List Pod → Time → World → ProblemDetail → ProblemDetail
  with_all_metrics [] at w problem = problem
  with_all_metrics (broker ∷ brokers) at w problem =
      with_all_metrics brokers at w (with_metrics (fetch_broker_metrics S broker.name at w) problem)

  unfoldable pub summaries : List Pod → Time → World → List String
  summaries [] at w = []
  summaries (broker ∷ brokers) at w =
      metrics_summary broker.name (fetch_broker_metrics S broker.name at w) ∷ summaries brokers at w

  abbrev pub problem_timestamp : ProblemDetail → World → Time
  problem_timestamp problem w =
      if nat_eq problem.last_seen_timestamp.instant 0 then now w else problem.last_seen_timestamp

  abbrev pub with_summary : String → ProblemDetail → ProblemDetail
  with_summary summary problem = record problem { message = problem.message <> summary }

  -- The body of the loop over the problems of an entry.
  unfoldable pub enrich_problem : List Pod → World → ProblemDetail → ProblemDetail
  enrich_problem brokers w problem =
      let at = problem_timestamp problem w in
      with_summary (join (summaries brokers at w) "; ") (with_all_metrics brokers at w problem)

  -- The body of the loop over the entries. The problems are written where the slice has them.
  unfoldable pub enrich_info : String → World → PodAccessInfo ℕ → Slices → Slices
  enrich_info env w info slices =
      let cluster_key = get_cluster_key_from_endpoint info.detected_broker_endpoints in
      if has_metrics_finder
      then if cluster_key == "unknown"
        then slices
        else check (find_broker_pods_for_cluster cluster_key env w) (λ _. slices)
            (λ brokers. change_slice info.recent_problems (map (enrich_problem brokers w)) slices)
      else slices

  unfoldable pub enrich_infos : String → World → Infos → Slices → Slices
  enrich_infos env w [] slices = slices
  enrich_infos env w (info ∷ infos) slices =
      enrich_infos env w infos (enrich_info env w info slices)
