-- ===== src/Kafka/Reconcile.antt =====
-- Reconcile of kafka-access-monitor-operator/internal/controller/kafkaaccessquery_controller.go.
use nacho_operators.Common.{
  ℕ, zero, ◌*◌, String, ◌==◌, Bool, true, false, Option, none, some, List, [], ◌∷◌, map, keep,
  length, if◌then◌else◌, minute, hour, Error, Result, err, check, Go, pure, attempt, NamespacedName,
}
use nacho_operators.Common.Dict.{Dict}
use nacho_operators.Common.Int.{ℤ, pos}
use nacho_operators.Common.Meta.{Time}
use nacho_operators.Kafka.DeepEqual
use nacho_operators.Kafka.Types.{Spec, ProblemDetail, PodAccessInfo, Status, KafkaAccessQuery}
use nacho_operators.Kafka.Services.{Services}
use nacho_operators.Kafka.Discovery.{find_pods, load_and_get_tenant_map}
use nacho_operators.Kafka.Inspect.{Slices, slice_at, Infos, Seen, inspect_pods, count_unique_pods}
use nacho_operators.Kafka.Enrich.{enrich_infos}
use nacho_operators.Kafka.Analysis.{analyze_problems}
use nacho_operators.Kafka.Slack.{send_report}
use nacho_operators.Kafka.Events.{log_events}

-- `(ctrl.Result{RequeueAfter: …}, error)`; a duration may be negative.
pub record Requeue : Type 0 where
  pub after : ℤ
  pub error : Option Error

abbrev pub stop : Option Error → Requeue
stop e = record { after = pos 0; error = e }

-- An entry with its problems as the slice has them.
unfoldable pub resolve_info : Slices → PodAccessInfo ℕ → PodAccessInfo (List ProblemDetail)
resolve_info slices info = record {
  pod_name = info.pod_name;
  namespace = info.namespace;
  client_type = info.client_type;
  detected_broker_endpoints = info.detected_broker_endpoints;
  schema_registry_url = info.schema_registry_url;
  container_name = info.container_name;
  source_of_endpoint = info.source_of_endpoint;
  client_id = info.client_id;
  group_id = info.group_id;
  auto_offset_reset = info.auto_offset_reset;
  auto_commit = info.auto_commit;
  additional_config = info.additional_config;
  topics = info.topics;
  max_poll_records = info.max_poll_records;
  max_poll_interval_ms = info.max_poll_interval_ms;
  service_account_email = info.service_account_email;
  preferred_user_name = info.preferred_user_name;
  authorized_tenants = info.authorized_tenants;
  authorized_roles = info.authorized_roles;
  recent_problems = slice_at info.recent_problems slices;
}

unfoldable pub current_status : KafkaAccessQuery → Time → ℕ → Infos → Slices → Status
current_status query at scanned infos slices = record query.status {
  accessing_pods = map (resolve_info slices) infos;
  total_pods_scanned = scanned;
  total_pods_with_kafka_access = count_unique_pods infos;
  observed_generation = query.generation;
  last_update_time = some at;
}

abbrev has_problems : Slices → PodAccessInfo ℕ → Bool
has_problems slices info = elim (slice_at info.recent_problems slices) [ [] ↦ false | _ ∷ _ ↦ true ]

unfoldable pub pods_to_report : Slices → Infos → Infos
pods_to_report slices = keep (has_problems slices)

-- `shouldTriggerAI`
abbrev pub should_trigger_ai : Option Bool → Bool
should_trigger_ai none = true
should_trigger_ai (some enabled) = enabled

module _ (S : Services) where
  open S use {
    World, now, is_not_found, execution_environment, parse_duration, get_query, status_update,
    retry_on_conflict,
  }

  abbrev pub env : String
  env = if execution_environment == "" then "sta" else execution_environment

  -- A map that cannot be loaded is the empty one.
  unfoldable pub tenants : World → Dict (List String)
  tenants w = check (load_and_get_tenant_map S env w) (λ _. []) (λ found. found)

  unfoldable pub scan_duration : Spec → ℤ
  scan_duration spec =
      check (parse_duration spec.error_log_scan_interval) (λ _. pos (10 * minute))
        λ d. if spec.error_log_scan_interval == "" then pos (10 * minute) else d

  unfoldable pub requeue_duration : Spec → ℤ
  requeue_duration spec =
      check (parse_duration spec.requeue_interval) (λ _. pos (1 * hour))
        λ d. elim d [ pos zero ↦ pos (1 * hour) | other ↦ other ]

  unfoldable pub write_status : NamespacedName → Status → Go World (Result (Unit {0}))
  write_status key current = retry_on_conflict λ w.
      check (get_query key w) (λ e. (err e, w))
        λ latest. status_update (record latest { status = current }) w

  -- The report follows a status that was written; that it fails is logged.
  unfoldable pub report : Infos → Go World (Unit {0})
  report [] w = (tt, w)
  report (info ∷ infos) w = attempt (send_report S (info ∷ infos)) (λ _. pure tt) (λ _. pure tt) w

  unfoldable pub publish : NamespacedName → Spec → Status → Status → Infos → Go World Requeue
  publish key spec original current to_report =
      let done : Requeue = record { after = requeue_duration spec; error = none } in
      let log_and_return : Go World Requeue =
        λ w. let (_, w') = log_events S current.accessing_pods w in (done, w') in
      if DeepEqual.status original current
      then log_and_return
      else attempt (write_status key current) (λ e. pure (stop (some e)))
          (λ _ w. let (_, w') = report to_report w in log_and_return w')

  unfoldable pub analyze_if : Bool → Infos → Slices → Go World Slices
  analyze_if true infos slices = analyze_problems S infos slices
  analyze_if false infos slices = pure slices

  -- From the end of the loop over the pods on.
  unfoldable pub finish : NamespacedName → KafkaAccessQuery → ℕ → Seen → Go World Requeue
  finish key query scanned seen w =
      let enriched = enrich_infos S env w seen.infos seen.slices in
      let (slices, w') =
        analyze_if (should_trigger_ai query.spec.ai_analysis_enabled) seen.infos enriched w in
      publish key query.spec query.status (current_status query (now w) scanned seen.infos slices)
        (pods_to_report seen.slices seen.infos) w'

  unfoldable pub reconcile : NamespacedName → Go World Requeue
  reconcile key w =
      check (get_query key w) (λ e. (stop (if is_not_found e then none else some e), w))
        λ query.
          check (find_pods S query.spec.namespace_selector query.spec.pod_selector w)
            (λ e. (stop (some e), w))
            λ pods.
              finish key query (length pods)
                (inspect_pods S query.spec (tenants w) (scan_duration query.spec) pods w
                  (record { slices = []; infos = [] }))
                w
