-- ===== src/Kafka/Unselected.antt =====
-- What a reconciliation makes of a query with no selector.
use nacho_operators.Common.{
  ◌≡◌, refl, Bool, true, false, none, some, List, [], ok, pure, attempt, NamespacedName, ap, ◌∙◌,
}
use nacho_operators.Common.Meta.{clock, Time}
use nacho_operators.Kafka.Types.{Status, KafkaAccessQuery, Pod}
use nacho_operators.Kafka.Services.{Services}
use nacho_operators.Kafka.Discovery.{find_pods}
use nacho_operators.Kafka.Inspect.{Slices, inspect_pods, count_unique_pods}
use nacho_operators.Kafka.Enrich.{enrich_infos}
use nacho_operators.Kafka.Analysis.{problems_to_analyze, analyze_listed, analyze_problems}
use nacho_operators.Kafka.Events.{log_events}
use nacho_operators.Kafka.Reconcile.{
  Requeue, stop, current_status, pods_to_report, should_trigger_ai, requeue_duration, write_status,
  report, analyze_if, reconcile,
}
use nacho_operators.Kafka.Selection.{SelectsNothing, find_pods-no_selector}
use nacho_operators.Kafka.Publishing.{IsStored, analyzed, reconcile-writes}

-- The status of a query that finds no pod.
abbrev pub nothing_found : KafkaAccessQuery → Time → Status
nothing_found query at = record query.status {
  accessing_pods = [];
  total_pods_scanned = 0;
  total_pods_with_kafka_access = 0;
  observed_generation = query.generation;
  last_update_time = some at;
}

module _ (S : Services) where
  analyze_if-nothing : (b : Bool) (w : S.World) → analyze_if S b [] [] w ≡ ([], w)
  unfolding analyze_if analyze_problems problems_to_analyze analyze_listed
  analyze_if-nothing true w = refl
  analyze_if-nothing false w = refl

  analyzed-no_pods : (query : KafkaAccessQuery) (w : S.World) → analyzed S query [] w ≡ ([], w)
  unfolding inspect_pods enrich_infos
  analyzed-no_pods query w = analyze_if-nothing (should_trigger_ai query.spec.ai_analysis_enabled) w

  -- All that a reconciliation of a query with no selector does, where the pods can be listed, is to
  -- write a status with no pods and the current time: nothing is analysed, and nothing is reported. The
  -- times of the stored status were decoded from JSON, and the current one has a monotonic reading.
  pub reconcile-no_selector :
      SelectsNothing S
      → (key : NamespacedName) (w : S.World) {query : KafkaAccessQuery} {pods : List Pod}
      → S.get_query key w ≡ ok query
      → query.spec.namespace_selector ≡ none
      → query.spec.pod_selector ≡ none
      → find_pods S none none w ≡ ok pods
      → IsStored query.status.last_update_time
      → (S.now w).form ≡ clock
      → reconcile S key w
        ≡ attempt
            (write_status S key (nothing_found query (S.now w)))
            (λ e. pure (stop (some e)))
            (λ _. pure (record { after = requeue_duration S query.spec; error = none }))
            w
  unfolding inspect_pods current_status count_unique_pods pods_to_report report log_events
  reconcile-no_selector law key w {query} {pods} read p q listed stored monotonic =
      reconcile-writes S key w {query = query} {pods = []} read none_listed stored monotonic
      ∙ ap written (analyzed-no_pods query w)
    where
      none_listed : find_pods S query.spec.namespace_selector query.spec.pod_selector w ≡ ok []
      none_listed =
          (λ i. find_pods S (p i) (q i) w)
          ∙ listed
          ∙ ap ok (find_pods-no_selector S w law {pods = pods} listed)

      written : Slices × S.World → Requeue × S.World
      written (slices, u) =
          attempt (write_status S key (current_status query (S.now w) 0 [] slices))
            (λ e. pure (stop (some e)))
            (λ _. pure (record { after = requeue_duration S query.spec; error = none })) u
