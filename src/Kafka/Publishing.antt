-- ===== src/Kafka/Publishing.antt =====
-- What every reconciliation of a query writes.
use nacho_operators.Common.{
  ℕ, ◌≡◌, refl, Bool, false, ◌&&◌, Option, none, some, List, [], length, arith, ok, Go, pure,
  attempt, NamespacedName,
}
use nacho_operators.Common.Meta.{local, clock, Time}
use nacho_operators.Common.DeepEqual.{time, optional}
use nacho_operators.Kafka.DeepEqual
use nacho_operators.Kafka.Types.{KafkaAccessQuery, Pod}
use nacho_operators.Kafka.Services.{Services}
use nacho_operators.Kafka.Discovery.{find_pods}
use nacho_operators.Kafka.Inspect.{Slices, Infos, Seen, inspect_pods}
use nacho_operators.Kafka.Enrich.{enrich_infos}
use nacho_operators.Kafka.Events.{log_events}
use nacho_operators.Kafka.Reconcile.{
  stop, current_status, pods_to_report, should_trigger_ai, env, tenants, scan_duration,
  requeue_duration, write_status, report, publish, analyze_if, finish, reconcile,
}

-- A time that was decoded from JSON, or none.
abbrev pub IsStored : Option Time → Type 0
IsStored none = Unit
IsStored (some t) = t.form ≡ local

time-differs :
    (o : Option Time) (at : Time) → IsStored o → at.form ≡ clock → optional time o (some at) ≡ false
time-differs none at stored p = refl
time-differs (some t) at stored p = ground arith

status-current :
    (query : KafkaAccessQuery) (at : Time) (scanned : ℕ) (infos : Infos) (slices : Slices)
    → IsStored query.status.last_update_time
    → at.form ≡ clock
    → DeepEqual.status query.status (current_status query at scanned infos slices) ≡ false
unfolding DeepEqual.status current_status
status-current query at scanned infos slices stored p =
    by_first _ _ _ _ _ _ (time-differs query.status.last_update_time at stored p)
  where
    by_first : (a b c d e f : Bool) → a ≡ false → (a && b && c && d && e && f) ≡ false
    by_first a b c d e f h = rw h refl

module _ (S : Services) where
  -- What the loop over the pods finds.
  abbrev pub seen_in : KafkaAccessQuery → List Pod → S.World → Seen
  seen_in query pods w =
      inspect_pods S query.spec (tenants S w) (scan_duration S query.spec) pods w
        (record { slices = []; infos = [] })

  -- The analysis of what the loops have found, with the problems as it leaves them.
  abbrev pub analyzed : KafkaAccessQuery → List Pod → Go S.World Slices
  analyzed query pods w =
      analyze_if S (should_trigger_ai query.spec.ai_analysis_enabled) (seen_in query pods w).infos
        (enrich_infos S (env S) w (seen_in query pods w).infos (seen_in query pods w).slices) w

  -- Every reconciliation of a query that can be read, whose pods can be listed, writes the status,
  -- after the analysis, with the current time in it. After a write that was accepted it reports, and
  -- then logs the events of the written status; an error of the write is returned, with no report and
  -- no event. The times of the stored status were decoded from JSON, and the current one has a
  -- monotonic reading.
  pub reconcile-writes :
      (key : NamespacedName) (w : S.World) {query : KafkaAccessQuery} {pods : List Pod}
      → S.get_query key w ≡ ok query
      → find_pods S query.spec.namespace_selector query.spec.pod_selector w ≡ ok pods
      → IsStored query.status.last_update_time
      → (S.now w).form ≡ clock
      → reconcile S key w
        ≡ attempt
            (write_status S key (
              current_status query
                (S.now w)
                (length pods)
                (seen_in query pods w).infos
                (analyzed query pods w).0))
            (λ e. pure (stop (some e)))
            (λ _ u. (
              record { after = requeue_duration S query.spec; error = none },
              (log_events S
                  (current_status query
                    (S.now w)
                    (length pods)
                    (seen_in query pods w).infos
                    (analyzed query pods w).0).accessing_pods
                  (report S
                    (pods_to_report (seen_in query pods w).slices (seen_in query pods w).infos)
                    u).1).1,
            ))
            (analyzed query pods w).1
  unfolding reconcile finish publish
  reconcile-writes key w {query} {pods} read listed stored monotonic =
      rw
        (
          reconcile,
          read,
          listed,
          status-current query (S.now w) (length pods) (seen_in query pods w).infos
              (analyzed query pods w).0 stored monotonic,
        )
        refl
