-- ===== src/Kafka/Tests/Monitor.antt =====
-- The theorems on the monitor at a query and two pods, with a cluster in memory.
use nacho_operators.Common.{
  String, ap, ◌↔◌, Any, ◌≡◌, refl, none, some, [], ◌∷◌, arith, ok, pure, attempt, Distinct,
}
use nacho_operators.Common.Dict
use nacho_operators.Common.Dict.{Dict}
use nacho_operators.Common.Int.{pos, negsuc}
use nacho_operators.Common.Meta.{clock}
use nacho_operators.Common.Strings.{to_lower, has_infix, has_prefix}
use nacho_operators.Kafka.Diagnostics.{add_problems, increment, keys}
use nacho_operators.Kafka.Discovery.{find_pods, namespace_options}
use nacho_operators.Kafka.Inspect.{Slices, Seen, slice_at, inspect_pods}
use nacho_operators.Kafka.Events.{log_events}
use nacho_operators.Kafka.Enrich.{
  get_cluster_key_from_endpoint, find_broker_pods_for_cluster, enrich_infos,
}
use nacho_operators.Kafka.Analysis.{collect_results, apply_result}
use nacho_operators.Kafka.Reconcile.{
  stop, current_status, pods_to_report, requeue_duration, write_status, report, reconcile, tenants,
  scan_duration,
}
use nacho_operators.Kafka.Counting.{said, IsSummary, add_problems_lem}
use nacho_operators.Kafka.Arrival.{apply_result-arrival}
use nacho_operators.Kafka.Sharing.{problem_messages, summarised, enrich_infos-shared}
use nacho_operators.Kafka.Publishing.{seen_in, analyzed, reconcile-writes}
use nacho_operators.Kafka.Sightings.{UsesThere}
use nacho_operators.Kafka.Server.{Stored}
use nacho_operators.Kafka.Uniques.{CountsOnce}
use nacho_operators.Kafka.Storing.{reconcile-stores}
use nacho_operators.Kafka.Selection.{find_pods-namespace_selector}
use nacho_operators.Kafka.Handles.{IsValid, inspect_pods-IsValid}
use nacho_operators.Kafka.Memory.{memory, memory-KeepsLast, memory-IsServer}
use nacho_operators.Kafka.Tests.Data.{
  app, spec, query, cluster, web, other_labels, observations, problem, info, result, key,
}

increment_run : increment (pos 2_147_483_647) ≡ negsuc 2_147_483_647
increment_run = refl

add_problems_lem_example :
    IsSummary "a" (said "a" observations) (Dict.lookup "a" (add_problems observations []))
    × Distinct (keys (add_problems observations []))
add_problems_lem_example = add_problems_lem observations "a" (omega arith)

apply_result-arrival_example :
    apply_result memory
      (collect_results memory (result "a" "first" ∷ result "b" "last" ∷ []) [])
      info
      problem
    ≡ record problem { ai_analysis = "first"; broker_log_snippets = [] }
apply_result-arrival_example =
    apply_result-arrival memory [] (result "b" "last" ∷ []) (result "a" "first") info problem refl
      refl

abbrev slices : Slices
slices = (problem ∷ []) ∷ []

known : find_broker_pods_for_cluster memory "bss" "sta" cluster ≡ ok (app ∷ [])
unfolding find_broker_pods_for_cluster
known = refl

bss : get_cluster_key_from_endpoint ("b.bss.kafka:9092" ∷ []) ≡ "bss"
unfolding get_cluster_key_from_endpoint to_lower has_infix has_prefix
bss = refl

enrich_infos-shared_example :
    problem_messages memory "sta" cluster
      (slice_at 0 (enrich_infos memory "sta" cluster (info ∷ info ∷ []) slices))
    ≡ summarised memory "sta" cluster (app ∷ []) (app ∷ []) (problem ∷ [])
unfolding get_cluster_key_from_endpoint to_lower has_infix has_prefix find_broker_pods_for_cluster
enrich_infos-shared_example =
    enrich_infos-shared memory "sta" cluster info info (app ∷ []) (app ∷ []) slices refl
      (refl, refl, refl) (refl, refl, refl)

reconcile-writes_example :
    reconcile memory key cluster
    ≡ attempt
        (write_status memory key (
          current_status query
            (record { instant = 10; form = clock })
            1
            (seen_in memory query (app ∷ []) cluster).infos
            (analyzed memory query (app ∷ []) cluster).0))
        (λ e. pure (stop (some e)))
        (λ _ u. (
          record { after = requeue_duration memory spec; error = none },
          (log_events memory
              (current_status query
                (record { instant = 10; form = clock })
                1
                (seen_in memory query (app ∷ []) cluster).infos
                (analyzed memory query (app ∷ []) cluster).0).accessing_pods
              (report memory
                (pods_to_report
                  (seen_in memory query (app ∷ []) cluster).slices
                  (seen_in memory query (app ∷ []) cluster).infos)
                u).1).1,
        ))
        (analyzed memory query (app ∷ []) cluster).1
unfolding find_pods namespace_options
reconcile-writes_example =
    reconcile-writes memory key cluster {query = query} {pods = app ∷ []} refl refl refl refl

find_pods-namespace_selector_example :
    find_pods memory (some web) (some other_labels) cluster
    ≡ find_pods memory (some web) none cluster
find_pods-namespace_selector_example =
    find_pods-namespace_selector memory cluster memory-KeepsLast web (some other_labels) none
      {label = ("app", "web")} {rest = []} {s = some other_labels} {t = none} refl refl refl

abbrev nothing_seen : Seen
nothing_seen = record { slices = []; infos = [] }

inspect_pods-IsValid_example :
    IsValid memory spec []
      (pos 60)
      cluster
      (app ∷ app ∷ [])
      (inspect_pods memory spec [] (pos 60) (app ∷ app ∷ []) cluster nothing_seen)
inspect_pods-IsValid_example =
    inspect_pods-IsValid memory spec [] (pos 60) cluster (app ∷ app ∷ []) nothing_seen (tt, tt)

reported : (reconcile memory key cluster).0.error ≡ none
unfolding find_pods namespace_options write_status
reported =
    ap (λ ran. ran.0.error)
      (reconcile-writes memory key cluster {query = query} {pods = app ∷ []} refl refl refl refl)

reconcile-stores_example :
    let stored : Stored = memory-IsServer.stored (reconcile memory key cluster).1 in
    (stored.total_pods_scanned ≡ 1)
    × CountsOnce stored.pods stored.total_pods_with_kafka_access
    × ((namespace name : String)
        → Any (λ k. k ≡ (namespace, name)) stored.pods
          ↔ Any
              (UsesThere memory cluster spec
                (tenants memory cluster)
                (scan_duration memory spec)
                namespace
                name)
              (app ∷ []))
unfolding find_pods namespace_options
reconcile-stores_example =
    reconcile-stores memory memory-IsServer key cluster query (app ∷ []) refl refl refl refl
      reported
