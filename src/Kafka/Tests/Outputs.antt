-- ===== src/Kafka/Tests/Outputs.antt =====
-- The theorems on what the monitor sends and logs, at the data of the tests.
use nacho_operators.Kafka.Answers.{results_of, apply_result-answers}
use nacho_operators.Kafka.Analysis.{
  ProblemToAnalyze, AiResult, result_key, analysis_text, collect_results, apply_result,
}
use nacho_operators.Common.{◌≡◌, refl, none, some, List, [], ◌∷◌, map, arith, pure, attempt}
use Prim.Native.String.{len}
use mathlib.Core.List.{Perm, Memᴰ}
use nacho_operators.Common.Meta.{clock}
use nacho_operators.Kafka.Types.{ProblemDetail, PodAccessInfo}
use nacho_operators.Kafka.Slack.{first_header, page_header, format_single_pod, namespace_messages}
use nacho_operators.Kafka.Discovery.{find_pods, namespace_options}
use nacho_operators.Kafka.Events.{log_events}
use nacho_operators.Kafka.Reconcile.{stop, requeue_duration, write_status, reconcile}
use nacho_operators.Kafka.Pages.{Divided}
use nacho_operators.Kafka.Reports.{namespace_messages-Divided}
use nacho_operators.Kafka.Logging.{events_of, log-log_events}
use nacho_operators.Kafka.Unselected.{nothing_found, reconcile-no_selector}
use nacho_operators.Kafka.Memory.{
  memory-Delivers, Cluster, memory, memory-SelectsNothing, memory-SortsSlice, memory_log,
}
use nacho_operators.Kafka.Tests.Data.{info, problem, cluster, key, bare_query, reported}

abbrev pods : List (PodAccessInfo (List ProblemDetail))
pods = reported ∷ reported ∷ []

namespace_messages-Divided_example :
    Perm pods pods
    × Divided
        (page_header "shop")
        (len (first_header "shop" 2))
        (first_header "shop" 2)
        1
        (map format_single_pod pods)
        (namespace_messages memory "shop" pods)
namespace_messages-Divided_example =
    namespace_messages-Divided memory memory-SortsSlice "shop" reported (reported ∷ [])
      (omega arith)

log-log_events_example : (log_events memory pods cluster).1.logged ≡ events_of pods
log-log_events_example = log-log_events memory memory_log pods cluster

abbrev bare_cluster : Cluster
bare_cluster = record cluster { query = bare_query }

reconcile-no_selector_example :
    reconcile memory key bare_cluster
    ≡ attempt
        (write_status memory key (nothing_found bare_query (record { instant = 10; form = clock })))
        (λ e. pure (stop (some e)))
        (λ _. pure (record { after = requeue_duration memory bare_query.spec; error = none }))
        bare_cluster
unfolding find_pods namespace_options
reconcile-no_selector_example =
    reconcile-no_selector memory memory-SelectsNothing key bare_cluster {query = bare_query}
      {pods = []} refl refl refl refl refl refl

-- Two problems of a pod.
abbrev two : List ProblemToAnalyze
two = (info, problem) ∷ (info, record problem { message = "b" }) ∷ []

apply_result-answers_example :
    (r : AiResult) × Memᴰ r (results_of memory two cluster).0
    × (result_key r ≡ "appa")
    × (apply_result memory
          (collect_results memory (results_of memory two cluster).0 [])
          info
          problem
        ≡ record problem {
          ai_analysis = analysis_text memory r;
          broker_log_snippets = r.broker_log_snippets;
        })
apply_result-answers_example =
    apply_result-answers memory memory-Delivers two cluster (info, problem) (Memᴰ.head refl)
