-- ===== src/Kafka/Analysis.antt =====
-- The analysis of the problems in Reconcile of kafka-access-monitor-operator/internal/controller/
-- kafkaaccessquery_controller.go: the logs that are fetched before, the goroutines, and the merge of
-- their results. A goroutine calls the service and delivers in one step.
use nacho_operators.Common.{
  ℕ, ◌*◌, String, ◌<>◌, ◌==◌, Option, none, some, List, [], ◌∷◌, ◌++◌, map, contains, if◌then◌else◌,
  minute, Result, check, Go, pure, ◌>>=◌,
}
use nacho_operators.Common.Dict
use nacho_operators.Common.Dict.{Dict}
use nacho_operators.Kafka.Types.{ProblemDetail, PodAccessInfo, Task}
use nacho_operators.Kafka.Services.{Services}
use nacho_operators.Kafka.Slack.{coalesce}
use nacho_operators.Kafka.Google.{find_relevant_broker_logs}
use nacho_operators.Kafka.Gemini.{analyze}
use nacho_operators.Kafka.Inspect.{Slices, slice_at, change_slice, Infos}
use nacho_operators.Kafka.Enrich.{get_cluster_key_from_endpoint}

-- `problemToAnalyze`
abbrev pub ProblemToAnalyze : Type 0
ProblemToAnalyze = PodAccessInfo ℕ × ProblemDetail

abbrev unanalyzed : PodAccessInfo ℕ → List ProblemDetail → List ProblemToAnalyze
unanalyzed info [] = []
unanalyzed info (problem ∷ problems) =
    let rest = unanalyzed info problems in
    if problem.ai_analysis == "" then (info, problem) ∷ rest else rest

unfoldable pub problems_to_analyze : Infos → Slices → List ProblemToAnalyze
problems_to_analyze [] slices = []
problems_to_analyze (info ∷ infos) slices =
    unanalyzed info (slice_at info.recent_problems slices) ++ problems_to_analyze infos slices

abbrev pub client_identifier : PodAccessInfo ℕ → String
client_identifier info = coalesce info.group_id info.client_id

abbrev pub cache_key : PodAccessInfo ℕ → String
cache_key info =
    get_cluster_key_from_endpoint info.detected_broker_endpoints <> "-" <> client_identifier info

abbrev or_none : Option (List String) → List String
or_none none = []
or_none (some logs) = logs

unfoldable pub logs_for : Dict (List String) → PodAccessInfo ℕ → List String
logs_for cache info =
    if client_identifier info == "" then [] else or_none (Dict.lookup (cache_key info) cache)

unfoldable pub tasks : Dict (List String) → List ProblemToAnalyze → List Task
tasks cache [] = []
tasks cache ((info, problem) ∷ rest) =
    record { info = info; problem = problem; broker_logs = logs_for cache info } ∷ tasks cache rest

pub record AiResult : Type 0 where
  pub pod_name : String
  pub problem_message : String
  pub analysis : Result String
  pub broker_log_snippets : List String

abbrev pub result_key : AiResult → String
result_key r = r.pod_name <> r.problem_message

abbrev pub problem_key : PodAccessInfo ℕ → ProblemDetail → String
problem_key info problem = info.pod_name <> problem.message

module _ (S : Services) where
  open S use {World, error_text, log_clusters, arrival}

  unfoldable pub fetch_logs : String → PodAccessInfo ℕ → World → List String
  fetch_logs cluster_key info w =
      if contains log_clusters cluster_key
      then check (find_relevant_broker_logs S cluster_key (client_identifier info) (15 * minute) w)
          (λ e. ("Error fetching broker logs: " <> error_text e) ∷ []) (λ logs. logs)
      else ("Log fetching skipped: No log finder configured for cluster '" <> cluster_key <> "'")
        ∷ []

  -- The body of the loop that fetches logs before the analysis.
  unfoldable pub cache_logs : PodAccessInfo ℕ → World → Dict (List String) → Dict (List String)
  cache_logs info w cache =
      let cluster_key = get_cluster_key_from_endpoint info.detected_broker_endpoints in
      if client_identifier info == ""
      then cache
      else if cluster_key == "unknown"
      then cache
      else elim (Dict.lookup (cache_key info) cache) [
        | some _ ↦ cache
        | none ↦ Dict.insert (cache_key info) (fetch_logs cluster_key info w) cache
      ]

  unfoldable pub cache_all_logs :
      List ProblemToAnalyze → World → Dict (List String) → Dict (List String)
  cache_all_logs [] w cache = cache
  cache_all_logs ((info, problem) ∷ rest) w cache = cache_all_logs rest w (cache_logs info w cache)

  unfoldable pub run_task : Task → Go World AiResult
  run_task task w =
      let (r, w') =
        analyze S task.info (record task.problem { broker_log_snippets = task.broker_logs }) w in
      (
        record {
          pod_name = task.info.pod_name;
          problem_message = task.problem.message;
          analysis = r;
          broker_log_snippets = task.broker_logs;
        },
        w',
      )

  unfoldable pub run_tasks : List Task → Go World (List AiResult)
  run_tasks [] = pure []
  run_tasks (task ∷ rest) = run_task task >>= λ r. run_tasks rest >>= λ rs. pure (r ∷ rs)

  abbrev pub analysis_text : AiResult → String
  analysis_text r = check r.analysis (λ e. "AI analysis failed: " <> error_text e) (λ text. text)

  -- `allAIResults` and `allBrokerLogs` have the same keys: they are one map here.
  abbrev pub Merged : Type 0
  Merged = Dict (String × List String)

  -- The loop over the channel.
  unfoldable pub collect_results : List AiResult → Merged → Merged
  collect_results [] merged = merged
  collect_results (r ∷ rs) merged =
      collect_results rs
        (Dict.insert (result_key r) (analysis_text r, r.broker_log_snippets) merged)

  abbrev analyzed : Option (String × List String) → ProblemDetail → ProblemDetail
  analyzed none problem = problem
  analyzed (some (analysis, logs)) problem = record problem {
    ai_analysis = analysis;
    broker_log_snippets = logs;
  }

  unfoldable pub apply_result : Merged → PodAccessInfo ℕ → ProblemDetail → ProblemDetail
  apply_result merged info problem =
      analyzed (Dict.lookup (problem_key info problem) merged) problem

  unfoldable pub apply_results : Merged → Infos → Slices → Slices
  apply_results merged [] slices = slices
  apply_results merged (info ∷ infos) slices =
      apply_results merged infos
        (change_slice info.recent_problems (map (apply_result merged info)) slices)

  -- With no problem nothing is run.
  unfoldable pub analyze_listed : Infos → Slices → List ProblemToAnalyze → Go World Slices
  analyze_listed infos slices [] w = (slices, w)
  analyze_listed infos slices (p ∷ problems) w =
      let cache = cache_all_logs (p ∷ problems) w [] in
      let (results, w') = run_tasks (arrival w (tasks cache (p ∷ problems))) w in
      (apply_results (collect_results results []) infos slices, w')

  unfoldable pub analyze_problems : Infos → Slices → Go World Slices
  analyze_problems infos slices = analyze_listed infos slices (problems_to_analyze infos slices)
