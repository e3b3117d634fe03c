-- ===== src/Kafka/Sharing.antt =====
-- Two entries of one pod share their problems, and so do the loops that write to them.
use nacho_operators.Common.{
  ℕ, zero, suc, String, ◌<>◌, ◌≡◌, refl, ap, subst, sym, ◌∙◌, ◌==◌, true, false, List, [], ◌∷◌, map,
  nat_eq, ok, if◌then◌else◌,
}
use nacho_operators.Common.Meta.{Time}
use nacho_operators.Common.Strings.{join}
use nacho_operators.Kafka.Types.{ProblemDetail, PodAccessInfo, Pod}
use nacho_operators.Kafka.Services.{Services}
use nacho_operators.Kafka.Google.{fetch_broker_metrics}
use nacho_operators.Kafka.Inspect.{Slices, slice_at, change_slice}
use nacho_operators.Kafka.Enrich.{
  get_cluster_key_from_endpoint, find_broker_pods_for_cluster, with_metrics, with_all_metrics,
  summaries, problem_timestamp, enrich_problem, enrich_info, enrich_infos,
}

slice_at-change_slice :
    (h : ℕ) (f : List ProblemDetail → List ProblemDetail) (slices : Slices)
    → f [] ≡ []
    → slice_at h (change_slice h f slices) ≡ f (slice_at h slices)
slice_at-change_slice h f [] e = sym e
slice_at-change_slice zero f (problems ∷ slices) e = refl
slice_at-change_slice (suc h) f (problems ∷ slices) e = slice_at-change_slice h f slices e

module _ (S : Services) (env : String) (w : S.World) where
  -- The broker pods of an entry are known: metrics are on, and the cluster has this list of them.
  abbrev pub HasBrokers : PodAccessInfo ℕ → List Pod → Type 0
  HasBrokers info brokers =
      (S.has_metrics_finder ≡ true)
      × ((get_cluster_key_from_endpoint info.detected_broker_endpoints == "unknown") ≡ false)
      × (find_broker_pods_for_cluster S
            (get_cluster_key_from_endpoint info.detected_broker_endpoints) env w
          ≡ ok brokers)

  abbrev pub summary_of : List Pod → ProblemDetail → String
  summary_of brokers problem = join (summaries S brokers (problem_timestamp S problem w) w) "; "

  with_all_metrics-kept :
      (brokers : List Pod) (at : Time) (problem : ProblemDetail)
      → ((with_all_metrics S brokers at w problem).message ≡ problem.message)
        × ((with_all_metrics S brokers at w problem).last_seen_timestamp
            ≡ problem.last_seen_timestamp)
  unfolding with_all_metrics with_metrics
  with_all_metrics-kept [] at problem = (refl, refl)
  with_all_metrics-kept (broker ∷ brokers) at problem =
      with_all_metrics-kept brokers at
        (with_metrics S (fetch_broker_metrics S broker.name at w) problem)

  enrich_info-slice :
      (info : PodAccessInfo ℕ) (brokers : List Pod) (slices : Slices)
      → HasBrokers info brokers
      → slice_at info.recent_problems (enrich_info S env w info slices)
        ≡ map (enrich_problem S brokers w) (slice_at info.recent_problems slices)
  unfolding enrich_info
  enrich_info-slice info brokers slices (p, q, r) =
      simp (p, q, r)
        (slice_at-change_slice info.recent_problems (map (enrich_problem S brokers w)) slices refl)

  enrich_problem_message :
      (brokers : List Pod) (problem : ProblemDetail)
      → ((enrich_problem S brokers w problem).message
          ≡ problem.message <> summary_of brokers problem)
        × ((enrich_problem S brokers w problem).last_seen_timestamp ≡ problem.last_seen_timestamp)
  unfolding enrich_problem
  enrich_problem_message brokers problem = (
    ap (λ t. t <> summary_of brokers problem)
        (with_all_metrics-kept brokers (problem_timestamp S problem w) problem).0,
    (with_all_metrics-kept brokers (problem_timestamp S problem w) problem).1,
  )

  abbrev pub problem_messages : List ProblemDetail → List String
  problem_messages [] = []
  problem_messages (problem ∷ problems) = problem.message ∷ problem_messages problems

  -- The messages with the summaries of two lists of brokers.
  abbrev pub summarised : List Pod → List Pod → List ProblemDetail → List String
  summarised first second [] = []
  summarised first second (problem ∷ problems) =
      ((problem.message <> summary_of first problem) <> summary_of second problem)
      ∷ summarised first second problems

  summary_of-enriched :
      (first second : List Pod) (problem : ProblemDetail)
      → summary_of second (enrich_problem S first w problem) ≡ summary_of second problem
  summary_of-enriched first second problem =
      ap
        (λ (t : Time). join (summaries S second (if nat_eq t.instant 0 then S.now w else t) w) "; ")
        (enrich_problem_message first problem).1

  problem_messages_twice :
      (first second : List Pod) (problems : List ProblemDetail)
      → problem_messages (map (enrich_problem S second w) (map (enrich_problem S first w) problems))
        ≡ summarised first second problems
  problem_messages_twice first second [] = refl
  problem_messages_twice first second (problem ∷ problems) =
      λ i. twice i ∷ problem_messages_twice first second problems i
    where
      twice :
          (enrich_problem S second w (enrich_problem S first w problem)).message
          ≡ (problem.message <> summary_of first problem) <> summary_of second problem
      twice = (enrich_problem_message second (enrich_problem S first w problem)).0 ∙ (λ i.
          (enrich_problem_message first problem).0 i <> summary_of-enriched first second problem i)

  -- Two entries with one slice, as two containers or config maps of a pod have it, each add the
  -- summary of their brokers to every problem of the slice: the messages of both end with the two
  -- summaries, also where both name the same cluster.
  pub enrich_infos-shared :
      (info other : PodAccessInfo ℕ) (first second : List Pod) (slices : Slices)
      → other.recent_problems ≡ info.recent_problems
      → HasBrokers info first
      → HasBrokers other second
      → problem_messages
          (slice_at info.recent_problems (enrich_infos S env w (info ∷ other ∷ []) slices))
        ≡ summarised first second (slice_at info.recent_problems slices)
  unfolding enrich_infos
  enrich_infos-shared info other first second slices same p q =
      ap problem_messages (
        subst
          (λ h.
            slice_at h (enrich_info S env w other (enrich_info S env w info slices))
            ≡ map (enrich_problem S second w) (slice_at h (enrich_info S env w info slices)))
          same (enrich_info-slice other second (enrich_info S env w info slices) q))
      ∙ ap (λ ps. problem_messages (map (enrich_problem S second w) ps))
          (enrich_info-slice info first slices p)
      ∙ problem_messages_twice first second (slice_at info.recent_problems slices)
