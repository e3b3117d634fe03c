-- ===== src/Kafka/Arrival.antt =====
-- The results of the analysis, in whatever order they arrive.
use nacho_operators.Common.{
  ℕ, String, ◌≡◌, refl, eq_iff, false, some, List, [], ◌∷◌, ◌++◌, contains, arith,
}
use nacho_operators.Common.Dict
use nacho_operators.Common.Dict.{Dict, lookup-insert}
use nacho_operators.Kafka.Types.{ProblemDetail, PodAccessInfo}
use nacho_operators.Kafka.Services.{Services}
use nacho_operators.Kafka.Analysis.{
  AiResult, result_key, problem_key, analysis_text, Merged, collect_results, apply_result,
}

abbrev pub result_keys : List AiResult → List String
result_keys [] = []
result_keys (r ∷ rs) = result_key r ∷ result_keys rs

module _ (S : Services) where
  pub collect_results-other :
      (rs : List AiResult) (merged : Merged S) (key : String)
      → contains (result_keys rs) key ≡ false
      → Dict.lookup key (collect_results S rs merged) ≡ Dict.lookup key merged
  unfolding collect_results
  collect_results-other [] merged key h = refl
  collect_results-other (r ∷ rs) merged key h = ground (
    arith,
    collect_results-other rs
        (Dict.insert (result_key r) (analysis_text S r, r.broker_log_snippets) merged) key,
    lookup-insert (result_key r) key (analysis_text S r, r.broker_log_snippets) merged,
  )

  collect_results-found :
      (before after : List AiResult) (r : AiResult) (merged : Merged S)
      → contains (result_keys after) (result_key r) ≡ false
      → Dict.lookup (result_key r) (collect_results S (before ++ (r ∷ after)) merged)
        ≡ some (analysis_text S r, r.broker_log_snippets)
  unfolding collect_results
  collect_results-found [] after r merged h = ground (
    arith,
    collect_results-other after
        (Dict.insert (result_key r) (analysis_text S r, r.broker_log_snippets) merged)
        (result_key r),
    lookup-insert (result_key r) (result_key r) (analysis_text S r, r.broker_log_snippets) merged,
    eq_iff (result_key r) (result_key r),
  )
  collect_results-found (b ∷ before) after r merged h =
      collect_results-found before after r
        (Dict.insert (result_key b) (analysis_text S b, b.broker_log_snippets) merged) h

  -- Wherever a result arrives among the others, the problem with its key gets its analysis, or the
  -- text of its error, and its logs, if no result that arrives later has that key.
  pub apply_result-arrival :
      (before after : List AiResult) (r : AiResult) (info : PodAccessInfo ℕ)
      (problem : ProblemDetail)
      → problem_key info problem ≡ result_key r
      → contains (result_keys after) (result_key r) ≡ false
      → apply_result S (collect_results S (before ++ (r ∷ after)) []) info problem
        ≡ record problem {
          ai_analysis = analysis_text S r;
          broker_log_snippets = r.broker_log_snippets;
        }
  unfolding apply_result
  apply_result-arrival before after r info problem p h =
      rw (apply_result, p, collect_results-found before after r [] h) refl
