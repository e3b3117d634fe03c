-- ===== src/Kafka/Answers.antt =====
-- Every problem that is analyzed gets an answer, in whatever order the results arrive.
use mathlib.Core.List.{Perm, Memᴰ}
use mathlib.Core.List.Perm
use mathlib.Core.Bool.{Bool-set}
use mathlib.Core.Logic.{∥∥₁_elim}
use nacho_operators.Common.{
  String, ◌<>◌, ◌≡◌, refl, ap, ◌∙◌, eq_iff, Bool, true, false, some, List, [], ◌∷◌, map, contains,
  arith, Go,
}
use nacho_operators.Common.Dict
use nacho_operators.Common.Dict.{Dict, lookup-insert}
use nacho_operators.Kafka.Types.{Task}
use nacho_operators.Kafka.Services.{Services}
use nacho_operators.Kafka.Analysis.{
  ProblemToAnalyze, tasks, logs_for, cache_all_logs, run_task, run_tasks, AiResult, result_key,
  problem_key, analysis_text, Merged, collect_results, apply_result,
}
use nacho_operators.Kafka.Arrival.{result_keys, collect_results-other}

-- The channel delivers the result of each task once.
abbrev pub Delivers : Services → Type 0
Delivers S = (w : S.World) (ts : List Task) → Perm (S.arrival w ts) ts

abbrev task_key : Task → String
task_key t = t.info.pod_name <> t.problem.message

contains-task :
    (ts : List Task) (t : Task) → Memᴰ t ts → contains (map task_key ts) (task_key t) ≡ true
contains-task [] t m = elim m [ ]
contains-task (u ∷ ts) t (Memᴰ.head e) =
    ground (arith, eq_iff (task_key u) (task_key t), ap task_key e)
contains-task (u ∷ ts) t (Memᴰ.tail m) = ground (arith, contains-task ts t m)

-- The task of a problem.
abbrev task_of : Dict (List String) → ProblemToAnalyze → Task
task_of cache p = record { info = p.0; problem = p.1; broker_logs = logs_for cache p.0 }

tasks-Memᴰ :
    (cache : Dict (List String)) (problems : List ProblemToAnalyze) (p : ProblemToAnalyze)
    → Memᴰ p problems
    → Memᴰ (task_of cache p) (tasks cache problems)
unfolding tasks
tasks-Memᴰ cache [] p m = elim m [ ]
tasks-Memᴰ cache (q ∷ problems) p (Memᴰ.head e) = Memᴰ.head (ap (task_of cache) e)
tasks-Memᴰ cache (q ∷ problems) p (Memᴰ.tail m) = Memᴰ.tail (tasks-Memᴰ cache problems p m)

module _ (S : Services) where
  result_keys-run_tasks :
      (ts : List Task) (w : S.World) → result_keys (run_tasks S ts w).0 ≡ map task_key ts
  unfolding run_tasks run_task
  result_keys-run_tasks [] w = refl
  result_keys-run_tasks (t ∷ ts) w = ap (λ ks. task_key t ∷ ks) (result_keys-run_tasks ts _)

  -- What was collected under the key is one of the results with that key.
  abbrev Answered : List AiResult → String → Merged S → Type 0
  Answered rs key merged =
      (r : AiResult) × Memᴰ r rs
      × (result_key r ≡ key)
      × (Dict.lookup key merged ≡ some (analysis_text S r, r.broker_log_snippets))

  collect_results-Answered :
      (rs : List AiResult) (merged : Merged S) (key : String)
      → contains (result_keys rs) key ≡ true
      → Answered rs key (collect_results S rs merged)
  unfolding collect_results
  collect_results-Answered [] merged key h = absurd (ground arith)
  collect_results-Answered (r ∷ rs) merged key h =
      by_later (contains (result_keys rs) key) refl
        (λ later. collect_results-Answered rs next key later)
    where
      next : Merged S
      next = Dict.insert (result_key r) (analysis_text S r, r.broker_log_snippets) merged

      by_later :
          (b : Bool)
          → contains (result_keys rs) key ≡ b
          → (contains (result_keys rs) key ≡ true → Answered rs key (collect_results S rs next))
          → Answered (r ∷ rs) key (collect_results S rs next)
      by_later true p later = let (a, m, e, l) = later p in (a, Memᴰ.tail m, e, l)
      by_later false p later =
          let same : result_key r ≡ key = ground (arith, eq_iff (result_key r) key) in
          (
            r,
            Memᴰ.head refl,
            same,
            collect_results-other S rs next key p
                ∙ lookup-insert (result_key r) key (analysis_text S r, r.broker_log_snippets) merged
                ∙ ground (arith, eq_iff (result_key r) key),
          )

  -- The results for the problems, in the order in which they arrive.
  abbrev pub results_of : List ProblemToAnalyze → Go S.World (List AiResult)
  results_of problems w =
      run_tasks S (S.arrival w (tasks (cache_all_logs S problems w []) problems)) w

  module _ (delivers : Delivers S) where
    contains-results_of :
        (problems : List ProblemToAnalyze) (w : S.World) (p : ProblemToAnalyze)
        → Memᴰ p problems
        → contains (result_keys (results_of problems w).0) (problem_key p.0 p.1) ≡ true
    contains-results_of problems w p m =
        let cache = cache_all_logs S problems w [] in
        let ts = tasks cache problems in
        let t = task_of cache p in
        rw (result_keys-run_tasks (S.arrival w ts) w) (
          ∥∥₁_elim ((Perm.mem_iff (delivers w ts)).1 ∣ tasks-Memᴰ cache problems p m ∣₁)
            (Bool-set _ _) (λ a. contains-task (S.arrival w ts) t a))

    -- Each problem that is analyzed gets the analysis of a result with its key, or the text of its
    -- error, and its logs, in whatever order the results arrive, where the channel delivers the result
    -- of each task once: no problem is left without an answer.
    pub apply_result-answers :
        (problems : List ProblemToAnalyze) (w : S.World) (p : ProblemToAnalyze)
        → Memᴰ p problems
        → (r : AiResult) × Memᴰ r (results_of problems w).0
          × (result_key r ≡ problem_key p.0 p.1)
          × (apply_result S (collect_results S (results_of problems w).0 []) p.0 p.1
              ≡ record (p.1) {
                ai_analysis = analysis_text S r;
                broker_log_snippets = r.broker_log_snippets;
              })
    unfolding apply_result
    apply_result-answers problems w p m =
        let (r, a, e, l) =
          collect_results-Answered (results_of problems w).0 [] (problem_key p.0 p.1)
            (contains-results_of problems w p m) in
        (r, a, e, rw l refl)
