-- ===== src/Kafka/Wiring.antt =====
-- What the program makes of its files and of the events.
use nacho_operators.Common.{
  String, ◌≡◌, refl, sym, ◌∙◌, ap, subst, ◌≢◌, ◌↔◌, Bool, true, false, ◌&&◌, ◌==◌, eq_iff, contains,
  arith, Result, ok, err,
}
use nacho_operators.Common.Strings.{trim_space}
use nacho_operators.Kafka.Manager.{
  Object, event, other, unless_empty, index_name, index_namespace, index_type, index_kind, Platform,
  new_dynamic_parser, new_slack_reporter, new_gemini_analyzer, Settings, read_settings,
  new_gcp_metrics_finder, metrics_project_id, MetricsFinder, Reconciler, make_reconciler,
  open_log_finders, broker_projects, no_finders,
}

-- The object stands under the values that the diagnostics look for.
abbrev is_found : String → String → Object → Bool
is_found namespace name o =
    contains (index_kind o) "Pod"
    && contains (index_name o) name
    && contains (index_namespace o) namespace
    && contains (index_type o) "Warning"

abbrev IsWarningOf : String → String → Object → Type 0
IsWarningOf namespace name other = ⊥
IsWarningOf namespace name (event e) =
    (e.involved_kind ≡ "Pod")
    × (e.involved_name ≡ name)
    × (e.involved_namespace ≡ namespace)
    × (e.kind ≡ "Warning")

contains-unless_empty :
    (stored wanted : String)
    → wanted ≢ ""
    → contains (unless_empty stored) wanted ≡ (stored == wanted)
contains-unless_empty stored wanted p =
    ground (arith, eq_iff stored "", eq_iff stored wanted, eq_iff "" wanted)

and_iff :
    (a b c d : Bool)
    → ((a && b && c && d) ≡ true) ↔ ((a ≡ true) × (b ≡ true) × (c ≡ true) × (d ≡ true))
and_iff a b c d = (λ h. ground arith, λ h. ground arith)

-- Under the four indexes an object is found for a pod, whose name and namespace are not empty, exactly
-- if it is an event that warns of this pod.
is_found_iff :
    (namespace name : String)
    → namespace ≢ ""
    → name ≢ ""
    → (o : Object) → (is_found namespace name o ≡ true) ↔ IsWarningOf namespace name o
unfolding index_name index_namespace index_type index_kind
is_found_iff namespace name p q other = (λ h. cc, λ h. absurd h)
is_found_iff namespace name p q (event e) =
    rw
      (
        contains-unless_empty e.involved_kind "Pod" (λ h. ground (arith, eq_iff "Pod" "")),
        contains-unless_empty e.involved_name name q,
        contains-unless_empty e.involved_namespace namespace p,
        contains-unless_empty e.kind "Warning" (λ h. ground (arith, eq_iff "Warning" "")),
      )
      (
        λ h.
            let (a, b, c, d) = (and_iff _ _ _ _).0 h in
            ((eq_iff _ _).0 a, (eq_iff _ _).0 b, (eq_iff _ _).0 c, (eq_iff _ _).0 d),
        λ (a, b, c, d).
            (and_iff _ _ _ _).1
              ((eq_iff _ _).1 a, (eq_iff _ _).1 b, (eq_iff _ _).1 c, (eq_iff _ _).1 d),
      )

dev-ne-prod : ◌≢◌ {A = String} "mm-k8s-dev-01" "mm-k8s-prod-01"
dev-ne-prod h = ground (arith, eq_iff "mm-k8s-dev-01" "mm-k8s-prod-01")

module _ (P : Platform) (w : P.World) where
  -- The settings that the three files give.
  abbrev pub Configured : Settings → Type 0
  Configured s =
      ((endpoint : String) × (P.read_file "/etc/slack/notificationEndpoint" w ≡ ok endpoint)
        × (s.slack_reporter.webhook_url ≡ trim_space endpoint))
      × ((text : String) × (P.read_file "/etc/parser-config/rules.yaml" w ≡ ok text)
          × (P.unmarshal_rules text ≡ ok s.rules))
      × ((key : String) × (P.read_file "/etc/ai/apiKey" w ≡ ok key)
          × (s.ai_analyzer.api_key ≡ trim_space key))
      × (s.ai_analyzer.api_key ≢ "")

  read_settings-Configured : (s : Settings) → read_settings P w ≡ ok s → Configured s
  unfolding read_settings new_dynamic_parser new_slack_reporter new_gemini_analyzer
  read_settings-Configured s h =
      by_files (P.read_file "/etc/slack/notificationEndpoint" w) refl
        (P.read_file "/etc/parser-config/rules.yaml" w) refl (P.read_file "/etc/ai/apiKey" w) refl
    where
      by_files :
          (a : Result String)
          → P.read_file "/etc/slack/notificationEndpoint" w ≡ a
          → (b : Result String) → P.read_file "/etc/parser-config/rules.yaml" w ≡ b
          → (c : Result String) → P.read_file "/etc/ai/apiKey" w ≡ c
          → Configured s
      by_files (err e) p b q c r = absurd (ground arith)
      by_files (ok endpoint) p (err e) q c r = absurd (ground arith)
      by_files (ok endpoint) p (ok text) q (err e) r = absurd (ground arith)
      by_files (ok endpoint) p (ok text) q (ok key) r = (
        (endpoint, p, ground arith),
        (text, q, ground arith),
        (key, r, ground arith),
        ground (arith, eq_iff (trim_space key) ""),
      )

  metrics_project_iff :
      (metrics_project_id P ≡ "mm-k8s-prod-01") ↔ (P.execution_environment ≡ "prod")
  unfolding metrics_project_id
  metrics_project_iff =
      by_tests (P.execution_environment == "") refl (P.execution_environment == "prod") refl
    where
      by_tests :
          (a : Bool)
          → (P.execution_environment == "") ≡ a
          → (b : Bool) → (P.execution_environment == "prod") ≡ b
          → (metrics_project_id P ≡ "mm-k8s-prod-01") ↔ (P.execution_environment ≡ "prod")
      by_tests true p b q = (
        λ h. absurd (dev-ne-prod (sym (rw (metrics_project_id, p) refl) ∙ h)),
        λ h. absurd (ground (arith, eq_iff P.execution_environment "", eq_iff "prod" "")),
      )
      by_tests false p true q = (λ h. (eq_iff _ _).0 q, λ h. rw (metrics_project_id, p, q) refl)
      by_tests false p false q = (
        λ h. absurd (dev-ne-prod (sym (rw (metrics_project_id, p, q) refl) ∙ h)),
        λ h. absurd (ground (arith, eq_iff P.execution_environment "prod")),
      )

  new_gcp_metrics_finder-project :
      (project : String) (u : P.World) {m : MetricsFinder P}
      → (new_gcp_metrics_finder P project u).0 ≡ ok m
      → m.project_id ≡ project
  unfolding new_gcp_metrics_finder
  new_gcp_metrics_finder-project project u h = ground arith

  -- A reconciler that the program makes sends its reports to the address in the file of the Slack
  -- secret, and asks the AI service with the key in its file, both without the blanks around them, and
  -- parses by the rules in theirs; the key is not empty. Its metrics are those of the production project
  -- exactly if the environment is "prod".
  pub make_reconciler-Configured :
      {r : Reconciler P} {w' : P.World}
      → make_reconciler P w ≡ (ok r, w')
      → Configured r.settings
        × ((r.metrics_finder.project_id ≡ "mm-k8s-prod-01") ↔ (P.execution_environment ≡ "prod"))
  unfolding make_reconciler new_gcp_metrics_finder metrics_project_id
  make_reconciler-Configured {r} {w'} h =
      by_results (read_settings P w) refl
        (new_gcp_metrics_finder P (metrics_project_id P) opened_log_finders).0 refl
    where
      opened_log_finders : P.World
      opened_log_finders = (open_log_finders P (P.range w (broker_projects P)) (no_finders P) w).1

      by_results :
          (a : Result Settings)
          → read_settings P w ≡ a
          → (b : Result (MetricsFinder P))
          → (new_gcp_metrics_finder P (metrics_project_id P) opened_log_finders).0 ≡ b
          → Configured r.settings
            × ((r.metrics_finder.project_id ≡ "mm-k8s-prod-01")
                ↔ (P.execution_environment ≡ "prod"))
      by_results (err e) p b q = absurd (ground arith)
      by_results (ok s) p (err e) q = absurd (ground arith)
      by_results (ok s) p (ok m) q =
          let same : (s ≡ r.settings) × (m ≡ r.metrics_finder) = (ground arith, ground arith) in
          let of_project : metrics_project_id P ≡ r.metrics_finder.project_id =
            sym (new_gcp_metrics_finder-project _ _ q)
            ∙ ap (λ (f : MetricsFinder P). f.project_id) same.1 in
          (
            subst Configured same.0 (read_settings-Configured s p),
            subst (λ id. (id ≡ "mm-k8s-prod-01") ↔ (P.execution_environment ≡ "prod")) of_project
                metrics_project_iff,
          )
