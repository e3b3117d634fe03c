-- ===== src/Kafka/Inspect.antt =====
-- The loop over the pods in Reconcile, and its helpers, of kafka-access-monitor-operator/internal/
-- controller/kafkaaccessquery_controller.go.
use nacho_operators.Common.{
  ℕ, zero, suc, String, ◌<>◌, ◌==◌, Bool, not, ◌&&◌, ◌||◌, Option, none, some, List, [], ◌∷◌, ◌++◌,
  map, contains, length, if◌then◌else◌, exists, check,
}
use nacho_operators.Common.Dict
use nacho_operators.Common.Dict.{Dict}
use nacho_operators.Common.Int.{ℤ, pos}
use nacho_operators.Common.Strings.{
  to_lower, has_suffix, trim_space, split_at_char, replace_char, join,
}
use nacho_operators.Kafka.Parser.{KafkaConfigDetails, parse}
use nacho_operators.Kafka.Types.{
  Spec, ProblemDetail, PodAccessInfo, EnvVar, Container, Pod, ConfigMap,
}
use nacho_operators.Kafka.Services.{Services}
use nacho_operators.Kafka.Diagnostics.{fetch_recent_problems}
use nacho_operators.Kafka.Discovery.{get_mounted_config_maps, find_authn_service_account_email}

-- The slices of problems that were made, by their handles: copies of a slice share its elements.
abbrev pub Slices : Type 0
Slices = List (List ProblemDetail)

abbrev pub slice_at : ℕ → Slices → List ProblemDetail
slice_at n [] = []
slice_at zero (problems ∷ slices) = problems
slice_at (suc n) (problems ∷ slices) = slice_at n slices

abbrev pub change_slice : ℕ → (List ProblemDetail → List ProblemDetail) → Slices → Slices
change_slice n f [] = []
change_slice zero f (problems ∷ slices) = f problems ∷ slices
change_slice (suc n) f (problems ∷ slices) = problems ∷ change_slice n f slices

abbrev pub Infos : Type 0
Infos = List (PodAccessInfo ℕ)

unfoldable pub generate_preferred_user_name : String → String
generate_preferred_user_name email = replace_char 64 "-" (to_lower email)

unfoldable pub get_container_type : Pod → String → String
get_container_type pod name =
    if exists (λ (c : Container). c.name == name) pod.init_containers then " (init)" else ""

-- `problemDetails[:maxProblemsToStore]`
abbrev pub at_most_one : List ProblemDetail → List ProblemDetail
at_most_one [] = []
at_most_one (problem ∷ problems) = problem ∷ []

-- What the inspection of a pod has found before its containers are looked at.
pub record Findings : Type 0 where
  pub pod : Pod
  pub email : String
  pub user : String
  pub tenants : List String
  pub problems : ℕ

unfoldable pub env_info : Findings → Container → List String → String → PodAccessInfo ℕ
env_info f container endpoints source = record {
  pod_name = f.pod.name;
  namespace = f.pod.namespace;
  client_type = "Unknown";
  detected_broker_endpoints = endpoints;
  schema_registry_url = "";
  container_name = container.name <> get_container_type f.pod container.name;
  source_of_endpoint = source;
  client_id = "";
  group_id = "";
  auto_offset_reset = "";
  auto_commit = none;
  additional_config = [];
  topics = [];
  max_poll_records = pos 0;
  max_poll_interval_ms = pos 0;
  service_account_email = f.email;
  preferred_user_name = f.user;
  authorized_tenants = f.tenants;
  authorized_roles = [];
  recent_problems = f.problems;
}

unfoldable pub final_group_id : Findings → KafkaConfigDetails → String
final_group_id f details =
    if details.group_id == "" && not (details.consumer_group_suffix == "")
    then f.user <> details.consumer_group_suffix
    else details.group_id

unfoldable pub config_info : Findings → String → String → KafkaConfigDetails → PodAccessInfo ℕ
config_info f cm_name key details = record {
  pod_name = f.pod.name;
  namespace = f.pod.namespace;
  client_type = details.client_type;
  detected_broker_endpoints = details.brokers;
  schema_registry_url = details.schema_registry_url;
  container_name = "(mounted-cm:" <> cm_name <> ")";
  source_of_endpoint = "configmap:" <> cm_name <> ", key:" <> key;
  client_id = details.client_id;
  group_id = final_group_id f details;
  auto_offset_reset = details.auto_offset_reset;
  auto_commit = details.auto_commit;
  additional_config = [];
  topics = details.topics;
  max_poll_records = details.max_poll_records;
  max_poll_interval_ms = details.max_poll_interval_ms;
  service_account_email = f.email;
  preferred_user_name = f.user;
  authorized_tenants = f.tenants;
  authorized_roles = [];
  recent_problems = f.problems;
}

unfoldable pub is_inspected : Pod → Bool
is_inspected pod = not pod.is_deleting && pod.phase == "Running"

-- A value with the note where it comes from.
abbrev Resolved : Type 0
Resolved = Option (String × String)

abbrev pub endpoints_of : String → List String
endpoints_of value = if value == "" then [] else map trim_space (split_at_char 44 value)

abbrev pub is_yaml : String → Bool
is_yaml key = has_suffix key ".yaml" || has_suffix key ".yml"

-- What the loops have found so far.
pub record Seen : Type 0 where
  pub slices : Slices
  pub infos : Infos

module _ (S : Services) where
  open S use {World, get_config_map, rules, unmarshal_yaml}

  unfoldable pub resolve : String → EnvVar → World → Resolved
  resolve namespace v w =
      if v.value == ""
      then elim v.config_map_key [
        | none ↦ none
        | some ref ↦
            check (get_config_map (record { namespace = namespace; name = ref.name }) w) (λ _. none)
              λ cm. elim (Dict.lookup ref.key cm.entries) [
                | none ↦ none
                | some found ↦ some (found, "env-from-cm:" <> ref.name <> ":" <> ref.key)
              ]
      ]
      else some (v.value, "env:" <> v.name)

  abbrev with_resolved : Resolved → List String × List String → List String × List String
  with_resolved none found = found
  with_resolved (some (value, source)) (endpoints, sources) =
      (endpoints_of value ++ endpoints, source ∷ sources)

  -- The loop over the variables: the endpoints, and where they come from.
  unfoldable pub check_vars : List String → String → List EnvVar → World → List String × List String
  check_vars searched namespace [] w = ([], [])
  check_vars searched namespace (v ∷ vars) w =
      let rest = check_vars searched namespace vars w in
      if contains searched v.name then with_resolved (resolve namespace v w) rest else rest

  unfoldable pub check_container_env_vars :
      Pod → Container → Spec → World → List String × List String
  check_container_env_vars pod container spec w =
      check_vars spec.environment_variable_names pod.namespace container.env w

  unfoldable pub env_infos : Findings → Spec → List Container → World → Infos
  env_infos f spec [] w = []
  env_infos f spec (container ∷ containers) w =
      let rest = env_infos f spec containers w in
      let (endpoints, sources) = check_container_env_vars f.pod container spec w in
      elim endpoints [
        | [] ↦ rest
        | e ∷ es ↦ env_info f container (e ∷ es) (join sources "; ") ∷ rest
      ]

  -- The loop over the entries of a config map.
  unfoldable pub entry_infos : Findings → String → List (String × String) → Infos
  entry_infos f cm_name [] = []
  entry_infos f cm_name ((key, content) ∷ entries) =
      let rest = entry_infos f cm_name entries in
      if is_yaml key
      then elim (parse rules unmarshal_yaml content) [
        | none ↦ rest
        | some details ↦ config_info f cm_name key details ∷ rest
      ]
      else rest

  unfoldable pub config_infos : Findings → List ConfigMap → Infos
  config_infos f [] = []
  config_infos f (cm ∷ cms) =
      let rest = config_infos f cms in
      if cm.name == "cadence" then rest else entry_infos f cm.name cm.entries ++ rest

  abbrev or_empty : Option (List String) → List String
  or_empty none = []
  or_empty (some found) = found

  module _ (spec : Spec) (tenants : Dict (List String)) (since : ℤ) where
    abbrev pub findings : Pod → ℕ → World → Findings
    findings pod handle w =
        let email = check (find_authn_service_account_email S pod w) (λ _. "") (λ found. found) in
        record {
          pod = pod;
          email = email;
          user = generate_preferred_user_name email;
          tenants = or_empty (Dict.lookup (generate_preferred_user_name email) tenants);
          problems = handle;
        }

    -- The body of the loop over the pods: it makes one slice, which all its entries share.
    unfoldable pub inspect_pod : Pod → World → Seen → Seen
    inspect_pod pod w seen =
        let f = findings pod (length seen.slices) w in
        record {
          slices = seen.slices ++ (at_most_one (fetch_recent_problems S pod since w) ∷ []);
          infos =
              seen.infos
              ++ env_infos f spec (pod.containers ++ pod.init_containers) w
              ++ config_infos f (get_mounted_config_maps S pod w);
        }

    unfoldable pub inspect_pods : List Pod → World → Seen → Seen
    inspect_pods [] w seen = seen
    inspect_pods (pod ∷ pods) w seen =
        inspect_pods pods w (if is_inspected pod then inspect_pod pod w seen else seen)

-- `countUniquePods`: the names with their namespaces, once each.
abbrev pub unique_pods : Infos → List String → List String
unique_pods [] found = found
unique_pods (info ∷ infos) found =
    let name = info.namespace <> "/" <> info.pod_name in
    unique_pods infos (if contains found name then found else name ∷ found)

unfoldable pub count_unique_pods : Infos → ℕ
count_unique_pods infos = length (unique_pods infos [])
