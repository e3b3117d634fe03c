-- ===== src/Kafka/Memory.antt =====
-- A cluster in memory with a web server, at which the theorems are applied. JSON is the text itself,
-- YAML is not read, and numbers stand for floating-point numbers.
use nacho_operators.Common.{
  ℕ, String, ◌≡◌, refl, true, none, some, List, [], ◌∷◌, ◌++◌, errorf, ok, err, if◌then◌else◌,
  ok-injective, sym, ◌∙◌,
}
use nacho_operators.Common.Dict.{Dict}
use nacho_operators.Common.InMemory.{is_not_found, plain_labels}
use nacho_operators.Common.Int.{pos}
use nacho_operators.Common.Meta.{clock, Request}
use nacho_operators.Common.Strings.{decimal}
use nacho_operators.Kafka.Yaml.{no_field}
use nacho_operators.Kafka.Types.{
  KafkaAccessQuery, Pod, Event, LogValue, ListOption, matching_labels_selector, in_namespace,
}
use nacho_operators.Kafka.Services.{Services}
use mathlib.Core.List.Perm
use nacho_operators.Kafka.Answers.{Delivers}
use nacho_operators.Kafka.Reports.{SortsSlice}
use nacho_operators.Kafka.Logging.{KeepsLog}
use nacho_operators.Kafka.Server.{IsServer, kept}
use nacho_operators.Kafka.Selection.{SelectsNothing, KeepsLast}

pub record Cluster : Type 0 where
  pub nanoseconds : ℕ
  pub query : KafkaAccessQuery
  -- Pods with their labels.
  pub pods : List (Dict String × Pod)
  pub events : List Event
  pub requests : List Request
  pub logged : List (String × Dict LogValue)

abbrev selected : plain_labels.Selector → List (Dict String × Pod) → List Pod
selected s [] = []
selected s ((ls, pod) ∷ pods) =
    let rest = selected s pods in if plain_labels.matches s ls then pod ∷ rest else rest

-- The selector of the options: the last one, or else that of everything.
abbrev last_selector :
    plain_labels.Selector → List (ListOption plain_labels.Selector) → plain_labels.Selector
last_selector s [] = s
last_selector s (matching_labels_selector t ∷ options) = last_selector t options
last_selector s (in_namespace namespace ∷ options) = last_selector s options

abbrev all_of : List (Dict String × Pod) → List Pod
all_of [] = []
all_of ((ls, pod) ∷ pods) = pod ∷ all_of pods

abbrev pub memory : Services
memory = record {
  World = Cluster;
  now = λ c. record { instant = c.nanoseconds; form = clock };
  range_order = λ c keys. keys;
  arrival = λ c tasks. tasks;
  log_info = λ message fields c. (tt, record c { logged = c.logged ++ ((message, fields) ∷ []) });
  labels = plain_labels;
  is_not_found = is_not_found;
  error_text = λ e. "error";
  execution_environment = "";
  parse_duration = λ text. err (errorf "time: invalid duration");
  get_query = λ key c. ok c.query;
  status_update = λ q c. (ok tt, record c { query = record c.query { status = q.status } });
  retry_on_conflict = λ call. call;
  list_pods = λ options c. ok (selected (last_selector plain_labels.everything options) c.pods);
  list_pods_labelled = λ namespace ls c. ok (all_of c.pods);
  get_config_map = λ key c. err (errorf "not found");
  get_secret = λ key c. err (errorf "not found");
  list_warning_events = λ namespace name c. ok c.events;
  log_stream = λ namespace name container since c. err (errorf "no logs");
  unmarshal_service_account = λ json. ok json;
  unmarshal_authn = λ json. ok [];
  unmarshal_yaml = λ text. ok no_field;
  rules = [];
  new_request = λ url. none;
  http_do = λ request c.
      (ok (record { status_code = 200; body = "" }), record c { requests = request ∷ c.requests });
  marshal_prompt = λ text. ok text;
  marshal_text = λ text. ok text;
  webhook_url = "http://slack";
  format_time = λ t. "";
  format_rfc3339 = λ t. "";
  format_mql = λ t. "";
  quote = λ text. text;
  sort_slice = λ before xs. xs;
  api_key = "key";
  unmarshal_gemini = λ json. ok (record { candidates = []; block_reason = "" });
  log_clusters = [];
  log_entries = λ cluster filter c. ([], none);
  has_metrics_finder = true;
  Float = ℕ;
  zero_float = 0;
  format_float = λ n. decimal (pos n);
  format_percent = λ n. decimal (pos n);
  query_time_series = λ query c. ok (some ((7 ∷ []) ∷ []));
}

nothing-selected : (pods : List (Dict String × Pod)) → selected none pods ≡ []
nothing-selected [] = refl
nothing-selected (pod ∷ pods) = nothing-selected pods

pub memory-SelectsNothing : SelectsNothing memory
memory-SelectsNothing = record {
  nothing = none;
  nil_selector = refl;
  is_empty-nothing = refl;
  list_pods-nothing = λ namespace w pods h. sym (ok-injective h) ∙ nothing-selected w.pods;
}

pub memory-KeepsLast : KeepsLast memory
memory-KeepsLast s t w = refl

pub memory-SortsSlice : SortsSlice memory
memory-SortsSlice A before xs = Perm.refl xs

abbrev pub memory_log : KeepsLog memory
memory_log = record { log = λ c. c.logged; log-log_info = λ message fields w. refl }

pub memory-Delivers : Delivers memory
memory-Delivers w ts = Perm.refl ts

abbrev pub memory-IsServer : IsServer memory
memory-IsServer = record {
  stored = λ c. kept c.query.status;
  status_update_accepted = λ q c h. refl;
  http_do-stored = λ r c. refl;
  log_info-stored = λ message fields c. refl;
  retry-last = λ Q call h. h;
}
