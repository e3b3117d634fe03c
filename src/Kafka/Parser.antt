-- ===== src/Kafka/Parser.antt =====
-- The dynamic parser of kafka-access-monitor-operator/internal/discovery/kafka_parser.go. Decoding
-- YAML is a parameter; `rules` are those that NewDynamicParser has loaded.
use nacho_operators.Common.{
  ℕ, zero, suc, ◌<>◌, String, ◌==◌, Bool, ◌||◌, not, Option, none, some, List, [], ◌∷◌, ◌++◌,
  Result, check, if◌then◌else◌,
}
use nacho_operators.Common.Dict
use nacho_operators.Common.Dict.{Dict}
use nacho_operators.Common.Int.{ℤ, pos}
use nacho_operators.Common.Strings.{split_at_char, to_lower, decimal}
use nacho_operators.Kafka.Yaml.{
  Value, text, integer, boolean, any_map, string_map, Fields, no_field, field, get_field, get_entry,
  convert_keys_to_strings, follow,
}

pub record TopicInfo : Type 0 where
  pub cluster : String
  pub domain : String
  pub subject : String
  pub version : String

pub record KafkaConfigDetails : Type 0 where
  pub brokers : List String
  pub schema_registry_url : String
  pub client_type : String
  pub client_id : String
  pub group_id : String
  pub auto_offset_reset : String
  pub auto_commit : Option Bool
  pub topics : List TopicInfo
  pub max_poll_records : ℤ
  pub max_poll_interval_ms : ℤ
  pub auto_commit_interval_ms : ℤ
  pub consumer_group_suffix : String

-- `getValueFromPath`
unfoldable pub get_value_from_path : Fields → String → Option Value
get_value_from_path fields path = follow (string_map fields) (split_at_char 46 path)

abbrev pub as_map : Option Value → Option Fields
as_map (some (string_map m)) = some m
as_map (some (any_map m)) = some (convert_keys_to_strings m)
as_map _ = none

abbrev pub as_any_map : Option Value → Option Fields
as_any_map (some (any_map m)) = some (convert_keys_to_strings m)
as_any_map _ = none

abbrev pub third_parties : Option Value → Option Fields
third_parties (some (any_map m)) = as_any_map (get_entry "kafka" m)
third_parties _ = none

unfoldable pub find_kafka_root : Fields → Option Fields
find_kafka_root fields = elim (as_map (get_field "kafka" fields)) [
  | some kafka ↦ some kafka
  | none ↦ third_parties (get_field "thirdParties" fields)
]

-- `parseTopics` and `recursiveParse`
abbrev text_of : Option Value → Option String
text_of (some (text s)) = some s
text_of _ = none

abbrev or_else : Option String → String → String
or_else none old = old
or_else (some new) old = new

-- The first of two that is there.
abbrev first_of : Option String → Option String → Option String
first_of none b = b
first_of (some a) b = some a

unfoldable pub inherit : Fields → TopicInfo → TopicInfo
inherit fields parent = record parent {
  cluster = or_else (text_of (get_field "cluster" fields)) parent.cluster;
  domain =
      or_else (text_of (get_field "productDomain" fields))
        (or_else (text_of (get_field "domain" fields)) parent.domain);
}

-- Subject and version of a map that is a topic.
unfoldable pub leaf_of : Fields → Option (String × String)
leaf_of fields =
    elim (first_of (text_of (get_field "subject" fields)) (text_of (get_field "name" fields))) [
      | none ↦ none
      | some subject ↦
          elim (first_of (text_of (get_field "version" fields))
            (text_of (get_field "version5" fields))) [
              | none ↦ none
              | some version ↦ some (subject, version)
            ]
    ]

abbrev pub Visit : Type 0
Visit = Fields → TopicInfo → List TopicInfo → List TopicInfo

-- The loop over the sub-levels.
unfoldable pub descend : Visit → TopicInfo → Fields → List TopicInfo → List TopicInfo
descend visit topic no_field results = results
descend visit topic (field key (any_map m) rest) results =
    descend visit topic rest (visit (convert_keys_to_strings m) topic results)
descend visit topic (field key _ rest) results = descend visit topic rest results

unfoldable pub recursive_parse : ℕ → Visit
recursive_parse zero fields parent results = results
recursive_parse (suc depth) fields parent results = elim (leaf_of fields) [
  | some (subject, version) ↦
      results ++ (record (inherit fields parent) { subject = subject; version = version } ∷ [])
  | none ↦ descend (recursive_parse depth) (inherit fields parent) fields results
]

abbrev pub no_topic : TopicInfo
no_topic = record { cluster = ""; domain = ""; subject = ""; version = "" }

-- Two levels are enough: a converted map has no value of the type that the loop descends into.
unfoldable pub parse_topics : Fields → List TopicInfo
parse_topics fields = recursive_parse 2 fields no_topic []

unfoldable pub topics_in : Value → List TopicInfo
topics_in (any_map m) = parse_topics (convert_keys_to_strings m)
topics_in _ = []

-- The key "topics", else the key "topic".
unfoldable pub find_topics : Fields → List TopicInfo
find_topics fields = elim (get_value_from_path fields "topics") [
  | some found ↦ topics_in found
  | none ↦ elim (get_value_from_path fields "topic") [ none ↦ [] | some found ↦ topics_in found ]
]

abbrev pub as_string : Value → Option String
as_string (text s) = some s
as_string (integer n) = some (decimal n)
as_string _ = none

abbrev pub as_bool : Value → Option Bool
as_bool (boolean b) = some b
as_bool _ = none

abbrev pub as_int : Value → Option ℤ
as_int (integer n) = some n
as_int _ = none

-- The loop over the paths of a rule: the first value of the right type.
unfoldable pub first_value {ℓ} : {A : Type ℓ} → (Value → Option A) → Fields → List String → Option A
first_value read fields [] = none
first_value read fields (path ∷ paths) =
    let rest = first_value read fields paths in
    elim (get_value_from_path fields path) [
      | none ↦ rest
      | some value ↦ elim (read value) [ none ↦ rest | some a ↦ some a ]
    ]

unfoldable pub config_root : Fields → Fields
config_root fields = elim (find_kafka_root fields) [ none ↦ fields | some kafka ↦ kafka ]

unfoldable pub client_type_of : String → String → String
client_type_of group_id client_id =
    if not (group_id == "")
    then "Consumer"
    else if not (client_id == "")
    then "Producer"
    else "Unknown"

module _ (rules : Dict (List String)) where
  abbrev by_rule {ℓ} : {A : Type ℓ} → (Value → Option A) → Fields → String → Option A
  by_rule read fields key = elim (Dict.lookup key rules) [
    | none ↦ none
    | some paths ↦ first_value read fields paths
  ]

  unfoldable pub get_string_value : Fields → String → String
  get_string_value fields key = or_else (by_rule as_string fields key) ""

  unfoldable pub get_bool_value : Fields → String → Option Bool
  get_bool_value = by_rule as_bool

  unfoldable pub get_int_value : Fields → String → ℤ
  get_int_value fields key = elim (by_rule as_int fields key) [ none ↦ pos 0 | some n ↦ n ]

  -- The servers, or else host and port.
  unfoldable pub brokers_of : Fields → String
  brokers_of fields =
      let servers = get_string_value fields "bootstrapServers" in
      let host = get_string_value fields "host" in
      let port = get_string_value fields "port" in
      if servers == ""
      then if host == "" || port == "" then "" else host <> ":" <> port
      else servers

  unfoldable pub details_of : Fields → String → KafkaConfigDetails
  details_of fields brokers = record {
    brokers = split_at_char 44 brokers;
    schema_registry_url = get_string_value fields "schemaRegistryUrl";
    client_type =
        client_type_of (get_string_value fields "groupId") (get_string_value fields "clientId");
    client_id = get_string_value fields "clientId";
    group_id = get_string_value fields "groupId";
    auto_offset_reset = to_lower (get_string_value fields "autoOffsetReset");
    auto_commit = get_bool_value fields "autoCommit";
    topics = find_topics fields;
    max_poll_records = get_int_value fields "maxPollRecords";
    max_poll_interval_ms = get_int_value fields "maxPollIntervalMs";
    auto_commit_interval_ms = get_int_value fields "autoCommitIntervalMs";
    consumer_group_suffix = get_string_value fields "consumerGroupSuffix";
  }

  unfoldable pub parse : (String → Result Fields) → String → Option KafkaConfigDetails
  parse unmarshal yaml_content =
      check (unmarshal yaml_content) (λ _. none)
        λ decoded.
          let fields = config_root decoded in
          let brokers = brokers_of fields in
          if brokers == "" then none else some (details_of fields brokers)
