-- ===== src/Kafka/Tests.antt =====
-- Runs of the parser, and the theorems at concrete documents.
use nacho_operators.Common.{
  String, ◌≡◌, ◌↔◌, ◌⊎◌, refl, true, some, none, List, [], ◌∷◌, ok, Result,
}
use nacho_operators.Common.Dict.{Dict}
use nacho_operators.Common.Strings.{split_at_char}
use nacho_operators.Kafka.Yaml.{
  text, any_map, text_key, Entries, no_entry, entry, Fields, no_field, field, get_field,
  convert_keys_to_strings, equal_fold,
}
use nacho_operators.Kafka.Parser.{
  no_topic, KafkaConfigDetails, find_kafka_root, config_root, get_value_from_path, leaf_of, inherit,
  recursive_parse, find_topics, parse,
}
use nacho_operators.Kafka.Nesting.{
  recursive_parse-convert, find_topics-root, get_value_from_path-nested,
}
use nacho_operators.Kafka.Brokers.{HasBrokers, parse_iff}
mod Data
mod Monitor
mod Outputs
mod Program

abbrev orders : Entries
orders =
    entry (text_key "domain") (text "sales")
      (entry (text_key "name") (text "orders") (entry (text_key "version5") (text "1.0") no_entry))

-- kafka: {bootstrapServers: "b:9092", topics: {orders: {...}}}
abbrev kafka : Entries
kafka = entry (text_key "bootstrapServers") (text "b:9092") (
    entry (text_key "topics") (any_map (entry (text_key "orders") (any_map orders) no_entry))
      no_entry)

abbrev document : Fields
document = field "kafka" (any_map kafka) no_field

abbrev rules : Dict (List String)
rules = ("bootstrapServers", "bootstrap-servers" ∷ "bootstrapServers" ∷ []) ∷ []

abbrev unmarshal : String → Result Fields
unmarshal content = ok document

equal_fold_run : equal_fold "BootStrapServers" "bootstrapservers" ≡ true
unfolding equal_fold
equal_fold_run = refl

recursive_parse-convert_example :
    recursive_parse 2 (convert_keys_to_strings orders) no_topic []
    ≡ record { cluster = ""; domain = "sales"; subject = "orders"; version = "1.0" } ∷ []
unfolding convert_keys_to_strings leaf_of inherit get_field
recursive_parse-convert_example = recursive_parse-convert 1 orders no_topic

find_topics-root_example : find_topics (config_root document) ≡ []
unfolding find_kafka_root get_field
find_topics-root_example =
    find_topics-root document {kafka = convert_keys_to_strings kafka} (tt, tt) refl

-- A document that has the brokers under a key of its own.
abbrev flat : Fields
flat =
    field "broker"
      (any_map
        (entry (text_key "host") (text "b") (entry (text_key "port") (text "9092") no_entry)))
      no_field

get_value_from_path-nested_example :
    (get_value_from_path flat "broker.host" ≡ none)
    × (((config_root flat ≡ flat) × (get_value_from_path (config_root flat) "broker.host" ≡ none))
        ⊎ ((section : Fields) × (find_kafka_root flat ≡ some section)))
unfolding split_at_char
get_value_from_path-nested_example =
    get_value_from_path-nested flat "broker.host" {first = "broker"} {second = "host"} {keys = []}
      (tt, tt) refl

parse_iff_example :
    ((details : KafkaConfigDetails) × (parse rules unmarshal "kafka: ..." ≡ some details))
    ↔ HasBrokers rules (config_root document)
parse_iff_example = parse_iff rules unmarshal "kafka: ..." {fields = document} refl
