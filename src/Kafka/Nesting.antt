-- ===== src/Kafka/Nesting.antt =====
-- What the parser finds in nested maps.
use nacho_operators.Common.{
  ℕ, suc, String, ◌≡◌, ◌⊎◌, inl, inr, refl, subst, Option, none, some, List, [], ◌∷◌,
}
use nacho_operators.Common.Strings.{split_at_char}
use nacho_operators.Kafka.Yaml.{
  Value, text, integer, boolean, other, any_map, string_map, Entries, Fields, no_field, field,
  get_field, get_entry, convert_keys_to_strings, find_field, follow,
}
use nacho_operators.Kafka.Parser.{
  TopicInfo, as_map, as_any_map, third_parties, get_value_from_path, find_kafka_root, config_root,
  inherit, leaf_of, Visit, descend, recursive_parse, topics_in, find_topics,
}
use nacho_operators.Kafka.Converted.{
  IsConverted, IsDecoded, Every, Found, find_field-Found, get_field-Found, convert-Every,
}

descend-converted :
    (visit : Visit) (topic : TopicInfo) (fields : Fields) (results : List TopicInfo)
    → Every IsConverted fields
    → descend visit topic fields results ≡ results
unfolding descend
descend-converted visit topic no_field results h = refl
descend-converted visit topic (field key (text s) rest) results (p, ps) =
    descend-converted visit topic rest results ps
descend-converted visit topic (field key (integer s) rest) results (p, ps) =
    descend-converted visit topic rest results ps
descend-converted visit topic (field key (boolean s) rest) results (p, ps) =
    descend-converted visit topic rest results ps
descend-converted visit topic (field key other rest) results (p, ps) =
    descend-converted visit topic rest results ps
descend-converted visit topic (field key (string_map m) rest) results (p, ps) =
    descend-converted visit topic rest results ps
descend-converted visit topic (field key (any_map m) rest) results (p, ps) = absurd p

-- The topic that the map itself describes.
abbrev pub own_topic : Fields → TopicInfo → List TopicInfo
own_topic fields parent = elim (leaf_of fields) [
  | none ↦ []
  | some (subject, version) ↦
      record (inherit fields parent) { subject = subject; version = version } ∷ []
]

-- Of a converted map the parser finds the topic that the map itself describes and no other, however
-- deep it is allowed to go: maps inside it are never entered.
pub recursive_parse-convert :
    (depth : ℕ) (m : Entries) (parent : TopicInfo)
    → recursive_parse (suc depth) (convert_keys_to_strings m) parent []
      ≡ own_topic (convert_keys_to_strings m) parent
unfolding recursive_parse
recursive_parse-convert depth m parent = by_leaf (leaf_of (convert_keys_to_strings m)) refl
  where
    by_leaf :
        (o : Option (String × String))
        → leaf_of (convert_keys_to_strings m) ≡ o
        → recursive_parse (suc depth) (convert_keys_to_strings m) parent []
          ≡ own_topic (convert_keys_to_strings m) parent
    by_leaf (some (subject, version)) p = rw (recursive_parse, own_topic, p) refl
    by_leaf none p =
        rw (recursive_parse, own_topic, p)
          (descend-converted (recursive_parse depth) (inherit (convert_keys_to_strings m) parent)
            (convert_keys_to_strings m) [] (convert-Every m))

topics_in-converted : (value : Value) → IsConverted value → topics_in value ≡ []
unfolding topics_in
topics_in-converted (text s) h = refl
topics_in-converted (integer n) h = refl
topics_in-converted (boolean b) h = refl
topics_in-converted other h = refl
topics_in-converted (any_map m) h = absurd h
topics_in-converted (string_map m) h = refl

follow_one :
    (key : String) (fields : Fields) → follow (string_map fields) (key ∷ []) ≡ find_field key fields
unfolding follow
follow_one key fields = by_field (find_field key fields)
  where
    by_field : (o : Option Value) → elim o [ none ↦ none | some value ↦ follow value [] ] ≡ o
    by_field none = refl
    by_field (some value) = refl

topics_or-converted :
    (o : Option Value) (rest : List TopicInfo)
    → Found IsConverted o
    → rest ≡ []
    → elim o [ none ↦ rest | some found ↦ topics_in found ] ≡ []
topics_or-converted none rest h p = p
topics_or-converted (some value) rest h p = topics_in-converted value h

path-Found :
    (P : Value → Type 0) (key : String) (fields : Fields)
    → split_at_char 46 key ≡ key ∷ []
    → Every P fields
    → Found P (get_value_from_path fields key)
unfolding get_value_from_path
path-Found P key fields p h =
    rw (get_value_from_path, p, follow_one key fields) (find_field-Found P key fields h)

find_topics-converted : (fields : Fields) → Every IsConverted fields → find_topics fields ≡ []
unfolding find_topics split_at_char
find_topics-converted fields h =
    topics_or-converted (get_value_from_path fields "topics") _
      (path-Found IsConverted "topics" fields refl h)
      (topics_or-converted (get_value_from_path fields "topic") []
        (path-Found IsConverted "topic" fields refl h) refl)

abbrev MapFound : Option Fields → Type 0
MapFound none = Unit
MapFound (some fields) = Every IsConverted fields

as_any_map-MapFound : (o : Option Value) → MapFound (as_any_map o)
as_any_map-MapFound none = tt
as_any_map-MapFound (some (text s)) = tt
as_any_map-MapFound (some (integer n)) = tt
as_any_map-MapFound (some (boolean b)) = tt
as_any_map-MapFound (some other) = tt
as_any_map-MapFound (some (string_map m)) = tt
as_any_map-MapFound (some (any_map m)) = convert-Every m

third_parties-MapFound : (o : Option Value) → MapFound (third_parties o)
third_parties-MapFound none = tt
third_parties-MapFound (some (text s)) = tt
third_parties-MapFound (some (integer n)) = tt
third_parties-MapFound (some (boolean b)) = tt
third_parties-MapFound (some other) = tt
third_parties-MapFound (some (string_map m)) = tt
third_parties-MapFound (some (any_map m)) = as_any_map-MapFound (get_entry "kafka" m)

as_map-MapFound : (o : Option Value) → Found IsDecoded o → MapFound (as_map o)
as_map-MapFound none h = tt
as_map-MapFound (some (text s)) h = tt
as_map-MapFound (some (integer n)) h = tt
as_map-MapFound (some (boolean b)) h = tt
as_map-MapFound (some other) h = tt
as_map-MapFound (some (string_map m)) h = absurd h
as_map-MapFound (some (any_map m)) h = convert-Every m

root-MapFound : (fields : Fields) → Every IsDecoded fields → MapFound (find_kafka_root fields)
unfolding find_kafka_root
root-MapFound fields h =
    by_root (as_map (get_field "kafka" fields))
      (as_map-MapFound (get_field "kafka" fields) (get_field-Found IsDecoded "kafka" fields h))
  where
    by_root :
        (o : Option Fields)
        → MapFound o
        → MapFound (elim o [
          | some kafka ↦ some kafka
          | none ↦ third_parties (get_field "thirdParties" fields)
        ])
    by_root (some kafka) k = k
    by_root none k = third_parties-MapFound (get_field "thirdParties" fields)

-- In a document with a map under the key "kafka", or under "kafka" in "thirdParties", no topic is
-- ever found, whatever stands there under "topics" or "topic"; yaml.v2 decodes the maps inside the
-- document with keys of any type.
pub find_topics-root :
    (fields : Fields) {kafka : Fields}
    → Every IsDecoded fields
    → find_kafka_root fields ≡ some kafka
    → find_topics (config_root fields) ≡ []
unfolding config_root
find_topics-root fields {kafka} h p =
    rw (config_root, p) (find_topics-converted kafka (subst MapFound p (root-MapFound fields h)))

follow-decoded :
    (value : Value) (key : String) (keys : List String)
    → IsDecoded value
    → follow value (key ∷ keys) ≡ none
unfolding follow
follow-decoded (text s) key keys h = refl
follow-decoded (integer n) key keys h = refl
follow-decoded (boolean b) key keys h = refl
follow-decoded other key keys h = refl
follow-decoded (any_map m) key keys h = refl
follow-decoded (string_map m) key keys h = absurd h

follow_two :
    (o : Option Value) (key : String) (keys : List String)
    → Found IsDecoded o
    → elim o [ none ↦ none | some value ↦ follow value (key ∷ keys) ] ≡ none
follow_two none key keys h = refl
follow_two (some value) key keys h = follow-decoded value key keys h

get_value_from_path-IsDecoded :
    (fields : Fields) (path : String) {first second : String} {keys : List String}
    → Every IsDecoded fields
    → split_at_char 46 path ≡ first ∷ second ∷ keys
    → get_value_from_path fields path ≡ none
unfolding get_value_from_path follow
get_value_from_path-IsDecoded fields path {first} {second} {keys} h p =
    rw (get_value_from_path, p)
      (follow_two (find_field first fields) second keys (find_field-Found IsDecoded first fields h))

-- In a document as yaml.v2 decodes it, with keys of any type in the maps inside it, a path of two
-- keys or more finds nothing. Such a document is searched as it is where it has no kafka section, so
-- that a path of two keys or more finds nothing in what is searched unless there is such a section.
pub get_value_from_path-nested :
    (fields : Fields) (path : String) {first second : String} {keys : List String}
    → Every IsDecoded fields
    → split_at_char 46 path ≡ first ∷ second ∷ keys
    → (get_value_from_path fields path ≡ none)
      × (((config_root fields ≡ fields) × (get_value_from_path (config_root fields) path ≡ none))
          ⊎ ((kafka : Fields) × (find_kafka_root fields ≡ some kafka)))
unfolding config_root
get_value_from_path-nested fields path {first} {second} {keys} h p =
    (get_value_from_path-IsDecoded fields path h p, by_root (find_kafka_root fields) refl)
  where
    by_root :
        (o : Option Fields)
        → find_kafka_root fields ≡ o
        → ((config_root fields ≡ fields) × (get_value_from_path (config_root fields) path ≡ none))
          ⊎ ((kafka : Fields) × (find_kafka_root fields ≡ some kafka))
    by_root none q =
        let whole : config_root fields ≡ fields = rw (config_root, q) refl in
        inl (whole, rw whole (get_value_from_path-IsDecoded fields path h p))
    by_root (some kafka) q = inr (kafka, q)
