-- ===== src/Kafka/Converted.antt =====
-- Maps as convertKeysToStrings of kafka-access-monitor-operator/internal/discovery/kafka_parser.go
-- leaves them, and what is found in them.
use nacho_operators.Common.{String, ◌==◌, Bool, true, false, Option, none, some, if◌then◌else◌}
use nacho_operators.Kafka.Yaml.{
  Value, text, integer, boolean, other, any_map, string_map, text_key, other_key, Entries, no_entry,
  entry, Fields, no_field, field, get_field, convert_value, convert_keys_to_strings, equal_fold,
  find_field,
}

-- A value other than a `map[interface{}]interface{}`
abbrev pub IsConverted : Value → Type 0
IsConverted (any_map m) = ⊥
IsConverted _ = Unit

-- A value other than a `map[string]interface{}`; yaml.v2 decodes a map inside another to no such.
abbrev pub IsDecoded : Value → Type 0
IsDecoded (string_map m) = ⊥
IsDecoded _ = Unit

abbrev pub Every : (Value → Type 0) → Fields → Type 0
Every P no_field = Unit
Every P (field key value rest) = P value × Every P rest

abbrev pub Found : (Value → Type 0) → Option Value → Type 0
Found P none = Unit
Found P (some value) = P value

pub if-Found :
    (P : Value → Type 0) (b : Bool) (value : Value) (o : Option Value)
    → P value
    → Found P o
    → Found P (if b then some value else o)
if-Found P true value o p q = p
if-Found P false value o p q = q

pub find_field-Found :
    (P : Value → Type 0) (key : String) (fields : Fields)
    → Every P fields
    → Found P (find_field key fields)
unfolding find_field
find_field-Found P key no_field h = tt
find_field-Found P key (field head value rest) (p, ps) =
    if-Found P (equal_fold head key) value (find_field key rest) p (find_field-Found P key rest ps)

pub get_field-Found :
    (P : Value → Type 0) (key : String) (fields : Fields)
    → Every P fields
    → Found P (get_field key fields)
unfolding get_field
get_field-Found P key no_field h = tt
get_field-Found P key (field head value rest) (p, ps) =
    if-Found P (head == key) value (get_field key rest) p (get_field-Found P key rest ps)

pub convert_value-IsConverted : (value : Value) → IsConverted (convert_value value)
unfolding convert_value
convert_value-IsConverted (text s) = tt
convert_value-IsConverted (integer n) = tt
convert_value-IsConverted (boolean b) = tt
convert_value-IsConverted other = tt
convert_value-IsConverted (any_map m) = tt
convert_value-IsConverted (string_map m) = tt

pub convert-Every : (m : Entries) → Every IsConverted (convert_keys_to_strings m)
unfolding convert_keys_to_strings
convert-Every no_entry = tt
convert-Every (entry other_key value rest) = convert-Every rest
convert-Every (entry (text_key key) value rest) =
    (convert_value-IsConverted value, convert-Every rest)
