-- ===== src/Kafka/Yaml.antt =====
-- The values that gopkg.in/yaml.v2 decodes into `interface{}`, and the functions of
-- kafka-access-monitor-operator/internal/discovery/kafka_parser.go that walk them. The entries of a
-- map stand in the order in which `range` visits them.
use Prim.Native.Char.{code}
use nacho_operators.Common.{
  ℕ, ◌+◌, String, ◌==◌, Bool, true, false, ◌&&◌, Option, none, some, List, [], ◌∷◌, leb, nat_eq,
  if◌then◌else◌,
}
use nacho_operators.Common.Int.{ℤ}

-- A key of `map[interface{}]interface{}`
pub data Key : Type 0 where
  text_key : String → Key
  other_key : Key

-- `any_map` is a `map[interface{}]interface{}`, `string_map` a `map[string]interface{}`; `other` is
-- what the parser never reads.
mutual
  pub data Value : Type 0 where
    text : String → Value
    integer : ℤ → Value
    boolean : Bool → Value
    other : Value
    any_map : Entries → Value
    string_map : Fields → Value

  pub data Entries : Type 0 where
    no_entry : Entries
    entry : Key → Value → Entries → Entries

  pub data Fields : Type 0 where
    no_field : Fields
    field : String → Value → Fields → Fields

-- `data[key]`
unfoldable pub get_field : String → Fields → Option Value
get_field key no_field = none
get_field key (field head value rest) =
    let found = get_field key rest in if head == key then some value else found

unfoldable pub get_entry : String → Entries → Option Value
get_entry key no_entry = none
get_entry key (entry other_key value rest) = get_entry key rest
get_entry key (entry (text_key head) value rest) =
    let found = get_entry key rest in if head == key then some value else found

-- Keys that are no text are dropped, at every level.
unfoldable mutual
  pub convert_value : Value → Value
  convert_value (text s) = text s
  convert_value (integer n) = integer n
  convert_value (boolean b) = boolean b
  convert_value other = other
  convert_value (any_map m) = string_map (convert_keys_to_strings m)
  convert_value (string_map m) = string_map m

  pub convert_keys_to_strings : Entries → Fields
  convert_keys_to_strings no_entry = no_field
  convert_keys_to_strings (entry other_key value rest) = convert_keys_to_strings rest
  convert_keys_to_strings (entry (text_key key) value rest) =
      field key (convert_value value) (convert_keys_to_strings rest)

-- The code of a letter in lower case. Beyond ASCII only the two signs that fold to ASCII letters are
-- folded.
abbrev fold : ℕ → ℕ
fold c =
    if leb 65 c && leb c 90
    then c + 32
    else if nat_eq c 0x212A
    then 107
    else if nat_eq c 0x17F
    then 115
    else c

-- `strings.EqualFold`
unfoldable pub equal_fold : String → String → Bool
equal_fold String.[] String.[] = true
equal_fold String.[] (String.◌∷◌ d t) = false
equal_fold (String.◌∷◌ c s) String.[] = false
equal_fold (String.◌∷◌ c s) (String.◌∷◌ d t) =
    nat_eq (fold (code c)) (fold (code d)) && equal_fold s t

-- The loop over one level: the first key that agrees but for case.
unfoldable pub find_field : String → Fields → Option Value
find_field search_key no_field = none
find_field search_key (field key value rest) =
    let found = find_field search_key rest in
    if equal_fold key search_key then some value else found

-- The loop over the keys of a path.
unfoldable pub follow : Value → List String → Option Value
follow current [] = some current
follow (string_map m) (key ∷ keys) = elim (find_field key m) [
  | none ↦ none
  | some value ↦ follow value keys
]
follow _ (key ∷ keys) = none
