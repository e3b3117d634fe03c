-- ===== src/Kafka/Brokers.antt =====
-- Which documents the parser accepts, and what it makes of them.
use Prim.Native.String.{len}
use text.Mathlib.TextPositions.{len-append}
use nacho_operators.Common.{
  sym, ap, ◌∙◌, String, ◌<>◌, ◌≡◌, ◌≢◌, ◌↔◌, ◌⊎◌, inl, inr, ◌==◌, eq_iff, true, false, some, List,
  arith, Result, ok, Bool-cases,
}
use nacho_operators.Common.Dict.{Dict}
use nacho_operators.Kafka.Yaml.{Fields}
use nacho_operators.Kafka.Parser.{
  KafkaConfigDetails, config_root, get_string_value, brokers_of, details_of, parse,
}

joined-nonempty : (host port : String) → (host <> ":" <> port) ≢ ""
joined-nonempty host port e =
    absurd (omega (arith, sym (len-append host (":" <> port)) ∙ ap len e, len-append ":" port))

module _ (rules : Dict (List String)) where
  abbrev pub HasBrokers : Fields → Type 0
  HasBrokers fields =
      (get_string_value rules fields "bootstrapServers" ≢ "")
      ⊎ ((get_string_value rules fields "host" ≢ "") × (get_string_value rules fields "port" ≢ ""))

  brokers_to : (fields : Fields) → brokers_of rules fields ≢ "" → HasBrokers fields
  unfolding brokers_of
  brokers_to fields h =
      by_servers (Bool-cases (get_string_value rules fields "bootstrapServers" == ""))
    where
      by_servers :
          ((get_string_value rules fields "bootstrapServers" == "") ≡ true)
            ⊎ ((get_string_value rules fields "bootstrapServers" == "") ≡ false)
          → HasBrokers fields
      by_servers (inr p) =
          inl (ground (arith, eq_iff (get_string_value rules fields "bootstrapServers") ""))
      by_servers (inl p) = inr (
        ground (arith, eq_iff (get_string_value rules fields "host") ""),
        ground (
          arith,
          eq_iff (get_string_value rules fields "host") "",
          eq_iff (get_string_value rules fields "port") "",
        ),
      )

  brokers_from : (fields : Fields) → HasBrokers fields → brokers_of rules fields ≢ ""
  unfolding brokers_of
  brokers_from fields (inl p) =
      ground (arith, eq_iff (get_string_value rules fields "bootstrapServers") "")
  brokers_from fields (inr (p, q)) = ground (
    arith,
    eq_iff (get_string_value rules fields "bootstrapServers") "",
    eq_iff (get_string_value rules fields "host") "",
    eq_iff (get_string_value rules fields "port") "",
    joined-nonempty (get_string_value rules fields "host") (get_string_value rules fields "port"),
  )

  -- A document that can be decoded is accepted exactly if, in the map that is searched, the rules
  -- find the servers or both host and port.
  pub parse_iff :
      (unmarshal : String → Result Fields) (content : String) {fields : Fields}
      → unmarshal content ≡ ok fields
      → ((details : KafkaConfigDetails) × (parse rules unmarshal content ≡ some details))
        ↔ HasBrokers (config_root fields)
  unfolding parse
  parse_iff unmarshal content {fields} p = (
    (λ (d, q).
        brokers_to (config_root fields)
          (λ e. absurd (ground (arith, eq_iff (brokers_of rules (config_root fields)) "")))),
    (λ h. (
      details_of rules (config_root fields) (brokers_of rules (config_root fields)),
      ground (
        arith,
        eq_iff (brokers_of rules (config_root fields)) "",
        brokers_from (config_root fields) h,
      ),
    )),
  )
