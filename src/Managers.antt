-- ===== src/Managers.antt =====
-- What the servers of the managers offer (cmd/main.go of upgrade-orchestrator, of both copies of
-- cert-monitor-operator, and of kafka-access-monitor-operator).
use nacho_operators.Common.{
  Distinct, String, ◌≡◌, refl, Bool, true, false, none, some, List, [], ◌∷◌, if◌then◌else◌,
}
use nacho_operators.Common.Manager.{
  TlsConfig, TlsOption, with_authentication_and_authorization, ManagerOptions, Flags, disable_http2,
  tls_options, metrics_server_options, options_with,
}
use nacho_operators.Upgrade.Manager.{manager_options as upgrade_options}
use nacho_operators.Cert.Manager.{manager_options as cert_options}
use nacho_operators.Cert.Initial.{manager_options as initial_options}
use nacho_operators.Kafka.Manager.{manager_options as kafka_options}
mod Tests

-- A server applies its options to its configuration one after another.
abbrev pub served : List TlsOption → TlsConfig → TlsConfig
served [] c = c
served (option ∷ options) c = served options (option c)

-- The configuration of a server by the flag `enable-http2`.
abbrev pub expected : Bool → TlsConfig → TlsConfig
expected true c = c
expected false c = record c { next_protos = "http/1.1" ∷ [] }

-- Both servers have the expected configuration, and the metrics server asks who calls it exactly if
-- it is secure.
abbrev pub IsGuarded : Flags → TlsConfig → ManagerOptions → Type 0
IsGuarded f c o =
    (served o.metrics.tls_opts c ≡ expected (f.bool_flag "enable-http2" false) c)
    × (served o.webhook_tls_opts c ≡ expected (f.bool_flag "enable-http2" false) c)
    × (o.metrics.filter_provider
        ≡ (if o.metrics.secure_serving then some with_authentication_and_authorization else none))

tls_options-expected :
    (f : Flags) (c : TlsConfig)
    → served (tls_options f) c ≡ expected (f.bool_flag "enable-http2" false) c
unfolding tls_options disable_http2
tls_options-expected f c = by_flag (f.bool_flag "enable-http2" false)
  where
    by_flag : (b : Bool) → served (if b then [] else disable_http2 ∷ []) c ≡ expected b c
    by_flag true = refl
    by_flag false = refl

options_with-IsGuarded :
    (f : Flags) (c : TlsConfig) (id : String) (namespaces : List String)
    → IsGuarded f c (options_with f id namespaces)
unfolding options_with metrics_server_options
options_with-IsGuarded f c id namespaces =
    (tls_options-expected f c, tls_options-expected f c, refl)

-- The metrics server and the webhook server of each manager offer nothing but HTTP/1.1 unless the flag
-- enable-http2 is given; then their configuration is left as it is. The metrics server asks for
-- authentication and authorization exactly if it is served securely. No two of the managers, the two
-- copies of cert-monitor-operator among them, elect their leader by the same lock.
pub manager_options-IsGuarded :
    (f : Flags) (c : TlsConfig)
    → IsGuarded f c (upgrade_options f)
      × IsGuarded f c (cert_options f)
      × IsGuarded f c (initial_options f)
      × IsGuarded f c (kafka_options f)
      × Distinct (
          (upgrade_options f).leader_election_id
          ∷ (cert_options f).leader_election_id
          ∷ (initial_options f).leader_election_id
          ∷ (kafka_options f).leader_election_id
          ∷ [])
unfolding upgrade_options cert_options initial_options kafka_options options_with
manager_options-IsGuarded f c = (
  options_with-IsGuarded f c "b2da7d46.nachoperator.io" ("cadence-master" ∷ []),
  options_with-IsGuarded f c "a7faf73f.nachoperator.io" [],
  options_with-IsGuarded f c "a7faf73f.masorange.com" [],
  options_with-IsGuarded f c "a71dae51.masorange.com" [],
  (refl, (refl, (refl, (refl, tt)))),
)
