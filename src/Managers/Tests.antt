-- ===== src/Managers/Tests.antt =====
-- The theorem on the servers, with no flag given.
use nacho_operators.Common.{Distinct, ◌∷◌, []}
use nacho_operators.Common.Manager.{Flags, TlsConfig}
use nacho_operators.Upgrade.Manager.{manager_options as upgrade_options}
use nacho_operators.Cert.Manager.{manager_options as cert_options}
use nacho_operators.Cert.Initial.{manager_options as initial_options}
use nacho_operators.Kafka.Manager.{manager_options as kafka_options}
use nacho_operators.Managers.{IsGuarded, manager_options-IsGuarded}

abbrev no_flags : Flags
no_flags = record { string_flag = λ name value. value; bool_flag = λ name value. value }

abbrev offered : TlsConfig
offered = record { next_protos = "h2" ∷ "http/1.1" ∷ [] }

manager_options-IsGuarded_example :
    IsGuarded no_flags offered (upgrade_options no_flags)
    × IsGuarded no_flags offered (cert_options no_flags)
    × IsGuarded no_flags offered (initial_options no_flags)
    × IsGuarded no_flags offered (kafka_options no_flags)
    × Distinct (
        (upgrade_options no_flags).leader_election_id
        ∷ (cert_options no_flags).leader_election_id
        ∷ (initial_options no_flags).leader_election_id
        ∷ (kafka_options no_flags).leader_election_id
        ∷ [])
manager_options-IsGuarded_example = manager_options-IsGuarded no_flags offered
