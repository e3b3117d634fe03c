-- ===== src/Kafka/Server.antt =====
-- What the proof about the stored status assumes of the code outside the repository.
use nacho_operators.Common.{ℕ, String, ◌≡◌, List, map, Result, ok, Go}
use nacho_operators.Common.Dict.{Dict}
use nacho_operators.Common.Meta.{Request}
use nacho_operators.Kafka.Types.{PodAccessInfo, Status, KafkaAccessQuery, LogValue}
use nacho_operators.Kafka.Services.{Services}

-- What of a status JSON keeps as it is: the namespaces and names of the entries, and the counts.
pub record Stored : Type 0 where
  pub pods : List (String × String)
  pub total_pods_scanned : ℕ
  pub total_pods_with_kafka_access : ℕ

abbrev pub pod_key : {P : Type 0} → PodAccessInfo P → String × String
pod_key info = (info.namespace, info.pod_name)

abbrev pub kept : Status → Stored
kept status = record {
  pods = map pod_key status.accessing_pods;
  total_pods_scanned = status.total_pods_scanned;
  total_pods_with_kafka_access = status.total_pods_with_kafka_access;
}

-- The API server as one query sees it, while nobody else writes its status: an accepted status update
-- stores the status. Neither a request to a web server nor the log touches it. Retrying returns what
-- the last attempt returns, and ends with it.
pub record IsServer (S : Services) : Type 1 where
  pub stored : S.World → Stored
  pub status_update_accepted :
      (query : KafkaAccessQuery) (w : S.World)
      → (S.status_update query w).0 ≡ ok tt
      → stored (S.status_update query w).1 ≡ kept query.status
  pub http_do-stored : (r : Request) (w : S.World) → stored (S.http_do r w).1 ≡ stored w
  pub log_info-stored :
      (message : String) (fields : Dict LogValue) (w : S.World)
      → stored (S.log_info message fields w).1 ≡ stored w
  pub retry-last :
      (Q : Result (Unit {0}) → S.World → Type 0) (call : Go S.World (Result (Unit {0})))
      → ((w : S.World) → Q (call w).0 (call w).1)
      → (w : S.World) → Q (S.retry_on_conflict call w).0 (S.retry_on_conflict call w).1
