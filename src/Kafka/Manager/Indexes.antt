-- ===== src/Kafka/Manager/Indexes.antt =====
-- The indexes on events of kafka-access-monitor-operator/cmd/main.go.
use nacho_operators.Common.{String, ◌==◌, List, [], ◌∷◌, if◌then◌else◌}

-- Of `corev1.Event` the fields that are indexed.
pub record IndexedEvent : Type 0 where
  pub involved_name : String
  pub involved_namespace : String
  pub involved_kind : String
  pub kind : String

-- `client.Object`, told apart by its type
pub data Object : Type 0 where
  event : IndexedEvent → Object
  other : Object

abbrev pub unless_empty : String → List String
unless_empty value = if value == "" then [] else value ∷ []

unfoldable pub index_name : Object → List String
index_name other = []
index_name (event e) = unless_empty e.involved_name

unfoldable pub index_namespace : Object → List String
index_namespace other = []
index_namespace (event e) = unless_empty e.involved_namespace

unfoldable pub index_type : Object → List String
index_type other = []
index_type (event e) = unless_empty e.kind

unfoldable pub index_kind : Object → List String
index_kind other = []
index_kind (event e) = unless_empty e.involved_kind
