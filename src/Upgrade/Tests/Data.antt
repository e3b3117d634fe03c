-- ===== src/Upgrade/Tests/Data.antt =====
-- An orchestrator with its plan, nodes and a budget, for the tests.
use nacho_operators.Common.{
  none, ℕ, String, none, some, List, [], ◌∷◌, LabelSelector, NamespacedName, minute,
}
use nacho_operators.Upgrade.Types.{
  DeploymentPlan, Orchestrator, Taint, Node, str, Pdb, WorkloadObject, GenericWorkload,
  state_no_upgrade, state_awaiting_upgrade_confirmation, no_schedule,
}
use nacho_operators.Upgrade.Memory.{Cluster}

abbrev pub key : NamespacedName
key = record { namespace = "cadence-master"; name = "deploy-dependency-map" }

abbrev pub cordon : Taint
cordon = record { key = "node.kubernetes.io/unschedulable"; value = ""; effect = no_schedule }

abbrev pub old_node : Node
old_node = record { name = "old"; labels = []; taints = cordon ∷ []; kubelet_version = "v1.29.1" }

abbrev pub new_node : Node
new_node = record { name = "new"; labels = []; taints = []; kubelet_version = "v1.30.0" }

abbrev pub plan : List DeploymentPlan
plan =
    record { name = "db"; depends_on = [] }
    ∷ record { name = "web"; depends_on = "db" ∷ [] }
    ∷ record { name = "ui"; depends_on = "gone" ∷ [] }
    ∷ []

abbrev pub in_state : String → ℕ → Orchestrator
in_state s since = record {
  namespace = "cadence-master";
  name = "deploy-dependency-map";
  annotations = [];
  deployments = plan;
  status = record {
    state = s;
    target_version = "v1.30.0";
    last_transition_time = some since;
    workload_statuses = [];
  };
}

abbrev pub everything : LabelSelector
everything = record { match_labels = []; match_expressions = [] }

abbrev pub object : String → WorkloadObject
object app = record {
  selector = some everything;
  template = record { labels = ("app", app) ∷ []; tolerations = [] };
}

abbrev pub budget : Pdb
budget = record {
  name = "web-pdb";
  namespace = "cadence-master";
  annotations = ("team", "cadence") ∷ [];
  spec = record {
    min_available = some (str "50%");
    selector = some everything;
    max_unavailable = none;
    unhealthy_pod_eviction_policy = none;
  };
}

abbrev pub cluster : Orchestrator → ℕ → List Node → Cluster
cluster o clock nodes = record {
  clock = clock;
  orchestrator = o;
  nodes = nodes;
  stateful_sets = ("db", object "db") ∷ [];
  deployments = ("web", object "web") ∷ [];
  pods = record { name = "db-0"; node_name = "old" } ∷ [];
  pdbs = budget ∷ [];
}

abbrev pub awaiting : Cluster
awaiting =
    cluster (in_state state_awaiting_upgrade_confirmation 0) minute (old_node ∷ new_node ∷ [])

abbrev pub quiet : Cluster
quiet = cluster (in_state state_no_upgrade 0) minute (old_node ∷ [])

abbrev pub web : GenericWorkload
web = record { kind = "Deployment"; namespace = "cadence-master"; name = "web"; obj = object "web" }
