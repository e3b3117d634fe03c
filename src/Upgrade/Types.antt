-- ===== src/Upgrade/Types.antt =====
-- The objects that the orchestrator reads and writes: its own API types
-- (upgrade-orchestrator/api/v1alpha1/upgradeorchestrator_types.go), the constants of
-- upgrade-orchestrator/internal/controller/upgradeorchestrator_controller.go, and of the Kubernetes
-- types the fields that the controller reads or changes.
use nacho_operators.Common.{ℕ, ◌*◌, String, Option, none, some, Bool, true, false, ◌&&◌, ◌==◌, List}
use nacho_operators.Common.{LabelSelector, minute}
use nacho_operators.Common.Dict.{Dict}
use nacho_operators.Common.Int.{ℤ}

abbrev pub state_no_upgrade : String
state_no_upgrade = "NoUpgrade"

abbrev pub state_awaiting_upgrade_confirmation : String
state_awaiting_upgrade_confirmation = "AwaitingUpgradeConfirmation"

abbrev pub state_upgrade_in_progress : String
state_upgrade_in_progress = "UpgradeInProgress"

abbrev pub upgrade_confirmation_timeout : ℕ
upgrade_confirmation_timeout = 5 * minute

abbrev pub upgrade_taint_key : String
upgrade_taint_key = "upgrade-orchestrator/status"

abbrev pub upgrade_taint_value : String
upgrade_taint_value = "upgrading"

abbrev pub upgrade_node_label_key : String
upgrade_node_label_key = "upgrade-orchestrator/target-version"

abbrev pub original_pdb_spec_annotation : String
original_pdb_spec_annotation = "upgrade.nachoperator.io/original-pdb-spec"

abbrev pub managed_by_annotation : String
managed_by_annotation = "upgrade.nachoperator.io/managed-by"

abbrev pub last_known_state : String
last_known_state = "last-known-state"

abbrev pub no_schedule : String
no_schedule = "NoSchedule"

pub record DeploymentPlan : Type 0 where
  pub name : String
  pub depends_on : List String

pub record WorkloadStatus : Type 0 where
  pub name : String
  pub status : String
  pub message : String

pub record Status : Type 0 where
  pub state : String
  pub target_version : String
  pub last_transition_time : Option ℕ
  pub workload_statuses : List WorkloadStatus

pub record Orchestrator : Type 0 where
  pub namespace : String
  pub name : String
  pub annotations : Dict String
  pub deployments : List DeploymentPlan
  pub status : Status

pub record Taint : Type 0 where
  pub key : String
  pub value : String
  pub effect : String

pub record Toleration : Type 0 where
  pub key : String
  pub operator : String
  pub value : String
  pub effect : String
  pub seconds : Option ℤ

pub record Node : Type 0 where
  pub name : String
  pub labels : Dict String
  pub taints : List Taint
  pub kubelet_version : String

pub record Pod : Type 0 where
  pub name : String
  pub node_name : String

pub data IntOrString : Type 0 where
  int : ℤ → IntOrString
  str : String → IntOrString

pub record PdbSpec : Type 0 where
  pub min_available : Option IntOrString
  pub selector : Option LabelSelector
  pub max_unavailable : Option IntOrString
  pub unhealthy_pod_eviction_policy : Option String

pub record Pdb : Type 0 where
  pub name : String
  pub namespace : String
  pub annotations : Dict String
  pub spec : PdbSpec

pub record PodTemplate : Type 0 where
  pub labels : Dict String
  pub tolerations : List Toleration

-- A StatefulSet or a Deployment.
pub record WorkloadObject : Type 0 where
  pub selector : Option LabelSelector
  pub template : PodTemplate

-- `genericWorkload`. Its `selector` and `template` point into `obj`, so they are read from there,
-- and a change of the template is a change of the object.
pub record GenericWorkload : Type 0 where
  pub kind : String
  pub namespace : String
  pub name : String
  pub obj : WorkloadObject
  pub open obj use {selector, template}

abbrev pub upgrade_taint : Taint
upgrade_taint = record {
  key = upgrade_taint_key;
  value = upgrade_taint_value;
  effect = no_schedule;
}

abbrev pub upgrade_toleration : Toleration
upgrade_toleration = record {
  key = upgrade_taint_key;
  operator = "Equal";
  value = upgrade_taint_value;
  effect = no_schedule;
  seconds = none;
}

-- `reflect.DeepEqual(t, upgradeToleration)`
abbrev pub is_upgrade_toleration : Toleration → Bool
is_upgrade_toleration t =
    t.key == upgrade_taint_key
    && t.operator == "Equal"
    && t.value == upgrade_taint_value
    && t.effect == no_schedule
    && elim t.seconds [ none ↦ true | some s ↦ false ]
