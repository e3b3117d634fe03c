-- ===== src/Upgrade/Tests.antt =====
-- Runs of the orchestrator over the cluster in memory, and the theorems at concrete data.
mod Data
mod Patched
mod Placement
mod Accepted
mod Rollout
mod Gated
mod Cleaned
use nacho_operators.Upgrade.Types.{original_pdb_spec_annotation}
use nacho_operators.Upgrade.Pdb.{operator_pdb_name}
use nacho_operators.Common.{
  none, ◌≢◌, Bool, eq_iff, ◌*◌, ◌≡◌, refl, ◌↔◌, ◌==◌, true, false, not, some, List, [], ◌∷◌, every,
  arith, ok, minute, again_after, finished,
}
use nacho_operators.Common.Dict
use nacho_operators.Upgrade.Types.{
  state_no_upgrade, state_awaiting_upgrade_confirmation, state_upgrade_in_progress,
  upgrade_node_label_key,
}
use nacho_operators.Upgrade.Nodes.{
  any_cordoned, determine_target_version, prepare_node, strip_taints, has_upgrade_key,
}
use nacho_operators.Upgrade.Workloads.{get_workload, is_workload_migrated}
use nacho_operators.Upgrade.Pdb.{
  selects, first_matching, find_user_managed_pdb, find_operator_pdb, allow_disruption, restore_pdb,
  restored_pdb, block_pdb, blocked_pdb, block_disruption, reconcile_pdb,
}
use nacho_operators.Upgrade.Reconcile.{reconcile, reconciles}
use nacho_operators.Upgrade.Memory.{Cluster, memory, memory-IsServer, memory-ServesBudgets}
use nacho_operators.Upgrade.StateMachine.{Step, reconcile-Step, reconciles-in_progress}
use nacho_operators.Upgrade.TargetVersion.{determine_target_version-swap}
use nacho_operators.Upgrade.Taints.{strip_taints-prepare_node}
use nacho_operators.Upgrade.Gate.{AllOnTarget, is_workload_migrated_iff}
use nacho_operators.Upgrade.Guarding.{
  reconcile_pdbs, IsGuarded, reconcile_pdbs-IsGuarded, reconcile_pdbs-roundtrip,
}
use nacho_operators.Upgrade.Branches.{reconcile-cordon, reconcile-timeout}
use nacho_operators.Upgrade.Tests.Data.{
  key, old_node, new_node, in_state, budget, cluster, awaiting, quiet, web,
}

reconciles-in_progress_example :
    (state_awaiting_upgrade_confirmation ≡ state_upgrade_in_progress)
    ↔ ((reconciles memory key 3 awaiting).orchestrator.status.state ≡ state_upgrade_in_progress)
reconciles-in_progress_example = reconciles-in_progress memory key (memory-IsServer key) 3 awaiting

reconcile-Step_example :
    Step state_no_upgrade (reconcile memory key quiet).1.orchestrator.status.state
reconcile-Step_example = reconcile-Step memory key (memory-IsServer key) quiet

reconcile-cordon_example :
    ((reconcile memory key quiet).0 ≡ again_after (2 * minute))
    × (any_cordoned (old_node ∷ []) ≡ true
        → (reconcile memory key quiet).1.orchestrator.status.state
          ≡ state_awaiting_upgrade_confirmation)
    × (any_cordoned (old_node ∷ []) ≡ false → (reconcile memory key quiet).1 ≡ quiet)
unfolding Dict.lookup
reconcile-cordon_example =
    reconcile-cordon memory key (memory-IsServer key) quiet refl refl refl refl refl

abbrev overdue : Cluster
overdue = cluster (in_state state_awaiting_upgrade_confirmation 0) (6 * minute) (old_node ∷ [])

reconcile-timeout_example :
    ((reconcile memory key overdue).0 ≡ finished)
    × ((reconcile memory key overdue).1.orchestrator.status.state ≡ state_no_upgrade)
reconcile-timeout_example =
    reconcile-timeout memory key (memory-IsServer key) overdue 0 refl refl refl (omega arith) refl

abbrev early : Cluster
early = cluster (in_state state_awaiting_upgrade_confirmation 0) minute (old_node ∷ [])

determine_target_version-swap_example :
    ((memory.greater_than "v1.30.0" "v1.29.1" ≡ true)
      → (memory.greater_than "v1.29.1" "v1.30.0" ≡ false)
      → (determine_target_version memory ("v1.30.0" ∷ "v1.29.1" ∷ []) ≡ ok "v1.30.0")
        × (determine_target_version memory ("v1.29.1" ∷ "v1.30.0" ∷ []) ≡ ok "v1.30.0"))
    × ((memory.greater_than "v1.30.0" "v1.29.1" ≡ false)
        → (memory.greater_than "v1.29.1" "v1.30.0" ≡ false)
        → (determine_target_version memory ("v1.30.0" ∷ "v1.29.1" ∷ []) ≡ ok "v1.29.1")
          × (determine_target_version memory ("v1.29.1" ∷ "v1.30.0" ∷ []) ≡ ok "v1.30.0"))
determine_target_version-swap_example =
    determine_target_version-swap memory "v1.30.0" "v1.29.1" refl refl

strip_taints-prepare_node_example :
    (strip_taints (prepare_node memory "v1.30.0" new_node) ≡ record (strip_taints new_node) {
      labels = Dict.insert upgrade_node_label_key "v1.30.0" new_node.labels;
    })
    × (every (λ t. not (has_upgrade_key t)) (strip_taints new_node).taints ≡ true)
strip_taints-prepare_node_example = strip_taints-prepare_node memory "v1.30.0" new_node

is_workload_migrated_iff_example :
    (is_workload_migrated memory "cadence-master" "db" "v1.30.0" awaiting ≡ ok true)
    ↔ AllOnTarget memory awaiting "v1.30.0" awaiting.pods
unfolding get_workload Dict.lookup
is_workload_migrated_iff_example =
    is_workload_migrated_iff memory awaiting "cadence-master" "db" "v1.30.0" refl refl refl

abbrev upgraded : Cluster
upgraded = record awaiting { pods = record { name = "db-0"; node_name = "new" } ∷ [] }

budget-fresh : Dict.lookup original_pdb_spec_annotation budget.annotations ≡ none
unfolding Dict.lookup
budget-fresh = refl

budget-own : budget.name ≢ operator_pdb_name web
budget-own e = ground (arith, eq_iff "web-pdb" "upgrade-blocker-web")

abbrev calls : List Bool
calls = false ∷ false ∷ true ∷ false ∷ []

reconcile_pdbs-roundtrip_example :
    find_user_managed_pdb memory web
      (reconcile_pdb memory web true (reconcile_pdbs memory web calls awaiting)).1
    ≡ ok (some budget)
unfolding find_user_managed_pdb first_matching selects Dict.lookup Dict.insert Dict.remove
    find_operator_pdb reconcile_pdb allow_disruption restore_pdb restored_pdb block_disruption
    block_pdb blocked_pdb
reconcile_pdbs-roundtrip_example =
    reconcile_pdbs-roundtrip memory memory-ServesBudgets web budget budget-fresh budget-own calls
      awaiting refl refl

reconcile_pdbs-IsGuarded_example :
    IsGuarded memory web budget (reconcile_pdbs memory web calls awaiting)
unfolding find_user_managed_pdb first_matching selects Dict.lookup Dict.insert Dict.remove
    find_operator_pdb reconcile_pdb allow_disruption restore_pdb restored_pdb block_disruption
    block_pdb blocked_pdb
reconcile_pdbs-IsGuarded_example =
    reconcile_pdbs-IsGuarded memory memory-ServesBudgets web budget budget-fresh budget-own calls
      awaiting refl
