-- ===== src/Upgrade/Migration.antt =====
-- The loops over the deployment plan in upgrade-orchestrator/internal/controller/
-- upgradeorchestrator_controller.go: setInitialPDBState, the second half of
-- handleUpgradeInProgressState, and cleanupGlobalUpgradeArtifacts. Their errors are logged only.
use nacho_operators.Common.{String, Bool, true, false, List, [], ◌∷◌}
use nacho_operators.Common.{Result, ok, err, check, Go, pure, attempt, ◌>>◌}
use nacho_operators.Upgrade.Types.{DeploymentPlan, Orchestrator, GenericWorkload}
use nacho_operators.Upgrade.Kube.{Kube}
use nacho_operators.Upgrade.Nodes.{strip_loop}
use nacho_operators.Upgrade.Workloads.{
  get_workload, dependencies_met, add_toleration_to_workload, strip_workload,
}
use nacho_operators.Upgrade.Pdb.{reconcile_pdb}

-- `len(depSpec.DependsOn) == 0`
abbrev pub is_root : DeploymentPlan → Bool
is_root plan = elim plan.depends_on [ [] ↦ true | _ ∷ _ ↦ false ]

module _ (K : Kube) where
  open K use {World, list_nodes}

  -- A root is unblocked, a dependent is blocked.
  unfoldable pub set_initial_one : String → DeploymentPlan → Go World (Unit {0})
  set_initial_one ns plan w =
      check (get_workload K ns plan.name w) (λ _. (tt, w))
        λ wl. attempt (reconcile_pdb K wl (is_root plan)) (λ _. pure tt) (λ _. pure tt) w

  unfoldable pub set_initial_loop : String → List DeploymentPlan → Go World (Unit {0})
  set_initial_loop ns [] = pure tt
  set_initial_loop ns (plan ∷ plans) = do set_initial_one ns plan; set_initial_loop ns plans

  unfoldable pub set_initial_pdb_state : Orchestrator → Go World (Result (Unit {0}))
  set_initial_pdb_state o = do set_initial_loop o.namespace o.deployments; pure (ok tt)

  -- Unblock, then add the toleration; the second only if the first went well.
  unfoldable pub release : GenericWorkload → Go World (Unit {0})
  release wl =
      attempt (reconcile_pdb K wl true) (λ _. pure tt)
        λ _. attempt (add_toleration_to_workload K wl) (λ _. pure tt) (λ _. pure tt)

  unfoldable pub migrate_one : Orchestrator → DeploymentPlan → Go World (Unit {0})
  migrate_one o plan w =
      check (get_workload K o.namespace plan.name w) (λ _. (tt, w))
        λ wl.
          check (dependencies_met K o plan.depends_on w) (λ _. (tt, w))
            λ met. elim met [ true ↦ release wl w | false ↦ (tt, w) ]

  unfoldable pub migrate_loop : Orchestrator → List DeploymentPlan → Go World (Unit {0})
  migrate_loop o [] = pure tt
  migrate_loop o (plan ∷ plans) = do migrate_one o plan; migrate_loop o plans

  unfoldable pub cleanup_one : String → DeploymentPlan → Go World (Unit {0})
  cleanup_one ns plan w =
      check (get_workload K ns plan.name w) (λ _. (tt, w))
        λ wl.
          attempt (reconcile_pdb K wl true) (λ _. strip_workload K wl) (λ _. strip_workload K wl) w

  unfoldable pub cleanup_loop : String → List DeploymentPlan → Go World (Unit {0})
  cleanup_loop ns [] = pure tt
  cleanup_loop ns (plan ∷ plans) = do cleanup_one ns plan; cleanup_loop ns plans

  unfoldable pub cleanup_global_upgrade_artifacts : Orchestrator → Go World (Result (Unit {0}))
  cleanup_global_upgrade_artifacts o w =
      check (list_nodes w) (λ e. (err e, w))
        λ nodes. (strip_loop K nodes >> cleanup_loop o.namespace o.deployments >> pure (ok tt)) w
