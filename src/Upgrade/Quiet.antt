-- ===== src/Upgrade/Quiet.antt =====
-- The calls that leave the stored state of the orchestrator alone: all that write to nodes,
-- workloads and disruption budgets.
use nacho_operators.Common.{
  String, ◌≡◌, refl, ◌∙◌, Bool, List, [], ◌∷◌, arith, NamespacedName, Option, none, some, Go,
}
use nacho_operators.Upgrade.Types.{DeploymentPlan, Orchestrator, Node, Pdb, GenericWorkload}
use nacho_operators.Upgrade.Kube.{Kube}
use nacho_operators.Upgrade.Server.{IsServer}
use nacho_operators.Upgrade.Nodes.{prepare_loop, prepare_nodes, strip_loop}
use nacho_operators.Upgrade.Workloads.{add_toleration_to_workload, strip_workload}
use nacho_operators.Upgrade.Pdb.{
  restore_pdb, remove_operator_pdb, allow_disruption, block_pdb, block_disruption, reconcile_pdb,
}
use nacho_operators.Upgrade.Migration.{
  set_initial_one, set_initial_loop, release, migrate_one, migrate_loop, cleanup_one, cleanup_loop,
  cleanup_global_upgrade_artifacts,
}

module _ (K : Kube) (key : NamespacedName) (S : IsServer K key) where
  open K use {World}
  open S use {stored_state}

  -- The call leaves the stored state alone.
  abbrev pub Keeps {ℓ} : {A : Type ℓ} → Go World A → Type 0
  Keeps call = (w : World) → stored_state (call w).1 ≡ stored_state w

  prepare_loop-Keeps : (target : String) (nodes : List Node) → Keeps (prepare_loop K target nodes)
  unfolding prepare_loop
  prepare_loop-Keeps target [] w = refl
  prepare_loop-Keeps target (node ∷ nodes) w =
      grind (arith, S.patch_node-stored_state, prepare_loop-Keeps target nodes)

  pub prepare_nodes-Keeps : (target : String) → Keeps (prepare_nodes K target)
  unfolding prepare_nodes
  prepare_nodes-Keeps target w = grind (arith, prepare_loop-Keeps target)

  strip_loop-Keeps : (nodes : List Node) → Keeps (strip_loop K nodes)
  unfolding strip_loop
  strip_loop-Keeps [] w = refl
  strip_loop-Keeps (node ∷ nodes) w =
      grind (arith, S.patch_node-stored_state, strip_loop-Keeps nodes)

  restore_pdb-Keeps : (p : Pdb) (saved : String) → Keeps (restore_pdb K p saved)
  unfolding restore_pdb
  restore_pdb-Keeps p saved w = grind (arith, S.patch_pdb-stored_state)

  remove_operator_pdb-Keeps : (p : Option Pdb) → Keeps (remove_operator_pdb K p)
  unfolding remove_operator_pdb
  remove_operator_pdb-Keeps none w = refl
  remove_operator_pdb-Keeps (some p) w = grind (arith, S.delete_pdb-stored_state)

  allow_disruption-Keeps : (user operator : Option Pdb) → Keeps (allow_disruption K user operator)
  unfolding allow_disruption
  allow_disruption-Keeps none operator w = remove_operator_pdb-Keeps operator w
  allow_disruption-Keeps (some user) operator w =
      grind (arith, restore_pdb-Keeps, remove_operator_pdb-Keeps)

  block_pdb-Keeps : (p : Pdb) → Keeps (block_pdb K p)
  unfolding block_pdb
  block_pdb-Keeps p w = grind (arith, S.patch_pdb-stored_state)

  block_disruption-Keeps :
      (wl : GenericWorkload) (user operator : Option Pdb)
      → Keeps (block_disruption K wl user operator)
  unfolding block_disruption
  block_disruption-Keeps wl (some user) operator w = grind (arith, block_pdb-Keeps)
  block_disruption-Keeps wl none (some p) w = refl
  block_disruption-Keeps wl none none w = S.create_pdb-stored_state _ w

  reconcile_pdb-Keeps : (wl : GenericWorkload) (allow : Bool) → Keeps (reconcile_pdb K wl allow)
  unfolding reconcile_pdb
  reconcile_pdb-Keeps wl allow w = grind (arith, allow_disruption-Keeps, block_disruption-Keeps)

  add_toleration_to_workload-Keeps :
      (wl : GenericWorkload) → Keeps (add_toleration_to_workload K wl)
  unfolding add_toleration_to_workload
  add_toleration_to_workload-Keeps wl w = grind (arith, S.patch_workload-stored_state)

  strip_workload-Keeps : (wl : GenericWorkload) → Keeps (strip_workload K wl)
  unfolding strip_workload
  strip_workload-Keeps wl w = grind (arith, S.patch_workload-stored_state)

  set_initial_one-Keeps : (ns : String) (plan : DeploymentPlan) → Keeps (set_initial_one K ns plan)
  unfolding set_initial_one
  set_initial_one-Keeps ns plan w = grind (arith, reconcile_pdb-Keeps)

  pub set_initial_loop-Keeps :
      (ns : String) (plans : List DeploymentPlan) → Keeps (set_initial_loop K ns plans)
  unfolding set_initial_loop
  set_initial_loop-Keeps ns [] w = refl
  set_initial_loop-Keeps ns (plan ∷ plans) w =
      set_initial_loop-Keeps ns plans _ ∙ set_initial_one-Keeps ns plan w

  release-Keeps : (wl : GenericWorkload) → Keeps (release K wl)
  unfolding release
  release-Keeps wl w = grind (arith, reconcile_pdb-Keeps, add_toleration_to_workload-Keeps)

  migrate_one-Keeps : (o : Orchestrator) (plan : DeploymentPlan) → Keeps (migrate_one K o plan)
  unfolding migrate_one
  migrate_one-Keeps o plan w = grind (arith, release-Keeps)

  pub migrate_loop-Keeps :
      (o : Orchestrator) (plans : List DeploymentPlan) → Keeps (migrate_loop K o plans)
  unfolding migrate_loop
  migrate_loop-Keeps o [] w = refl
  migrate_loop-Keeps o (plan ∷ plans) w = migrate_loop-Keeps o plans _ ∙ migrate_one-Keeps o plan w

  cleanup_one-Keeps : (ns : String) (plan : DeploymentPlan) → Keeps (cleanup_one K ns plan)
  unfolding cleanup_one
  cleanup_one-Keeps ns plan w = grind (arith, reconcile_pdb-Keeps, strip_workload-Keeps)

  cleanup_loop-Keeps : (ns : String) (plans : List DeploymentPlan) → Keeps (cleanup_loop K ns plans)
  unfolding cleanup_loop
  cleanup_loop-Keeps ns [] w = refl
  cleanup_loop-Keeps ns (plan ∷ plans) w =
      cleanup_loop-Keeps ns plans _ ∙ cleanup_one-Keeps ns plan w

  pub cleanup_global_upgrade_artifacts-Keeps :
      (o : Orchestrator) → Keeps (cleanup_global_upgrade_artifacts K o)
  unfolding cleanup_global_upgrade_artifacts
  cleanup_global_upgrade_artifacts-Keeps o w = grind (arith, strip_loop-Keeps, cleanup_loop-Keeps)
