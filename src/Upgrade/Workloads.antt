-- ===== src/Upgrade/Workloads.antt =====
-- The workload functions of upgrade-orchestrator/internal/controller/
-- upgradeorchestrator_controller.go: getWorkload, isWorkloadMigrated, areAllWorkloadsMigrated,
-- dependenciesMet and addTolerationToWorkload.
use nacho_operators.Common.{String, Bool, true, false, not, ◌==◌, List, [], ◌∷◌, ◌++◌, map}
use nacho_operators.Common.{
  exists, keep, errorf, wrapped, Result, ok, err, check, Go, pure, attempt, if◌then◌else◌,
  NamespacedName,
}
use nacho_operators.Upgrade.Types.{
  DeploymentPlan, Orchestrator, Toleration, Pod, GenericWorkload, WorkloadObject,
  upgrade_toleration, is_upgrade_toleration, upgrade_taint_key,
}
use nacho_operators.Upgrade.Kube.{Kube}

-- The workload with other tolerations in its pod template.
abbrev pub with_tolerations : GenericWorkload → List Toleration → GenericWorkload
with_tolerations wl ts = record wl {
  obj = record wl.obj { template = record wl.template { tolerations = ts } };
}

-- What `addTolerationToWorkload` makes of a workload that lacks the toleration.
unfoldable pub add_toleration : GenericWorkload → GenericWorkload
add_toleration wl = with_tolerations wl (wl.template.tolerations ++ (upgrade_toleration ∷ []))

abbrev pub tolerates_upgrade : Toleration → Bool
tolerates_upgrade t = t.key == upgrade_taint_key

-- The tolerations that the cleanup leaves.
unfoldable pub strip_tolerations : GenericWorkload → GenericWorkload
strip_tolerations wl =
    with_tolerations wl (keep (λ t. not (tolerates_upgrade t)) wl.template.tolerations)

module _ (K : Kube) where
  open K use {
    World, is_not_found, label_selector_as_selector, get_node, get_stateful_set, get_deployment,
    list_pods, patch_workload,
  }

  abbrev workload_of : String → String → String → WorkloadObject → GenericWorkload
  workload_of kind ns name obj = record { kind = kind; namespace = ns; name = name; obj = obj }

  unfoldable pub get_workload : String → String → World → Result GenericWorkload
  get_workload ns name w =
      let key : NamespacedName = record { namespace = ns; name = name } in
      check (get_stateful_set key w)
        (λ _.
          check (get_deployment key w) (λ _. err (errorf "workload %s not found"))
            (λ dep. ok (workload_of "Deployment" ns name dep)))
        (λ ss. ok (workload_of "StatefulSet" ns name ss))

  -- The loop over the pods of `isWorkloadMigrated`.
  unfoldable pub pods_migrated : String → List Pod → World → Result Bool
  pods_migrated target [] w = ok true
  pods_migrated target (pod ∷ pods) w =
      let rest = pods_migrated target pods w in
      if pod.node_name == ""
      then ok false
      else check (get_node pod.node_name w) err
          (λ node. if node.kubelet_version == target then rest else ok false)

  unfoldable pub is_workload_migrated : String → String → String → World → Result Bool
  is_workload_migrated ns name target w =
      check (get_workload ns name w)
        (λ e.
          if is_not_found e
          then ok true
          else err (wrapped "could not get dependency workload '%s': %w" e))
        λ wl.
          check (label_selector_as_selector wl.selector)
            (λ e. err (wrapped "invalid label selector for dependency '%s': %w" e))
            λ selector.
              check (list_pods ns selector w)
                (λ e. err (wrapped "failed to list pods for dependency '%s': %w" e))
                (λ pods. pods_migrated target pods w)

  -- `for … { if err != nil || !migrated { return false, err } }; return true, nil`
  unfoldable pub each_migrated : String → List String → String → World → Result Bool
  each_migrated ns [] target w = ok true
  each_migrated ns (name ∷ names) target w =
      let rest = each_migrated ns names target w in
      check (is_workload_migrated ns name target w) err (λ done. if done then rest else ok false)

  unfoldable pub are_all_workloads_migrated : Orchestrator → String → World → Result Bool
  are_all_workloads_migrated o target w =
      each_migrated o.namespace (map (λ (d : DeploymentPlan). d.name) o.deployments) target w

  unfoldable pub dependencies_met : Orchestrator → List String → World → Result Bool
  dependencies_met o [] w = ok true
  dependencies_met o (dep ∷ deps) w =
      if o.status.target_version == ""
      then err (errorf "cannot check dependencies, targetVersion is not set in status")
      else each_migrated o.namespace (dep ∷ deps) o.status.target_version w

  unfoldable pub add_toleration_to_workload : GenericWorkload → Go World (Result (Unit {0}))
  add_toleration_to_workload wl w =
      check (get_workload wl.namespace wl.name w) (λ e. (err e, w))
        λ current.
          if exists is_upgrade_toleration current.template.tolerations
          then (ok tt, w)
          else patch_workload current (add_toleration current) w

  -- The end of the cleanup loop over the workloads: an error is logged and passed over.
  unfoldable pub strip_workload : GenericWorkload → Go World (Unit {0})
  strip_workload wl =
      if exists tolerates_upgrade wl.template.tolerations
      then attempt (patch_workload wl (strip_tolerations wl)) (λ _. pure tt) (λ _. pure tt)
      else pure tt
