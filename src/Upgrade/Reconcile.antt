-- ===== src/Upgrade/Reconcile.antt =====
-- Reconcile and the handlers of the three states, of upgrade-orchestrator/internal/controller/
-- upgradeorchestrator_controller.go. `Update` and `Status().Update` overwrite the object with the
-- server's answer, so what follows such a call reads the answer.
use nacho_operators.Common.{ℕ, zero, suc, ◌-◌, ◌*◌, String, ◌==◌, Option, none, some, List, [], ◌∷◌}
use nacho_operators.Common.{Bool, false, nat_eq, ltb, length, if◌then◌else◌}
use nacho_operators.Common.{
  check, Go, pure, attempt, Outcome, finished, again_after, again, again_with, fails_with, panics,
  second, minute, NamespacedName,
}
use nacho_operators.Common.Dict
use nacho_operators.Upgrade.Types.{
  Orchestrator, state_no_upgrade, state_awaiting_upgrade_confirmation, state_upgrade_in_progress,
  upgrade_confirmation_timeout, last_known_state,
}
use nacho_operators.Upgrade.Kube.{Kube}
use nacho_operators.Upgrade.Nodes.{
  is_any_node_cordoned, detect_node_versions, determine_target_version, prepare_nodes,
}
use nacho_operators.Upgrade.Workloads.{are_all_workloads_migrated}
use nacho_operators.Upgrade.Migration.{
  set_initial_pdb_state, migrate_loop, cleanup_global_upgrade_artifacts,
}

-- `Status.State = s; Status.LastTransitionTime = &now`
unfoldable pub enter : String → ℕ → Orchestrator → Orchestrator
enter state now o = record o {
  status = record o.status { state = state; last_transition_time = some now };
}

abbrev pub with_target : String → Orchestrator → Orchestrator
with_target target o = record o { status = record o.status { target_version = target } }

-- `Annotations["last-known-state"] = StateUpgradeInProgress`
abbrev pub mark_in_progress : Orchestrator → Orchestrator
mark_in_progress o = record o {
  annotations = Dict.insert last_known_state state_upgrade_in_progress o.annotations;
}

abbrev pub unmark : Orchestrator → Orchestrator
unmark o = record o { annotations = Dict.remove last_known_state o.annotations }

-- `Annotations["last-known-state"] == StateUpgradeInProgress`; a missing key reads as "".
abbrev pub was_in_progress : Orchestrator → Bool
was_in_progress o = elim (Dict.lookup last_known_state o.annotations) [
  | none ↦ false
  | some s ↦ s == state_upgrade_in_progress
]

module _ (K : Kube) where
  open K use {World, now, get_orchestrator, update, status_update, ignore_not_found}

  -- The end of `handleNoUpgradeState`: look for a cordoned node.
  unfoldable pub watch_for_cordon : Orchestrator → Go World Outcome
  watch_for_cordon o w =
      check (is_any_node_cordoned K w) (λ _. (again_after minute, w))
        λ cordoned.
          if cordoned
          then attempt (status_update (enter state_awaiting_upgrade_confirmation (now w) o))
              (λ e. pure (again_with e)) (λ _. pure (again_after (2 * minute))) w
          else (again_after (2 * minute), w)

  unfoldable pub finish_upgrade : Orchestrator → Go World Outcome
  finish_upgrade o =
      attempt (cleanup_global_upgrade_artifacts K o) (λ _. pure (again_after minute))
        λ _. attempt (update (unmark o)) (λ e. pure (again_with e)) (λ _. pure finished)

  abbrev wait : Go World Outcome
  wait = pure (again_after (30 * second))

  -- After an upgrade: wait for one version, then for all workloads, then clean up.
  unfoldable pub settle : Orchestrator → List String → Go World Outcome
  settle o (version ∷ []) w =
      check (are_all_workloads_migrated K o version w) (λ _. watch_for_cordon o w)
        λ done. if done then finish_upgrade o w else watch_for_cordon o w
  settle o _ w = wait w

  unfoldable pub handle_no_upgrade_state : Orchestrator → Go World Outcome
  handle_no_upgrade_state o w =
      if was_in_progress o
      then check (detect_node_versions K w) (λ _. wait w) (λ versions. settle o versions w)
      else watch_for_cordon o w

  -- `Update`, then `Status().Update` of what the first has answered.
  unfoldable pub save : Orchestrator → Go World Outcome
  save o =
      attempt (update o) (λ e. pure (again_with e))
        λ answer. attempt (status_update answer) (λ e. pure (again_with e)) (λ _. pure again)

  -- What `handleAwaitingConfirmationState` does when it sees two versions.
  unfoldable pub confirm_upgrade : Orchestrator → Go World Outcome
  confirm_upgrade o =
      attempt (set_initial_pdb_state K o) (λ _. wait)
        λ _ w. save (mark_in_progress (enter state_upgrade_in_progress (now w) o)) w

  -- `time.Since(LastTransitionTime.Time)` dereferences a pointer that may be nil.
  unfoldable pub await_since : Orchestrator → Option ℕ → Go World Outcome
  await_since o none w = (panics, w)
  await_since o (some since) w =
      if ltb upgrade_confirmation_timeout (now w - since)
      then attempt (status_update (enter state_no_upgrade (now w) o)) (λ e. pure (again_with e))
          (λ _. pure finished) w
      else check (detect_node_versions K w) (λ _. wait w)
          λ versions. if nat_eq (length versions) 2 then confirm_upgrade o w else wait w

  unfoldable pub handle_awaiting_confirmation_state : Orchestrator → Go World Outcome
  handle_awaiting_confirmation_state o = await_since o o.status.last_transition_time

  -- Taint the new nodes, then go through the plan.
  unfoldable pub advance_upgrade : Orchestrator → String → Go World Outcome
  advance_upgrade o target =
      attempt (prepare_nodes K target) (λ _. pure (again_after minute))
        λ _ w. let (_, w') = migrate_loop K o o.deployments w in (again_after minute, w')

  unfoldable pub handle_upgrade_in_progress_state : Orchestrator → Go World Outcome
  handle_upgrade_in_progress_state o w =
      check (detect_node_versions K w) (λ _. wait w)
        λ versions.
          if ltb (length versions) 2
          then wait w
          else check (determine_target_version K versions) (λ _. (again_after minute, w))
              λ target.
                if o.status.target_version == target
                then advance_upgrade o target w
                else attempt (status_update (with_target target o)) (λ e. pure (again_with e))
                    (λ answer. advance_upgrade answer target) w

  -- The `switch`; an unknown state is logged.
  unfoldable pub dispatch : Orchestrator → Go World Outcome
  dispatch o =
      if o.status.state == state_no_upgrade
      then handle_no_upgrade_state o
      else if o.status.state == state_awaiting_upgrade_confirmation
      then handle_awaiting_confirmation_state o
      else if o.status.state == state_upgrade_in_progress
      then handle_upgrade_in_progress_state o
      else pure finished

  -- A status that was never written is initialised first.
  unfoldable pub initialise : Orchestrator → Go World Outcome
  initialise o w =
      attempt (status_update (enter state_no_upgrade (now w) o)) (λ _. pure again) dispatch w

  unfoldable pub reconcile : NamespacedName → Go World Outcome
  reconcile key w =
      check (get_orchestrator key w) (λ e. (fails_with (ignore_not_found e), w))
        λ o. if o.status.state == "" then initialise o w else dispatch o w

  -- One reconciliation after another.
  abbrev pub reconciles : NamespacedName → ℕ → World → World
  reconciles key zero w = w
  reconciles key (suc n) w = reconciles key n (reconcile key w).1
