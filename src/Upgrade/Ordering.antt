-- ===== src/Upgrade/Ordering.antt =====
-- The order of a rollout: a workload is not touched before its dependencies are migrated.
use nacho_operators.Common.{
  String, ◌≡◌, ◌≢◌, refl, sym, ◌∙◌, ap, ◌==◌, eq_iff, inl, inr, Any, Any-split, Any-map, Bool-cases,
  true, List, [], ◌∷◌, arith, ok,
}
use nacho_operators.Upgrade.Types.{DeploymentPlan, Orchestrator}
use nacho_operators.Upgrade.Kube.{Kube}
use nacho_operators.Upgrade.Workloads.{get_workload, is_workload_migrated}
use nacho_operators.Upgrade.Migration.{migrate_one, migrate_loop}
use nacho_operators.Upgrade.Gate.{migrate_one_blocked}
use nacho_operators.Upgrade.Advances.{KeepsPlacement, Advances, migrate_one-Advances}
use nacho_operators.Upgrade.Placement.{is_workload_migrated-Advances}
use nacho_operators.Upgrade.Others.{
  KeepsOthers, key_of, reads, get_workload-reads, migrate_one-reads,
}

module _ (K : Kube) (o : Orchestrator) where
  open K use {World}

  -- The workload does not count as migrated.
  abbrev pub IsBehind : World → String → Type 0
  IsBehind w dep = is_workload_migrated K o.namespace dep o.status.target_version w ≢ ok true

  abbrev pub Waits : World → DeploymentPlan → Type 0
  Waits w plan = Any (IsBehind w) plan.depends_on

  migrate_one-Waits :
      (plan : DeploymentPlan) (w : World) → Waits w plan → migrate_one K o plan w ≡ (tt, w)
  migrate_one-Waits plan w h =
      let (dep, before, after, e, p) = Any-split (IsBehind w) plan.depends_on h in
      migrate_one_blocked K w o plan dep before after e p

  Waits-Advances :
      (w w' : World) → Advances K w w' → (plan : DeploymentPlan) → Waits w plan → Waits w' plan
  Waits-Advances w w' a plan h =
      Any-map (IsBehind w) (IsBehind w') plan.depends_on
        (λ dep p e. p (
          sym (is_workload_migrated-Advances K w w' a o.namespace dep o.status.target_version) ∙ e))
        h

  module _ (P : KeepsPlacement K) (L : KeepsOthers K) (name : String) where
    abbrev EachWaits : List DeploymentPlan → World → Type 0
    EachWaits plans w =
        (plan : DeploymentPlan) → Any (λ q. q ≡ plan) plans → plan.name ≡ name → Waits w plan

    migrate_one-keeps :
        (plan : DeploymentPlan) (w : World)
        → (plan.name ≡ name → Waits w plan)
        → reads K (key_of o.namespace name) (migrate_one K o plan w).1
          ≡ reads K (key_of o.namespace name) w
    migrate_one-keeps plan w waits = elim (Bool-cases (plan.name == name)) [
      | inl p ↦
          ap (λ ran. reads K (key_of o.namespace name) ran.1)
            (migrate_one-Waits plan w (waits (ground (arith, eq_iff plan.name name))))
      | inr p ↦
          migrate_one-reads K L (key_of o.namespace name) o plan
            (λ e. absurd (ground (arith, eq_iff plan.name name))) w
    ]

    migrate_loop-keeps :
        (plans : List DeploymentPlan) (w : World)
        → EachWaits plans w
        → reads K (key_of o.namespace name) (migrate_loop K o plans w).1
          ≡ reads K (key_of o.namespace name) w
    unfolding migrate_loop
    migrate_loop-keeps [] w h = refl
    migrate_loop-keeps (plan ∷ plans) w h =
        let after : World = (migrate_one K o plan w).1 in
        migrate_loop-keeps plans after
          (λ p i e. Waits-Advances w after (migrate_one-Advances K P o plan w) p (h p (inr i) e))
        ∙ migrate_one-keeps plan w (h plan (inl refl))

    -- A round over the plan leaves a workload as it is, with the tolerations that it has, if each
    -- entry of the plan with its name lists a dependency that does not count as migrated when the round
    -- starts, whatever the round does for other workloads before and after. A write of a budget or of a
    -- workload leaves pods, nodes and other workloads alone, and keeps the selector and the toleration of
    -- the upgrade (KeepsPlacement, KeepsOthers).
    pub migrate_loop-Waits :
        (plans : List DeploymentPlan) (w : World)
        → ((plan : DeploymentPlan) → Any (λ q. q ≡ plan) plans → plan.name ≡ name → Waits w plan)
        → get_workload K o.namespace name (migrate_loop K o plans w).1
          ≡ get_workload K o.namespace name w
    migrate_loop-Waits plans w h =
        get_workload-reads K o.namespace name w (migrate_loop K o plans w).1
          (migrate_loop-keeps plans w h)
