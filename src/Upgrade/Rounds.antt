-- ===== src/Upgrade/Rounds.antt =====
-- Rounds over the plan, with the cluster moving pods between them: a plan in the order of its
-- dependencies is migrated after as many rounds as it has workloads.
use nacho_operators.Common.{
  ℕ, zero, suc, String, ◌≡◌, refl, sym, subst, ◌≢◌, eq_iff, inl, inr, true, Bool-cases, List, [],
  ◌∷◌, ◌++◌, map, length, contains, contains-append, Any, append_assoc, append-nil, arith, ok,
}
use nacho_operators.Upgrade.Types.{DeploymentPlan, Orchestrator, GenericWorkload}
use nacho_operators.Upgrade.Kube.{Kube}
use nacho_operators.Upgrade.Workloads.{are_all_workloads_migrated, add_toleration}
use nacho_operators.Upgrade.Pdb.{reconcile_pdb}
use nacho_operators.Upgrade.Migration.{migrate_loop}
use nacho_operators.Upgrade.Advances.{KeepsPlacement, Advances, migrate_loop-Advances}
use nacho_operators.Upgrade.Rollout.{
  IsMigrated, IsFound, IsTolerating, AreMigrated, IsMigrated-Advances, IsFound-Advances,
  each_migrated-AreMigrated, migrate_loop-IsTolerating,
}

-- Each plan depends on workloads that stand before it, or among the given ones.
abbrev pub InOrder : List String → List DeploymentPlan → Type 0
InOrder placed [] = Unit
InOrder placed (plan ∷ plans) =
    ((name : String) → contains plan.depends_on name ≡ true → contains placed name ≡ true)
    × InOrder (placed ++ (plan.name ∷ [])) plans

module _ (K : Kube) (o : Orchestrator) where
  open K use {World}

  -- What the cluster does between two rounds: what is migrated stays so, no workload is deleted, and
  -- one that tolerates the upgrade is moved to nodes of the target version.
  pub record Moves (between : World → World) : Type 0 where
    pub migrated :
        (w : World) (name : String) → IsMigrated K o w name → IsMigrated K o (between w) name
    pub found : (w : World) (name : String) → IsFound K o w name → IsFound K o (between w) name
    pub moved :
        (w : World) (name : String) → IsTolerating K o w name → IsMigrated K o (between w) name

  module _ (between : World → World) where
    -- A round over the plan, and what the cluster does before the next.
    abbrev pub round : World → World
    round w = between (migrate_loop K o o.deployments w).1

    abbrev pub rounds : ℕ → World → World
    rounds zero w = w
    rounds (suc n) w = rounds n (round w)

    module _ (P : KeepsPlacement K) (chosen : o.status.target_version ≢ "")
        (unblocks : (wl : GenericWorkload) (w : World) → (reconcile_pdb K wl true w).0 ≡ ok tt)
        (patches : (wl : GenericWorkload) (w : World)
          → (K.patch_workload wl (add_toleration wl) w).0 ≡ ok tt)
        (moves : Moves between) where
      abbrev IsPlan : DeploymentPlan → Type 0
      IsPlan plan = Any (λ q. q ≡ plan) o.deployments

      round-AreMigrated :
          (placed : List String) (plan : DeploymentPlan) (w : World)
          → IsPlan plan
          → ((name : String) → contains plan.depends_on name ≡ true → contains placed name ≡ true)
          → AreMigrated K o w placed
          → IsFound K o w plan.name
          → AreMigrated K o (round w) (placed ++ (plan.name ∷ []))
      round-AreMigrated placed plan w member ordered m found name h =
          elim (Bool-cases (contains placed name)) [
            | inl p ↦ moves.migrated left name (IsMigrated-Advances K o w left a name (m name p))
            | inr p ↦
                let e : plan.name ≡ name =
                  ground
                    (arith, contains-append placed (plan.name ∷ []) name, eq_iff plan.name name) in
                subst (IsMigrated K o (round w)) e (
                  moves.moved left plan.name (
                    migrate_loop-IsTolerating K o P chosen unblocks patches o.deployments plan w
                      member (λ n d. m n (ordered n d)) found))
          ]
        where
          left : World
          left = (migrate_loop K o o.deployments w).1

          a : Advances K w left
          a = migrate_loop-Advances K P o o.deployments w

      round-IsFound : (w : World) (name : String) → IsFound K o w name → IsFound K o (round w) name
      round-IsFound w name f = moves.found (migrate_loop K o o.deployments w).1 name (
          IsFound-Advances K o w (migrate_loop K o o.deployments w).1
            (migrate_loop-Advances K P o o.deployments w) name f)

      rounds-AreMigrated :
          (placed : List String) (plans : List DeploymentPlan) (w : World)
          → ((plan : DeploymentPlan)
              → Any (λ q. q ≡ plan) plans
              → IsPlan plan × IsFound K o w plan.name)
          → InOrder placed plans
          → AreMigrated K o w placed
          → AreMigrated K o
              (rounds (length plans) w)
              (placed ++ map (λ (d : DeploymentPlan). d.name) plans)
      rounds-AreMigrated placed [] w all order m =
          subst (AreMigrated K o w) (sym (append-nil placed)) m
      rounds-AreMigrated placed (plan ∷ plans) w all (ordered, order) m =
          let (member, found) = all plan (inl refl) in
          subst (AreMigrated K o (rounds (length plans) (round w)))
            (append_assoc placed (plan.name ∷ []) (map (λ (d : DeploymentPlan). d.name) plans))
            (rounds-AreMigrated (placed ++ (plan.name ∷ [])) plans (round w)
              (λ q i.
                let (member', found') = all q (inr i) in (member', round-IsFound w q.name found'))
              order (round-AreMigrated placed plan w member ordered m found))

      -- Let the plan name its workloads in the order of their dependencies, each of them in the
      -- cluster, and a target version be chosen; let every call that lets a workload's pods go and
      -- every patch that adds the toleration succeed, and let the cluster between two rounds keep what
      -- is migrated, keep the workloads and move the pods of one that tolerates the upgrade to nodes of
      -- the target version. Then after as many rounds of the loop over the plan as it has workloads,
      -- all its workloads count as migrated.
      pub rounds-migrate_all :
          (w : World)
          → InOrder [] o.deployments
          → ((plan : DeploymentPlan) → Any (λ q. q ≡ plan) o.deployments → IsFound K o w plan.name)
          → are_all_workloads_migrated K o o.status.target_version (rounds (length o.deployments) w)
            ≡ ok true
      unfolding are_all_workloads_migrated
      rounds-migrate_all w order found =
          each_migrated-AreMigrated K o (rounds (length o.deployments) w)
            (map (λ (d : DeploymentPlan). d.name) o.deployments)
            (rounds-AreMigrated [] o.deployments w (λ plan i. (i, found plan i)) order
              (λ name h. absurd (ground (arith, h))))
