-- ===== src/Upgrade/Tests/Rollout.antt =====
-- A plan of two workloads is rolled out on the cluster in memory.
use nacho_operators.Upgrade.Tests.Accepted.{reconcile_pdb-accepted}
use nacho_operators.Upgrade.Tests.Placement.{memory-KeepsPlacement}
use nacho_operators.Common.{
  String, ap, ◌≡◌, refl, subst, ◌∙◌, eq_iff, inl, inr, true, Option, none, some, List, [], ◌∷◌, map,
  Any, arith, ok, minute,
}
use nacho_operators.Common.Dict
use nacho_operators.Common.Dict.{Dict}
use nacho_operators.Common.InMemory.{found}
use nacho_operators.Upgrade.Types.{
  DeploymentPlan, Orchestrator, Pod, WorkloadObject, state_upgrade_in_progress,
}
use nacho_operators.Upgrade.Workloads.{
  get_workload, pods_migrated, is_workload_migrated, are_all_workloads_migrated,
}
use nacho_operators.Upgrade.Memory.{Cluster, memory, memory-ReadsNotFound}
use nacho_operators.Upgrade.Gate.{is_workload_migrated_missing}
use nacho_operators.Upgrade.Rollout.{IsMigrated, IsFound}
use nacho_operators.Upgrade.Rounds.{InOrder, Moves, rounds, rounds-migrate_all}
use nacho_operators.Upgrade.Tests.Data.{in_state, new_node, old_node, cluster}

-- Between two rounds every pod moves to a new node.
abbrev move : Pod → Pod
move pod = record pod { node_name = "new" }

abbrev moved : Cluster → Cluster
moved c = record c { nodes = new_node ∷ c.nodes; pods = map move c.pods }

abbrev pub rolling : Orchestrator
rolling = record (in_state state_upgrade_in_progress 0) {
  deployments =
      record { name = "db"; depends_on = [] }
      ∷ record { name = "web"; depends_on = "db" ∷ [] }
      ∷ [];
}

pods_migrated-moved :
    (pods : List Pod) (c : Cluster)
    → pods_migrated memory "v1.30.0" (map move pods) (moved c) ≡ ok true
unfolding pods_migrated
pods_migrated-moved [] c = refl
pods_migrated-moved (pod ∷ pods) c = rw (pods_migrated-moved pods c) refl

module _ (c : Cluster) (name : String) where
  get_workload-moved :
      get_workload memory rolling.namespace name (moved c)
      ≡ get_workload memory rolling.namespace name c
  unfolding get_workload
  get_workload-moved = refl

  IsFound-moved : IsFound memory rolling c name → IsFound memory rolling (moved c) name
  IsFound-moved (wl, h) = (wl, get_workload-moved ∙ h)

  IsMigrated-moved : IsFound memory rolling c name → IsMigrated memory rolling (moved c) name
  unfolding is_workload_migrated
  IsMigrated-moved (wl, h) = rw (get_workload-moved, h) (pods_migrated-moved c.pods c)

  IsMigrated-IsFound : IsMigrated memory rolling c name → IsFound memory rolling c name
  unfolding get_workload
  IsMigrated-IsFound m =
      by_reads (Dict.lookup name c.stateful_sets) (Dict.lookup name c.deployments) refl refl
    where
      by_reads :
          (r s : Option WorkloadObject)
          → Dict.lookup name c.stateful_sets ≡ r
          → Dict.lookup name c.deployments ≡ s
          → IsFound memory rolling c name
      by_reads (some a) s p q = (
        record { kind = "StatefulSet"; namespace = rolling.namespace; name = name; obj = a },
        rw p refl,
      )
      by_reads none (some b) p q = (
        record { kind = "Deployment"; namespace = rolling.namespace; name = name; obj = b },
        rw (p, q) refl,
      )
      by_reads none none p q = absurd (
          is_workload_migrated_missing memory c memory-ReadsNotFound rolling.namespace name
            "v1.30.0" (ap found p) (ap found q) m)

moved-Moves : Moves memory rolling moved
moved-Moves = record {
  migrated = λ c name m. IsMigrated-moved c name (IsMigrated-IsFound c name m);
  found = λ c name f. IsFound-moved c name f;
  moved = λ c name (wl, h, t). IsMigrated-moved c name (wl, h);
}

abbrev pub before : Cluster
before = cluster rolling minute (old_node ∷ [])

rolling-InOrder : InOrder [] rolling.deployments
rolling-InOrder = (λ name h. absurd (ground arith), (λ name h. h, tt))

rolling-IsFound :
    (p : DeploymentPlan)
    → Any (λ q. q ≡ p) rolling.deployments
    → IsFound memory rolling before p.name
unfolding get_workload Dict.lookup
rolling-IsFound p (inl e) =
    subst (λ (q : DeploymentPlan). IsFound memory rolling before q.name) e (_, refl)
rolling-IsFound p (inr (inl e)) =
    subst (λ (q : DeploymentPlan). IsFound memory rolling before q.name) e (_, refl)
rolling-IsFound p (inr (inr e)) = absurd e

rounds-migrate_all_example :
    are_all_workloads_migrated memory rolling "v1.30.0" (rounds memory rolling moved 2 before)
    ≡ ok true
rounds-migrate_all_example =
    rounds-migrate_all memory rolling moved memory-KeepsPlacement
      (λ e. ground (arith, eq_iff "v1.30.0" "")) reconcile_pdb-accepted (λ wl w. refl) moved-Moves
      before rolling-InOrder rolling-IsFound
