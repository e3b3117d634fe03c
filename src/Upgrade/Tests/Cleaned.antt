-- ===== src/Upgrade/Tests/Cleaned.antt =====
-- The cleanup on the cluster in memory.
use nacho_operators.Common.{◌≡◌, refl, sym, ap, ◌∙◌, inl, inr, [], ◌∷◌, ok, ok-injective}
use nacho_operators.Upgrade.Types.{GenericWorkload}
use nacho_operators.Upgrade.Workloads.{get_workload, add_toleration, strip_tolerations}
use nacho_operators.Upgrade.Migration.{cleanup_global_upgrade_artifacts}
use nacho_operators.Upgrade.Memory.{Cluster, memory}
use nacho_operators.Upgrade.Cleanup.{
  StoresStripped, IsClean, cleanup_global_upgrade_artifacts-IsClean,
}
use nacho_operators.Upgrade.Tests.Data.{old_node, web}
use nacho_operators.Upgrade.Tests.Patched.{get_workload-patch_workload}
use nacho_operators.Upgrade.Tests.Gated.{memory-KeepsOthers}
use nacho_operators.Upgrade.Tests.Rollout.{rolling, before}

stored_tolerations :
    (wl wl' : GenericWorkload) (c : Cluster)
    → get_workload memory wl.namespace wl.name c ≡ ok wl
    → get_workload memory wl.namespace wl.name (memory.patch_workload wl (strip_tolerations wl) c).1
      ≡ ok wl'
    → wl'.obj.template.tolerations ≡ (strip_tolerations wl).obj.template.tolerations
unfolding strip_tolerations
stored_tolerations wl wl' c h read =
    ap (λ (x : GenericWorkload). x.obj.template.tolerations)
      (ok-injective (sym read ∙ get_workload-patch_workload wl (strip_tolerations wl).obj c h))

memory-StoresStripped : StoresStripped memory
memory-StoresStripped = record {
  patch_workload_accepted = λ wl c h. refl;
  get_workload-patch_workload = λ wl wl' c h accepted read. stored_tolerations wl wl' c h read;
}

abbrev tolerant : Cluster
tolerant = record before { deployments = ("web", (add_toleration web).obj) ∷ [] }

cleanup_global_upgrade_artifacts-IsClean_example :
    IsClean memory "cadence-master" "web"
      (cleanup_global_upgrade_artifacts memory rolling tolerant).1
cleanup_global_upgrade_artifacts-IsClean_example =
    cleanup_global_upgrade_artifacts-IsClean memory memory-KeepsOthers memory-StoresStripped rolling
      tolerant (old_node ∷ []) refl "web" (inr (inl refl))
