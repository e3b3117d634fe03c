-- ===== src/Upgrade/Tests/Gated.antt =====
-- The cluster in memory keeps the other workloads, and holds a dependent back.
use nacho_operators.Common.{
  String, ◌≡◌, ◌≢◌, refl, ap, subst, ◌==◌, eq_iff, inl, inr, Any, Bool-cases, false, Option, none,
  some, arith,
}
use nacho_operators.Common.Dict
use nacho_operators.Common.Dict.{Dict}
use nacho_operators.Upgrade.Types.{DeploymentPlan, WorkloadObject, GenericWorkload}
use nacho_operators.Upgrade.Workloads.{get_workload, pods_migrated, is_workload_migrated}
use nacho_operators.Upgrade.Migration.{migrate_loop}
use nacho_operators.Upgrade.Memory.{memory, replace_object, replace_in}
use nacho_operators.Upgrade.Others.{KeepsOthers}
use nacho_operators.Upgrade.Ordering.{Waits, IsBehind, migrate_loop-Waits}
use nacho_operators.Upgrade.Tests.Placement.{memory-KeepsPlacement}
use nacho_operators.Upgrade.Tests.Rollout.{rolling, before}

module _ (wl : GenericWorkload) (key : String) (other : wl.name ≢ key) where
  replace_object-other :
      (d : Dict WorkloadObject) → Dict.lookup key (replace_object wl d) ≡ Dict.lookup key d
  replace_object-other d = by_found (Dict.lookup wl.name d) refl
    where
      by_found :
          (o : Option WorkloadObject)
          → Dict.lookup wl.name d ≡ o
          → Dict.lookup key (replace_object wl d) ≡ Dict.lookup key d
      by_found none p = rw (replace_object, p) refl
      by_found (some obj) p =
          let q : (wl.name == key) ≡ false = ground (arith, eq_iff wl.name key) in
          rw (replace_object, p) (rw q at (Dict.lookup-insert wl.name key wl.obj d))

  replace_in-unnamed :
      (kind : String) (d : Dict WorkloadObject)
      → Dict.lookup key (replace_in kind wl d) ≡ Dict.lookup key d
  replace_in-unnamed kind d = elim (Bool-cases (wl.kind == kind)) [
    | inl p ↦ rw p (replace_object-other d)
    | inr p ↦ rw p refl
  ]

pub memory-KeepsOthers : KeepsOthers memory
memory-KeepsOthers = record {
  patch_pdb-reads = λ key old new c. refl;
  delete_pdb-reads = λ key p c. refl;
  patch_workload-reads = λ key old new c other.
      rw
        (
          replace_in-unnamed new key.name other "StatefulSet" c.stateful_sets,
          replace_in-unnamed new key.name other "Deployment" c.deployments,
        )
        refl;
}

db-IsBehind : IsBehind memory rolling before "db"
unfolding is_workload_migrated get_workload pods_migrated Dict.lookup
db-IsBehind e = ground arith

web-Waits :
    (plan : DeploymentPlan)
    → Any (λ q. q ≡ plan) rolling.deployments
    → plan.name ≡ "web"
    → Waits memory rolling before plan
web-Waits plan (inl e) named =
    absurd (ground (arith, eq_iff "db" "web", ap (λ (q : DeploymentPlan). q.name) e))
web-Waits plan (inr (inl e)) named = subst (Waits memory rolling before) e (inl db-IsBehind)
web-Waits plan (inr (inr e)) named = absurd e

migrate_loop-Waits_example :
    get_workload memory "cadence-master" "web"
      (migrate_loop memory rolling rolling.deployments before).1
    ≡ get_workload memory "cadence-master" "web" before
migrate_loop-Waits_example =
    migrate_loop-Waits memory rolling memory-KeepsPlacement memory-KeepsOthers "web"
      rolling.deployments before web-Waits
