-- ===== src/Upgrade/Others.antt =====
-- What the calls of a round over the plan leave of a workload that they are not for.
use nacho_operators.Common.{
  String, ap, ◌≡◌, ◌≢◌, refl, sym, ◌∙◌, Option, none, some, true, arith, Result, ok, err, Go,
  NamespacedName,
}
use nacho_operators.Upgrade.Types.{
  DeploymentPlan, Orchestrator, Pdb, WorkloadObject, GenericWorkload,
}
use nacho_operators.Upgrade.Kube.{Kube}
use nacho_operators.Upgrade.Workloads.{get_workload, add_toleration, add_toleration_to_workload}
use nacho_operators.Upgrade.Pdb.{restore_pdb, remove_operator_pdb, allow_disruption, reconcile_pdb}
use nacho_operators.Upgrade.Migration.{release, migrate_one}
use nacho_operators.Upgrade.Advances.{get_workload-named}

abbrev pub key_of : String → String → NamespacedName
key_of ns name = record { namespace = ns; name = name }

add_toleration-name : (wl : GenericWorkload) → (add_toleration wl).name ≡ wl.name
unfolding add_toleration
add_toleration-name wl = refl

module _ (K : Kube) where
  open K use {World}

  -- The two reads of a workload.
  abbrev pub reads : NamespacedName → World → Result WorkloadObject × Result WorkloadObject
  reads key w = (K.get_stateful_set key w, K.get_deployment key w)

  pub get_workload-reads :
      (ns name : String) (w w' : World)
      → reads (key_of ns name) w' ≡ reads (key_of ns name) w
      → get_workload K ns name w' ≡ get_workload K ns name w
  unfolding get_workload
  get_workload-reads ns name w w' same = rw (ap (λ r. r.0) same, ap (λ r. r.1) same) refl

  -- A write of a budget leaves the workloads alone, and so does the patch of a workload of another name.
  pub record KeepsOthers : Type 0 where
    pub patch_pdb-reads :
        (key : NamespacedName) (old new : Pdb) (w : World)
        → reads key (K.patch_pdb old new w).1 ≡ reads key w
    pub delete_pdb-reads :
        (key : NamespacedName) (p : Pdb) (w : World) → reads key (K.delete_pdb p w).1 ≡ reads key w
    pub patch_workload-reads :
        (key : NamespacedName) (old new : GenericWorkload) (w : World)
        → new.name ≢ key.name
        → reads key (K.patch_workload old new w).1 ≡ reads key w

  module _ (L : KeepsOthers) (key : NamespacedName) where
    abbrev KeepsReads {ℓ} : {A : Type ℓ} → Go World A → Type 0
    KeepsReads call = (w : World) → reads key (call w).1 ≡ reads key w

    restore_pdb-reads : (p : Pdb) (saved : String) → KeepsReads (restore_pdb K p saved)
    unfolding restore_pdb
    restore_pdb-reads p saved w = grind (arith, L.patch_pdb-reads)

    remove_operator_pdb-reads : (p : Option Pdb) → KeepsReads (remove_operator_pdb K p)
    unfolding remove_operator_pdb
    remove_operator_pdb-reads none w = refl
    remove_operator_pdb-reads (some p) w = grind (arith, L.delete_pdb-reads)

    allow_disruption-reads :
        (user operator : Option Pdb) → KeepsReads (allow_disruption K user operator)
    unfolding allow_disruption
    allow_disruption-reads none operator w = remove_operator_pdb-reads operator w
    allow_disruption-reads (some user) operator w =
        grind (arith, restore_pdb-reads, remove_operator_pdb-reads)

    pub allow-reads : (wl : GenericWorkload) → KeepsReads (reconcile_pdb K wl true)
    unfolding reconcile_pdb
    allow-reads wl w = grind (arith, allow_disruption-reads)

    module _ (wl : GenericWorkload) (other : wl.name ≢ key.name) where
      add_toleration_to_workload-reads : KeepsReads (add_toleration_to_workload K wl)
      unfolding add_toleration_to_workload
      add_toleration_to_workload-reads w = by_read (get_workload K wl.namespace wl.name w) refl
        where
          by_read :
              (r : Result GenericWorkload)
              → get_workload K wl.namespace wl.name w ≡ r
              → reads key (add_toleration_to_workload K wl w).1 ≡ reads key w
          by_read (err e) p = rw (add_toleration_to_workload, p) refl
          by_read (ok current) p =
              let (_, same) = get_workload-named K wl.namespace wl.name w p in
              let patched =
                L.patch_workload-reads key current (add_toleration current) w
                  (λ e. other (sym same ∙ sym (add_toleration-name current) ∙ e)) in
              grind (arith, p, patched)

      release-reads : KeepsReads (release K wl)
      unfolding release
      release-reads w = grind (arith, allow-reads wl, add_toleration_to_workload-reads)

    pub migrate_one-reads :
        (o : Orchestrator) (plan : DeploymentPlan)
        → plan.name ≢ key.name
        → KeepsReads (migrate_one K o plan)
    unfolding migrate_one
    migrate_one-reads o plan other w = by_read (get_workload K o.namespace plan.name w) refl
      where
        by_read :
            (r : Result GenericWorkload)
            → get_workload K o.namespace plan.name w ≡ r
            → reads key (migrate_one K o plan w).1 ≡ reads key w
        by_read (err e) p = rw (migrate_one, p) refl
        by_read (ok wl) p =
            let (_, same) = get_workload-named K o.namespace plan.name w p in
            let released = release-reads wl (λ e. other (sym same ∙ e)) w in
            grind (arith, p, released)
