-- ===== src/Upgrade/Cleanup.antt =====
-- What the cleanup after an upgrade leaves of the tolerations.
use nacho_operators.Common.{
  String, ◌≡◌, ◌≢◌, refl, sym, subst, ◌∙◌, ◌==◌, eq_iff, ◌⊎◌, inl, inr, Any, Bool-cases, true,
  false, not, exists, keep, List, [], ◌∷◌, arith, Result, ok, err, ok-injective, Error, check,
}
use nacho_operators.Upgrade.Types.{DeploymentPlan, Orchestrator, Toleration, Node, GenericWorkload}
use nacho_operators.Upgrade.Kube.{Kube}
use nacho_operators.Upgrade.Workloads.{
  get_workload, tolerates_upgrade, strip_tolerations, strip_workload,
}
use nacho_operators.Upgrade.Pdb.{reconcile_pdb}
use nacho_operators.Upgrade.Nodes.{strip_loop}
use nacho_operators.Upgrade.Migration.{cleanup_one, cleanup_loop, cleanup_global_upgrade_artifacts}
use nacho_operators.Upgrade.Advances.{get_workload-named, get_workload-again, get_workload-renamed}
use nacho_operators.Upgrade.Others.{KeepsOthers, key_of, reads, get_workload-reads, allow-reads}

-- A toleration of the operator's key, whatever its value.
abbrev pub ToleratesKey : GenericWorkload → Type 0
ToleratesKey wl = exists tolerates_upgrade wl.obj.template.tolerations ≡ true

strip_tolerations-none : (wl : GenericWorkload) → ToleratesKey (strip_tolerations wl) → ⊥
unfolding strip_tolerations
strip_tolerations-none wl = none_kept wl.obj.template.tolerations
  where
    none_kept :
        (ts : List Toleration)
        → exists tolerates_upgrade (keep (λ t. not (tolerates_upgrade t)) ts) ≡ true
        → ⊥
    none_kept [] h = ground arith
    none_kept (t ∷ ts) h = none_kept ts (ground arith)

strip_tolerations-name : (wl : GenericWorkload) → (strip_tolerations wl).name ≡ wl.name
unfolding strip_tolerations
strip_tolerations-name wl = refl

module _ (K : Kube) where
  open K use {World}

  -- The patch of a workload as it was read that takes tolerations away is accepted, and stored.
  pub record StoresStripped : Type 0 where
    pub patch_workload_accepted :
        (wl : GenericWorkload) (w : World)
        → get_workload K wl.namespace wl.name w ≡ ok wl
        → (K.patch_workload wl (strip_tolerations wl) w).0 ≡ ok tt
    pub get_workload-patch_workload :
        (wl wl' : GenericWorkload) (w : World)
        → get_workload K wl.namespace wl.name w ≡ ok wl
        → (K.patch_workload wl (strip_tolerations wl) w).0 ≡ ok tt
        → get_workload K wl.namespace wl.name (K.patch_workload wl (strip_tolerations wl) w).1
          ≡ ok wl'
        → wl'.obj.template.tolerations ≡ (strip_tolerations wl).obj.template.tolerations

  -- The workload of this name has no toleration of the operator's key, if there is one.
  abbrev pub IsClean : String → String → World → Type 0
  IsClean ns name w =
      (wl : GenericWorkload) → get_workload K ns name w ≡ ok wl → ToleratesKey wl → ⊥

  module _ (L : KeepsOthers K) (T : StoresStripped) (ns : String) where
    reads-IsClean :
        (name : String) (w w' : World)
        → reads K (key_of ns name) w' ≡ reads K (key_of ns name) w
        → IsClean ns name w
        → IsClean ns name w'
    reads-IsClean name w w' same h wl read =
        h wl (sym (get_workload-reads K ns name w w' same) ∙ read)

    strip_workload-cleans :
        (wl : GenericWorkload) (w : World)
        → get_workload K wl.namespace wl.name w ≡ ok wl
        → (wl' : GenericWorkload)
        → get_workload K wl.namespace wl.name (strip_workload K wl w).1 ≡ ok wl'
        → ToleratesKey wl'
        → ⊥
    unfolding strip_workload
    strip_workload-cleans wl w h wl' read t =
        elim (Bool-cases (exists tolerates_upgrade wl.template.tolerations)) [
          | inl p ↦
              let accepted = T.patch_workload_accepted wl w h in
              let tolerations =
                T.get_workload-patch_workload wl wl' w h accepted (rw (p, accepted) at read) in
              strip_tolerations-none wl (rw tolerations at t)
          | inr p ↦
              let same : wl ≡ wl' = ok-injective (sym h ∙ (rw p at read)) in
              let none_there : exists tolerates_upgrade wl'.obj.template.tolerations ≡ false =
                subst
                  (λ (x : GenericWorkload).
                    exists tolerates_upgrade x.obj.template.tolerations ≡ false)
                  same p in
              ground arith
        ]

    either {ℓ κ} : {A : Type ℓ} {B : Type κ} (r : Result A) (b : B) → check r (λ _. b) (λ _. b) ≡ b
    either (ok a) b = refl
    either (err e) b = refl

    -- The world of the cleanup of a workload that was read.
    cleanup_one-found :
        (plan : DeploymentPlan) (w : World) {wl : GenericWorkload}
        → get_workload K ns plan.name w ≡ ok wl
        → cleanup_one K ns plan w ≡ strip_workload K wl (reconcile_pdb K wl true w).1
    unfolding cleanup_one
    cleanup_one-found plan w {wl} p =
        rw p
          (either (reconcile_pdb K wl true w).0 (strip_workload K wl (reconcile_pdb K wl true w).1))

    cleanup_one-missing :
        (plan : DeploymentPlan) (w : World) {e : Error}
        → get_workload K ns plan.name w ≡ err e
        → cleanup_one K ns plan w ≡ (tt, w)
    unfolding cleanup_one
    cleanup_one-missing plan w p = rw p refl

    cleanup_one-cleans :
        (plan : DeploymentPlan) (w : World) → IsClean ns plan.name (cleanup_one K ns plan w).1
    cleanup_one-cleans plan w wl' read t = by_read (get_workload K ns plan.name w) refl
      where
        by_read : (r : Result GenericWorkload) → get_workload K ns plan.name w ≡ r → ⊥
        by_read (err e) p =
            let still = rw (cleanup_one-missing plan w p, p) at read in absurd (ground arith)
        by_read (ok wl) p =
            let after : World = (reconcile_pdb K wl true w).1 in
            let (e, f) = get_workload-named K ns plan.name w p in
            let kept =
              get_workload-reads K ns plan.name w after (allow-reads K L (key_of ns plan.name) wl w)
              ∙ p in
            strip_workload-cleans wl after (get_workload-again K ns plan.name after kept) wl'
              (get_workload-renamed K _ (sym e) (sym f) (rw (cleanup_one-found plan w p) at read)) t

    strip_workload-reads :
        (name : String) (wl : GenericWorkload) (w : World)
        → wl.name ≢ name
        → reads K (key_of ns name) (strip_workload K wl w).1 ≡ reads K (key_of ns name) w
    unfolding strip_workload
    strip_workload-reads name wl w other =
        let patched =
          L.patch_workload-reads (key_of ns name) wl (strip_tolerations wl) w
            (λ e. other (sym (strip_tolerations-name wl) ∙ e)) in
        grind (arith, patched)

    cleanup_one-reads :
        (name : String) (plan : DeploymentPlan) (w : World)
        → plan.name ≢ name
        → reads K (key_of ns name) (cleanup_one K ns plan w).1 ≡ reads K (key_of ns name) w
    cleanup_one-reads name plan w other = by_read (get_workload K ns plan.name w) refl
      where
        by_read :
            (r : Result GenericWorkload)
            → get_workload K ns plan.name w ≡ r
            → reads K (key_of ns name) (cleanup_one K ns plan w).1 ≡ reads K (key_of ns name) w
        by_read (err e) p = rw (cleanup_one-missing plan w p) refl
        by_read (ok wl) p =
            let (_, f) = get_workload-named K ns plan.name w p in
            rw (cleanup_one-found plan w p) (
              strip_workload-reads name wl (reconcile_pdb K wl true w).1 (λ e. other (sym f ∙ e))
              ∙ allow-reads K L (key_of ns name) wl w)

    cleanup_one-IsClean :
        (name : String) (plan : DeploymentPlan) (w : World)
        → IsClean ns name w ⊎ (plan.name ≡ name)
        → IsClean ns name (cleanup_one K ns plan w).1
    cleanup_one-IsClean name plan w (inr e) =
        subst (λ n. IsClean ns n (cleanup_one K ns plan w).1) e (cleanup_one-cleans plan w)
    cleanup_one-IsClean name plan w (inl h) = elim (Bool-cases (plan.name == name)) [
      | inl p ↦
          let e : plan.name ≡ name = ground (arith, eq_iff plan.name name) in
          subst (λ n. IsClean ns n (cleanup_one K ns plan w).1) e (cleanup_one-cleans plan w)
      | inr p ↦
          reads-IsClean name w (cleanup_one K ns plan w).1
            (cleanup_one-reads name plan w (λ e. ground (arith, eq_iff plan.name name))) h
    ]

    cleanup_loop-IsClean :
        (name : String) (plans : List DeploymentPlan) (w : World)
        → IsClean ns name w ⊎ Any (λ q. q.name ≡ name) plans
        → IsClean ns name (cleanup_loop K ns plans w).1
    unfolding cleanup_loop
    cleanup_loop-IsClean name [] w (inl h) = h
    cleanup_loop-IsClean name [] w (inr h) = absurd h
    cleanup_loop-IsClean name (plan ∷ plans) w h =
        cleanup_loop-IsClean name plans (cleanup_one K ns plan w).1 (by_place h)
      where
        by_place :
            IsClean ns name w ⊎ Any (λ q. q.name ≡ name) (plan ∷ plans)
            → IsClean ns name (cleanup_one K ns plan w).1 ⊎ Any (λ q. q.name ≡ name) plans
        by_place (inl a) = inl (cleanup_one-IsClean name plan w (inl a))
        by_place (inr (inl a)) = inl (cleanup_one-IsClean name plan w (inr a))
        by_place (inr (inr a)) = inr a

  -- After the cleanup no workload that the plan names has a toleration of the operator's key, with
  -- whatever value or effect, if the nodes can be listed: an error of its budgets keeps no workload from
  -- being cleaned, and the cleanup of one workload undoes none of another. A write touches no
  -- workload of another name (KeepsOthers), and a patch that takes the tolerations away is accepted
  -- and stored (StoresStripped).
  pub cleanup_global_upgrade_artifacts-IsClean :
      (L : KeepsOthers K) (T : StoresStripped) (o : Orchestrator) (w : World) (nodes : List Node)
      → K.list_nodes w ≡ ok nodes
      → (name : String) → Any (λ q. q.name ≡ name) o.deployments
      → IsClean o.namespace name (cleanup_global_upgrade_artifacts K o w).1
  unfolding cleanup_global_upgrade_artifacts
  cleanup_global_upgrade_artifacts-IsClean L T o w nodes listed name named =
      rw listed (
        cleanup_loop-IsClean L T o.namespace name o.deployments (strip_loop K nodes w).1
          (inr named))
