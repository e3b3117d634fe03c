-- ===== src/Upgrade/Rollout.antt =====
-- The loop over the plan: a plan whose dependencies are migrated has its workload tolerate the
-- upgrade after the loop.
use nacho_operators.Common.{
  check, String, ◌≡◌, refl, sym, subst, ◌∙◌, ◌≢◌, eq_iff, inl, inr, true, Bool-cases, List, [], ◌∷◌,
  contains, exists, Any, arith, Result, ok, err,
}
use nacho_operators.Upgrade.Types.{
  DeploymentPlan, Orchestrator, GenericWorkload, is_upgrade_toleration,
}
use nacho_operators.Upgrade.Kube.{Kube}
use nacho_operators.Upgrade.Workloads.{
  get_workload, is_workload_migrated, each_migrated, dependencies_met, add_toleration,
  add_toleration_to_workload,
}
use nacho_operators.Upgrade.Pdb.{reconcile_pdb}
use nacho_operators.Upgrade.Migration.{release, migrate_one, migrate_loop}
use nacho_operators.Upgrade.Gate.{migrate_one_released}
use nacho_operators.Upgrade.Advances.{
  Tolerates, KeepsPlacement, Advances, get_workload-again, get_workload-named, get_workload-renamed,
  allow-Advances, migrate_one-Advances, migrate_loop-Advances,
}
use nacho_operators.Upgrade.Placement.{is_workload_migrated-Advances, get_workload-Advances}

module _ (K : Kube) (o : Orchestrator) where
  open K use {World}

  abbrev pub IsMigrated : World → String → Type 0
  IsMigrated w name = is_workload_migrated K o.namespace name o.status.target_version w ≡ ok true

  abbrev pub IsFound : World → String → Type 0
  IsFound w name = (wl : GenericWorkload) × (get_workload K o.namespace name w ≡ ok wl)

  abbrev pub IsTolerating : World → String → Type 0
  IsTolerating w name =
      (wl : GenericWorkload) × (get_workload K o.namespace name w ≡ ok wl) × Tolerates wl.obj

  abbrev pub AreMigrated : World → List String → Type 0
  AreMigrated w names = (name : String) → contains names name ≡ true → IsMigrated w name

  module _ (w w' : World) (a : Advances K w w') (name : String) where
    pub IsMigrated-Advances : IsMigrated w name → IsMigrated w' name
    IsMigrated-Advances m =
        is_workload_migrated-Advances K w w' a o.namespace name o.status.target_version ∙ m

    pub IsFound-Advances : IsFound w name → IsFound w' name
    IsFound-Advances (wl, h) =
        let (wl', g, t) = get_workload-Advances K w w' a o.namespace name h in (wl', g)

    IsTolerating-Advances : IsTolerating w name → IsTolerating w' name
    IsTolerating-Advances (wl, h, s) =
        let (wl', g, t) = get_workload-Advances K w w' a o.namespace name h in (wl', g, t s)

  pub each_migrated-AreMigrated :
      (w : World) (names : List String)
      → AreMigrated w names
      → each_migrated K o.namespace names o.status.target_version w ≡ ok true
  unfolding each_migrated
  each_migrated-AreMigrated w [] h = refl
  each_migrated-AreMigrated w (name ∷ names) h =
      rw
        (
          h name (ground (arith, eq_iff name name)),
          each_migrated-AreMigrated w names (λ n m. h n (ground arith)),
        )
        refl

  module _ (P : KeepsPlacement K) where
    module _ (chosen : o.status.target_version ≢ "") where
      dependencies_met-AreMigrated :
          (w : World) (deps : List String)
          → AreMigrated w deps
          → dependencies_met K o deps w ≡ ok true
      unfolding dependencies_met
      dependencies_met-AreMigrated w [] h = refl
      dependencies_met-AreMigrated w (dep ∷ deps) h =
          ground
            (arith, eq_iff o.status.target_version "", each_migrated-AreMigrated w (dep ∷ deps) h)

      module _
          (unblocks : (wl : GenericWorkload) (w : World) → (reconcile_pdb K wl true w).0 ≡ ok tt)
          (patches : (wl : GenericWorkload) (w : World)
            → (K.patch_workload wl (add_toleration wl) w).0 ≡ ok tt) where
        add_toleration_to_workload-adds :
            (wl : GenericWorkload) (w : World) {current : GenericWorkload}
            → get_workload K wl.namespace wl.name w ≡ ok current
            → (wl' : GenericWorkload) × (get_workload K wl.namespace wl.name
                  (add_toleration_to_workload K wl w).1
                ≡ ok wl')
              × Tolerates wl'.obj
        unfolding add_toleration_to_workload
        add_toleration_to_workload-adds wl w {current} h =
            elim (Bool-cases (exists is_upgrade_toleration current.template.tolerations)) [
              | inl p ↦ (current, rw (h, p) h, p)
              | inr p ↦
                  let (e, f) = get_workload-named K wl.namespace wl.name w h in
                  let (wl', g, s) =
                    P.patch_workload_accepted current w
                      (get_workload-again K wl.namespace wl.name w h) (patches current w) in
                  (wl', rw (h, p) (get_workload-renamed K _ e f g), s)
            ]

        logged-world :
            (r : Result (Unit {0})) (w : World)
            → (check {B = Unit {0} × World} r (λ _. (tt, w)) (λ _. (tt, w))).1 ≡ w
        logged-world (ok u) w = refl
        logged-world (err e) w = refl

        release-adds :
            (wl : GenericWorkload) (w : World)
            → (release K wl w).1 ≡ (add_toleration_to_workload K wl (reconcile_pdb K wl true w).1).1
        unfolding release
        release-adds wl w = rw (unblocks wl w) (
            logged-world (add_toleration_to_workload K wl (reconcile_pdb K wl true w).1).0
              (add_toleration_to_workload K wl (reconcile_pdb K wl true w).1).1)

        migrate_one-IsTolerating :
            (plan : DeploymentPlan) (w : World)
            → AreMigrated w plan.depends_on
            → IsFound w plan.name
            → IsTolerating (migrate_one K o plan w).1 plan.name
        migrate_one-IsTolerating plan w deps (wl, h) =
            let (e, f) = get_workload-named K o.namespace plan.name w h in
            let after : World = (reconcile_pdb K wl true w).1 in
            let (current, g, t) =
              get_workload-Advances K w after (allow-Advances K P wl w) wl.namespace wl.name
                (get_workload-again K o.namespace plan.name w h) in
            let (wl', found, s) = add_toleration_to_workload-adds wl after g in
            rw
              (migrate_one_released K w o plan h
                (dependencies_met-AreMigrated w plan.depends_on deps))
              (subst (λ at. IsTolerating at plan.name) (sym (release-adds wl w))
                (wl', get_workload-renamed K _ e f found, s))

        -- A plan of the loop whose dependencies are migrated has its workload released in it.
        pub migrate_loop-IsTolerating :
            (plans : List DeploymentPlan) (plan : DeploymentPlan) (w : World)
            → Any (λ q. q ≡ plan) plans
            → AreMigrated w plan.depends_on
            → IsFound w plan.name
            → IsTolerating (migrate_loop K o plans w).1 plan.name
        unfolding migrate_loop
        migrate_loop-IsTolerating [] plan w h deps found = absurd h
        migrate_loop-IsTolerating (q ∷ plans) plan w (inl e) deps found =
            let after : World = (migrate_one K o q w).1 in
            IsTolerating-Advances after (migrate_loop K o plans after).1
              (migrate_loop-Advances K P o plans after) plan.name
              (subst (λ (x : DeploymentPlan). IsTolerating (migrate_one K o x w).1 plan.name)
                (sym e) (migrate_one-IsTolerating plan w deps found))
        migrate_loop-IsTolerating (q ∷ plans) plan w (inr h) deps found =
            let after : World = (migrate_one K o q w).1 in
            let a = migrate_one-Advances K P o q w in
            migrate_loop-IsTolerating plans plan after h
              (λ n m. IsMigrated-Advances w after a n (deps n m))
              (IsFound-Advances w after a plan.name found)
