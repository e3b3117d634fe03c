-- ===== src/Upgrade/Advances.antt =====
-- What the calls of a round over the plan leave as it is: pods and nodes stay, and a workload keeps
-- its selector and the toleration of the upgrade.
use nacho_operators.Common.{
  String, ap, ◌≡◌, refl, sym, ◌∙◌, Bool, true, false, Option, none, some, List, [], ◌∷◌, exists,
  arith, Result, ok, err, Error, check, Go, NamespacedName, if◌then◌else◌,
}
use nacho_operators.Common.Dict
use nacho_operators.Upgrade.Types.{
  DeploymentPlan, Orchestrator, Pdb, WorkloadObject, GenericWorkload, is_upgrade_toleration,
  original_pdb_spec_annotation,
}
use nacho_operators.Upgrade.Kube.{Kube}
use nacho_operators.Upgrade.Workloads.{
  get_workload, add_toleration, add_toleration_to_workload, dependencies_met,
}
use nacho_operators.Upgrade.Pdb.{
  restore_pdb, remove_operator_pdb, allow_disruption, find_user_managed_pdb, find_operator_pdb,
  reconcile_pdb,
}
use nacho_operators.Upgrade.Migration.{release, migrate_one, migrate_loop}

abbrev pub Tolerates : WorkloadObject → Type 0
Tolerates obj = exists is_upgrade_toleration obj.template.tolerations ≡ true

-- A read of a workload before and after.
abbrev pub Extends : Result WorkloadObject → Result WorkloadObject → Type 0
Extends (ok a) (ok b) = (b.selector ≡ a.selector) × (Tolerates a → Tolerates b)
Extends (err e) (err e') = e' ≡ e
Extends _ _ = ⊥

pub Extends-refl : (r : Result WorkloadObject) → Extends r r
Extends-refl (ok a) = (refl, λ t. t)
Extends-refl (err e) = refl

Extends-trans : (r s t : Result WorkloadObject) → Extends r s → Extends s t → Extends r t
Extends-trans (ok a) (ok b) (ok c) (p, f) (q, g) = (q ∙ p, λ t. g (f t))
Extends-trans (err e) (err f) (err g) p q = q ∙ p
Extends-trans (ok a) (ok b) (err e) p q = absurd q
Extends-trans (ok a) (err e) t p q = absurd p
Extends-trans (err e) (ok b) t p q = absurd p
Extends-trans (err e) (err f) (ok c) p q = absurd q

module _ (K : Kube) where
  open K use {World}

  pub record Advances (w w' : World) : Type 0 where
    pub nodes : (name : String) → K.get_node name w' ≡ K.get_node name w
    pub pods : (ns : String) (s : K.Selector) → K.list_pods ns s w' ≡ K.list_pods ns s w
    pub stateful_sets :
        (key : NamespacedName) → Extends (K.get_stateful_set key w) (K.get_stateful_set key w')
    pub deployments :
        (key : NamespacedName) → Extends (K.get_deployment key w) (K.get_deployment key w')

  pub Advances-refl : (w : World) → Advances w w
  Advances-refl w = record {
    nodes = λ name. refl;
    pods = λ ns s. refl;
    stateful_sets = λ key. Extends-refl _;
    deployments = λ key. Extends-refl _;
  }

  pub Advances-trans : (u v w : World) → Advances u v → Advances v w → Advances u w
  Advances-trans u v w a b = record {
    nodes = λ name. b.nodes name ∙ a.nodes name;
    pods = λ ns s. b.pods ns s ∙ a.pods ns s;
    stateful_sets = λ key. Extends-trans _ _ _ (a.stateful_sets key) (b.stateful_sets key);
    deployments = λ key. Extends-trans _ _ _ (a.deployments key) (b.deployments key);
  }

  pub get_workload-named :
      (ns name : String) (w : World) {wl : GenericWorkload}
      → get_workload K ns name w ≡ ok wl
      → (wl.namespace ≡ ns) × (wl.name ≡ name)
  unfolding get_workload
  get_workload-named ns name w {wl} h =
      by_reads (K.get_stateful_set (record { namespace = ns; name = name }) w)
        (K.get_deployment (record { namespace = ns; name = name }) w) refl refl
    where
      by_reads :
          (r s : Result WorkloadObject)
          → K.get_stateful_set (record { namespace = ns; name = name }) w ≡ r
          → K.get_deployment (record { namespace = ns; name = name }) w ≡ s
          → (wl.namespace ≡ ns) × (wl.name ≡ name)
      by_reads (ok obj) s p q = ground arith
      by_reads (err e) (ok obj) p q = ground arith
      by_reads (err e) (err f) p q = absurd (ground arith)

  pub get_workload-renamed :
      {ns ns' name name' : String} (w : World) {r : Result GenericWorkload}
      → ns ≡ ns'
      → name ≡ name'
      → get_workload K ns name w ≡ r
      → get_workload K ns' name' w ≡ r
  get_workload-renamed {ns} {ns'} {name} {name'} w e f h =
      ap (λ n. get_workload K n name' w) (sym e) ∙ ap (λ n. get_workload K ns n w) (sym f) ∙ h

  -- A workload as it was read is read by its own name.
  pub get_workload-again :
      (ns name : String) (w : World) {wl : GenericWorkload}
      → get_workload K ns name w ≡ ok wl
      → get_workload K wl.namespace wl.name w ≡ ok wl
  get_workload-again ns name w h =
      let (e, f) = get_workload-named ns name w h in get_workload-renamed w (sym e) (sym f) h

  -- A patch or a deletion of a budget touches nothing else, and the patch that adds the toleration to
  -- a workload as it was read adds the toleration to it.
  pub record KeepsPlacement : Type 0 where
    pub patch_pdb-Advances : (old new : Pdb) (w : World) → Advances w (K.patch_pdb old new w).1
    pub delete_pdb-Advances : (p : Pdb) (w : World) → Advances w (K.delete_pdb p w).1
    pub patch_workload-Advances :
        (wl : GenericWorkload) (w : World)
        → get_workload K wl.namespace wl.name w ≡ ok wl
        → Advances w (K.patch_workload wl (add_toleration wl) w).1
    pub patch_workload_accepted :
        (wl : GenericWorkload) (w : World)
        → get_workload K wl.namespace wl.name w ≡ ok wl
        → (K.patch_workload wl (add_toleration wl) w).0 ≡ ok tt
        → (wl' : GenericWorkload) × (get_workload K wl.namespace wl.name
              (K.patch_workload wl (add_toleration wl) w).1
            ≡ ok wl')
          × Tolerates wl'.obj

  module _ (P : KeepsPlacement) where
    -- A call that advances from wherever it starts.
    abbrev pub AreAdvancing {ℓ} : {A : Type ℓ} → Go World A → Type 0
    AreAdvancing call = (w : World) → Advances w (call w).1

    check-Advances {ℓ κ} :
        {A : Type ℓ} {B : Type κ} (w : World) (r : Result A) (bad : Error → B × World)
        (good : A → B × World)
        → ((e : Error) → Advances w (bad e).1)
        → ((a : A) → r ≡ ok a → Advances w (good a).1)
        → Advances w (check r bad good).1
    check-Advances w (ok a) bad good f g = g a refl
    check-Advances w (err e) bad good f g = f e

    restore_pdb-Advances : (p : Pdb) (saved : String) → AreAdvancing (restore_pdb K p saved)
    unfolding restore_pdb
    restore_pdb-Advances p saved w =
        check-Advances w (K.unmarshal saved) _ _ (λ e. Advances-refl w)
          (λ spec q. P.patch_pdb-Advances p _ w)

    remove_operator_pdb-Advances : (p : Option Pdb) → AreAdvancing (remove_operator_pdb K p)
    unfolding remove_operator_pdb
    remove_operator_pdb-Advances none w = Advances-refl w
    remove_operator_pdb-Advances (some p) w =
        check-Advances w (K.delete_pdb p w).0 _ _ (λ e. P.delete_pdb-Advances p w)
          (λ u q. P.delete_pdb-Advances p w)

    allow_disruption-Advances :
        (user operator : Option Pdb) → AreAdvancing (allow_disruption K user operator)
    unfolding allow_disruption
    allow_disruption-Advances none operator w = remove_operator_pdb-Advances operator w
    allow_disruption-Advances (some user) operator w =
        by_saved (Dict.lookup original_pdb_spec_annotation user.annotations) refl
      where
        by_saved :
            (o : Option String)
            → Dict.lookup original_pdb_spec_annotation user.annotations ≡ o
            → Advances w (allow_disruption K (some user) operator w).1
        by_saved none p = rw (allow_disruption, p) (remove_operator_pdb-Advances operator w)
        by_saved (some saved) p = rw (allow_disruption, p) (restore_pdb-Advances user saved w)

    pub allow-Advances : (wl : GenericWorkload) → AreAdvancing (reconcile_pdb K wl true)
    unfolding reconcile_pdb
    allow-Advances wl w =
        check-Advances w (find_user_managed_pdb K wl w) _ _ (λ e. Advances-refl w)
          λ user p.
            check-Advances w (find_operator_pdb K wl w) _ _ (λ e. Advances-refl w)
              λ operator q. allow_disruption-Advances user operator w

    abbrev added : GenericWorkload → Bool → Go World (Result (Unit {0}))
    added current tolerated w =
        if tolerated then (ok tt, w) else K.patch_workload current (add_toleration current) w

    add_toleration_to_workload-Advances :
        (wl : GenericWorkload) → AreAdvancing (add_toleration_to_workload K wl)
    unfolding add_toleration_to_workload
    add_toleration_to_workload-Advances wl w =
        check-Advances w (get_workload K wl.namespace wl.name w) _ _ (λ e. Advances-refl w)
          λ current p. by_test current p (exists is_upgrade_toleration current.template.tolerations)
      where
        by_test :
            (current : GenericWorkload)
            → get_workload K wl.namespace wl.name w ≡ ok current
            → (b : Bool) → Advances w (added current b w).1
        by_test current p true = Advances-refl w
        by_test current p false =
            P.patch_workload-Advances current w (get_workload-again wl.namespace wl.name w p)

    pub release-Advances : (wl : GenericWorkload) → AreAdvancing (release K wl)
    unfolding release
    release-Advances wl w =
        check-Advances w (reconcile_pdb K wl true w).0 _ _ (λ e. allow-Advances wl w)
          λ u p. Advances-trans w (reconcile_pdb K wl true w).1 _ (allow-Advances wl w) (
            check-Advances (reconcile_pdb K wl true w).1
              (add_toleration_to_workload K wl (reconcile_pdb K wl true w).1).0 _ _
              (λ e. add_toleration_to_workload-Advances wl (reconcile_pdb K wl true w).1)
              (λ u q. add_toleration_to_workload-Advances wl (reconcile_pdb K wl true w).1))

    pub migrate_one-Advances :
        (o : Orchestrator) (plan : DeploymentPlan) → AreAdvancing (migrate_one K o plan)
    unfolding migrate_one
    migrate_one-Advances o plan w =
        check-Advances w (get_workload K o.namespace plan.name w) _ _ (λ e. Advances-refl w)
          λ wl p.
            check-Advances w (dependencies_met K o plan.depends_on w) _ _ (λ e. Advances-refl w)
              λ met q. by_met wl met
      where
        by_met :
            (wl : GenericWorkload) (met : Bool)
            → Advances w
                (elim met as (λ _. Unit {0} × World) [ true ↦ release K wl w | false ↦ (tt, w) ]).1
        by_met wl true = release-Advances wl w
        by_met wl false = Advances-refl w

    pub migrate_loop-Advances :
        (o : Orchestrator) (plans : List DeploymentPlan) → AreAdvancing (migrate_loop K o plans)
    unfolding migrate_loop
    migrate_loop-Advances o [] w = Advances-refl w
    migrate_loop-Advances o (plan ∷ plans) w =
        Advances-trans w (migrate_one K o plan w).1 _ (migrate_one-Advances o plan w)
          (migrate_loop-Advances o plans (migrate_one K o plan w).1)
