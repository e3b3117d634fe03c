-- ===== src/Upgrade/Tests/Placement.antt =====
-- The cluster in memory keeps the placement of pods through a round.
use nacho_operators.Common.{
  String, ap, ◌≡◌, refl, sym, ◌∙◌, ◌==◌, eq_iff, inl, inr, Bool-cases, some, arith, ok,
}
use nacho_operators.Common.Dict
use nacho_operators.Common.Dict.{Dict}
use nacho_operators.Common.InMemory.{found}
use nacho_operators.Upgrade.Types.{WorkloadObject, GenericWorkload}
use nacho_operators.Upgrade.Workloads.{get_workload, add_toleration}
use nacho_operators.Upgrade.Memory.{Cluster, memory, replace_object, replace_in}
use nacho_operators.Upgrade.Tests.Patched.{
  kinds_differ, get_workload-StandsIn, lookup-replace_object, get_workload-patch_workload,
}
use nacho_operators.Upgrade.Taints.{strip_tolerations-add_toleration}
use nacho_operators.Upgrade.Advances.{Tolerates, Extends, Extends-refl, Advances, KeepsPlacement}

add_toleration-Tolerates : (wl : GenericWorkload) → Tolerates (add_toleration wl).obj
unfolding add_toleration
add_toleration-Tolerates wl = (strip_tolerations-add_toleration wl).0

add_toleration-selector :
    (wl : GenericWorkload) → (add_toleration wl).obj.selector ≡ wl.obj.selector
unfolding add_toleration
add_toleration-selector wl = refl

module _ (wl : GenericWorkload) (d : Dict WorkloadObject)
    (h : Dict.lookup wl.name d ≡ some wl.obj) where
  replace_object-Extends :
      (key : String)
      → Extends
          (found (Dict.lookup key d))
          (found (Dict.lookup key (replace_object (add_toleration wl) d)))
  unfolding add_toleration
  replace_object-Extends key = elim (Bool-cases (wl.name == key)) [
    | inl p ↦
        let e : wl.name ≡ key = ground (arith, eq_iff wl.name key) in
        rw
          (
            lookup-replace_object wl (add_toleration wl).obj d h key,
            p,
            sym (ap (λ k. Dict.lookup k d) e) ∙ h,
          )
          (add_toleration-selector wl, λ t. add_toleration-Tolerates wl)
    | inr p ↦
        rw (lookup-replace_object wl (add_toleration wl).obj d h key, p)
          (Extends-refl (found (Dict.lookup key d)))
  ]

module _ (wl : GenericWorkload) (kind : String) (d : Dict WorkloadObject) where
  replace_in-Extends :
      (wl.kind ≡ kind → Dict.lookup wl.name d ≡ some wl.obj)
      → (key : String)
      → Extends
          (found (Dict.lookup key d))
          (found (Dict.lookup key (replace_in kind (add_toleration wl) d)))
  unfolding add_toleration
  replace_in-Extends h key = elim (Bool-cases (wl.kind == kind)) [
    | inl p ↦ rw p (replace_object-Extends wl d (h (ground (arith, eq_iff wl.kind kind))) key)
    | inr p ↦ rw p (Extends-refl (found (Dict.lookup key d)))
  ]

module _ (wl : GenericWorkload) (c : Cluster)
    (h : get_workload memory wl.namespace wl.name c ≡ ok wl) where
  stateful_sets-stands : wl.kind ≡ "StatefulSet" → Dict.lookup wl.name c.stateful_sets ≡ some wl.obj
  stateful_sets-stands e = elim (get_workload-StandsIn wl c h) [
    | inl (k, p) ↦ p
    | inr (k, p, q) ↦ absurd (kinds_differ k e)
  ]

  deployments-stands : wl.kind ≡ "Deployment" → Dict.lookup wl.name c.deployments ≡ some wl.obj
  deployments-stands e = elim (get_workload-StandsIn wl c h) [
    | inl (k, p) ↦ absurd (kinds_differ e k)
    | inr (k, p, q) ↦ q
  ]

  patch_workload-Advances : Advances memory c (memory.patch_workload wl (add_toleration wl) c).1
  patch_workload-Advances = record {
    nodes = λ name. refl;
    pods = λ ns s. refl;
    stateful_sets =
        λ key. replace_in-Extends wl "StatefulSet" c.stateful_sets stateful_sets-stands key.name;
    deployments =
        λ key. replace_in-Extends wl "Deployment" c.deployments deployments-stands key.name;
  }

  patch_workload_accepted :
      (wl' : GenericWorkload) × (get_workload memory wl.namespace wl.name
          (memory.patch_workload wl (add_toleration wl) c).1
        ≡ ok wl')
      × Tolerates wl'.obj
  unfolding add_toleration
  patch_workload_accepted = (
    add_toleration wl,
    get_workload-patch_workload wl (add_toleration wl).obj c h,
    add_toleration-Tolerates wl,
  )

pub memory-KeepsPlacement : KeepsPlacement memory
memory-KeepsPlacement = record {
  patch_pdb-Advances = λ old new w. record {
    nodes = λ name. refl;
    pods = λ ns s. refl;
    stateful_sets = λ key. Extends-refl (found (Dict.lookup key.name w.stateful_sets));
    deployments = λ key. Extends-refl (found (Dict.lookup key.name w.deployments));
  };
  delete_pdb-Advances = λ p w. record {
    nodes = λ name. refl;
    pods = λ ns s. refl;
    stateful_sets = λ key. Extends-refl (found (Dict.lookup key.name w.stateful_sets));
    deployments = λ key. Extends-refl (found (Dict.lookup key.name w.deployments));
  };
  patch_workload-Advances = patch_workload-Advances;
  patch_workload_accepted = λ wl w h accepted. patch_workload_accepted wl w h;
}
