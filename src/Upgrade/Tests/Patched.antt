-- ===== src/Upgrade/Tests/Patched.antt =====
-- A patch of a workload on the cluster in memory, and the read of the workload after it.
use nacho_operators.Common.{
  String, ap, ◌≡◌, refl, sym, ◌∙◌, ◌==◌, eq_iff, ◌⊎◌, inl, inr, true, false, Option, none, some,
  arith, Result, ok, ok-injective, if◌then◌else◌,
}
use nacho_operators.Common.Dict
use nacho_operators.Common.Dict.{Dict}
use nacho_operators.Upgrade.Types.{WorkloadObject, GenericWorkload}
use nacho_operators.Upgrade.Workloads.{get_workload}
use nacho_operators.Upgrade.Memory.{Cluster, memory, replace_object, replace_in}

pub kinds_differ : {kind : String} → kind ≡ "Deployment" → kind ≡ "StatefulSet" → ⊥
kinds_differ d s = ground (arith, eq_iff "Deployment" "StatefulSet")

-- Where a workload that was read stands.
abbrev pub StandsIn : GenericWorkload → Cluster → Type 0
StandsIn wl c =
    ((wl.kind ≡ "StatefulSet") × (Dict.lookup wl.name c.stateful_sets ≡ some wl.obj))
    ⊎ ((wl.kind ≡ "Deployment")
        × (Dict.lookup wl.name c.stateful_sets ≡ none)
        × (Dict.lookup wl.name c.deployments ≡ some wl.obj))

pub get_workload-StandsIn :
    (wl : GenericWorkload) (c : Cluster)
    → get_workload memory wl.namespace wl.name c ≡ ok wl
    → StandsIn wl c
unfolding get_workload
get_workload-StandsIn wl c h =
    by_reads (Dict.lookup wl.name c.stateful_sets) (Dict.lookup wl.name c.deployments) refl refl
  where
    workload_of : String → WorkloadObject → GenericWorkload
    workload_of kind obj = record {
      kind = kind;
      namespace = wl.namespace;
      name = wl.name;
      obj = obj;
    }

    by_reads :
        (r s : Option WorkloadObject)
        → Dict.lookup wl.name c.stateful_sets ≡ r
        → Dict.lookup wl.name c.deployments ≡ s
        → StandsIn wl c
    by_reads (some a) s p q =
        let e : workload_of "StatefulSet" a ≡ wl = ok-injective (rw p at h) in
        inl (
          sym (ap (λ (x : GenericWorkload). x.kind) e),
          p ∙ ap (λ (x : GenericWorkload). some x.obj) e,
        )
    by_reads none (some b) p q =
        let e : workload_of "Deployment" b ≡ wl = ok-injective (rw (p, q) at h) in
        inr (
          sym (ap (λ (x : GenericWorkload). x.kind) e),
          p,
          q ∙ ap (λ (x : GenericWorkload). some x.obj) e,
        )
    by_reads none none p q = absurd (ground arith)

-- The workload with another object.
abbrev pub with_obj : GenericWorkload → WorkloadObject → GenericWorkload
with_obj wl obj = record wl { obj = obj }

module _ (wl : GenericWorkload) (obj : WorkloadObject) (d : Dict WorkloadObject) where
  module _ (h : Dict.lookup wl.name d ≡ some wl.obj) where
    pub lookup-replace_object :
        (key : String)
        → Dict.lookup key (replace_object (with_obj wl obj) d)
          ≡ (if wl.name == key then some obj else Dict.lookup key d)
    lookup-replace_object key = rw (replace_object, h) (Dict.lookup-insert wl.name key obj d)

    lookup-replace_object-own : Dict.lookup wl.name (replace_object (with_obj wl obj) d) ≡ some obj
    lookup-replace_object-own =
        let p : (wl.name == wl.name) ≡ true = ground (arith, eq_iff wl.name wl.name) in
        rw p at (lookup-replace_object wl.name)

  module _ (kind : String) where
    replace_in-same :
        wl.kind ≡ kind → replace_in kind (with_obj wl obj) d ≡ replace_object (with_obj wl obj) d
    replace_in-same e =
        let p : (wl.kind == kind) ≡ true = ground (arith, eq_iff wl.kind kind) in rw p refl

    replace_in-other : (wl.kind ≡ kind → ⊥) → replace_in kind (with_obj wl obj) d ≡ d
    replace_in-other n =
        let p : (wl.kind == kind) ≡ false = ground (arith, eq_iff wl.kind kind) in rw p refl

-- A workload as it was read and then patched is read as the patch made it.
pub get_workload-patch_workload :
    (wl : GenericWorkload) (obj : WorkloadObject) (c : Cluster)
    → get_workload memory wl.namespace wl.name c ≡ ok wl
    → get_workload memory wl.namespace wl.name (memory.patch_workload wl (with_obj wl obj) c).1
      ≡ ok (with_obj wl obj)
unfolding get_workload
get_workload-patch_workload wl obj c h = elim (get_workload-StandsIn wl c h) [
  | inl (k, p) ↦
      rw
        (
          replace_in-same wl obj c.stateful_sets "StatefulSet" k,
          lookup-replace_object-own wl obj c.stateful_sets p,
        )
        (ap of_kind (sym k))
  | inr (k, p, q) ↦
      rw
        (
          replace_in-other wl obj c.stateful_sets "StatefulSet" (λ e. kinds_differ k e),
          p,
          replace_in-same wl obj c.deployments "Deployment" k,
          lookup-replace_object-own wl obj c.deployments q,
        )
        (ap of_kind (sym k))
]
  where
    of_kind : String → Result GenericWorkload
    of_kind kind = ok (record { kind = kind; namespace = wl.namespace; name = wl.name; obj = obj })
