-- ===== src/Upgrade/Placement.antt =====
-- Calls that advance leave what counts as migrated, and keep workloads and their tolerations.
use nacho_operators.Common.{
  Option, LabelSelector, wrapped, String, ◌≡◌, refl, ap, subst, ◌∙◌, Bool, List, [], ◌∷◌, Result,
  ok, err, errorf, check,
}
use nacho_operators.Upgrade.Types.{Pod, WorkloadObject, GenericWorkload}
use nacho_operators.Upgrade.Kube.{Kube}
use nacho_operators.Upgrade.Workloads.{get_workload, pods_migrated, is_workload_migrated}
use nacho_operators.Upgrade.Advances.{Tolerates, Extends, Advances}

-- `getWorkload` over what the two reads give.
abbrev chosen :
    String → String → Result WorkloadObject → Result WorkloadObject → Result GenericWorkload
chosen ns name r s =
    check r
      (λ _.
        check s (λ _. err (errorf "workload %s not found"))
          (λ obj. ok (record { kind = "Deployment"; namespace = ns; name = name; obj = obj })))
      (λ obj. ok (record { kind = "StatefulSet"; namespace = ns; name = name; obj = obj }))

abbrev ExtendsWorkload : Result GenericWorkload → Result GenericWorkload → Type 0
ExtendsWorkload (ok a) (ok b) =
    (b.obj.selector ≡ a.obj.selector) × (Tolerates a.obj → Tolerates b.obj)
ExtendsWorkload (err e) (err e') = e' ≡ e
ExtendsWorkload _ _ = ⊥

chosen-Extends :
    (ns name : String) (r r' s s' : Result WorkloadObject)
    → Extends r r'
    → Extends s s'
    → ExtendsWorkload (chosen ns name r s) (chosen ns name r' s')
chosen-Extends ns name (ok a) (ok b) s s' p q = p
chosen-Extends ns name (ok a) (err e) s s' p q = absurd p
chosen-Extends ns name (err e) (ok b) s s' p q = absurd p
chosen-Extends ns name (err e) (err e') (ok a) (ok b) p q = q
chosen-Extends ns name (err e) (err e') (ok a) (err f) p q = absurd q
chosen-Extends ns name (err e) (err e') (err f) (ok b) p q = absurd q
chosen-Extends ns name (err e) (err e') (err f) (err f') p q = refl

module _ (K : Kube) where
  pods_migrated-nodes :
      (target : String) (pods : List Pod) (w w' : K.World)
      → ((name : String) → K.get_node name w' ≡ K.get_node name w)
      → pods_migrated K target pods w' ≡ pods_migrated K target pods w
  unfolding pods_migrated
  pods_migrated-nodes target [] w w' h = refl
  pods_migrated-nodes target (pod ∷ pods) w w' h =
      rw (h pod.node_name, pods_migrated-nodes target pods w w' h) refl

  module _ (w w' : K.World) (a : Advances K w w') (ns name : String) where
    get_workload-Extends : ExtendsWorkload (get_workload K ns name w) (get_workload K ns name w')
    unfolding get_workload
    get_workload-Extends =
        chosen-Extends ns name _ _ _ _ (a.stateful_sets (record { namespace = ns; name = name }))
          (a.deployments (record { namespace = ns; name = name }))

    abbrev verdict_on : String → K.World → Result (List Pod) → Result Bool
    verdict_on target at listed =
        check listed (λ e. err (wrapped "failed to list pods for dependency '%s': %w" e))
          (λ pods. pods_migrated K target pods at)

    verdict_on-nodes :
        (target : String) (listed : Result (List Pod))
        → verdict_on target w' listed ≡ verdict_on target w listed
    verdict_on-nodes target (ok pods) = pods_migrated-nodes target pods w w' a.nodes
    verdict_on-nodes target (err e) = refl

    abbrev verdict : String → K.World → Option LabelSelector → Result Bool
    verdict target at selector =
        check (K.label_selector_as_selector selector)
          (λ e. err (wrapped "invalid label selector for dependency '%s': %w" e))
          (λ s. verdict_on target at (K.list_pods ns s at))

    verdict-Advances :
        (target : String) (selector : Option LabelSelector)
        → verdict target w' selector ≡ verdict target w selector
    verdict-Advances target selector = by_selector (K.label_selector_as_selector selector) refl
      where
        by_selector :
            (r : Result K.Selector)
            → K.label_selector_as_selector selector ≡ r
            → verdict target w' selector ≡ verdict target w selector
        by_selector (err e) p = rw p refl
        by_selector (ok s) p =
            rw p (
              ap (verdict_on target w') (a.pods ns s)
              ∙ verdict_on-nodes target (K.list_pods ns s w))

    pub is_workload_migrated-Advances :
        (target : String)
        → is_workload_migrated K ns name target w' ≡ is_workload_migrated K ns name target w
    unfolding is_workload_migrated
    is_workload_migrated-Advances target =
        by_reads (get_workload K ns name w) (get_workload K ns name w') refl refl
          get_workload-Extends
      where
        by_reads :
            (r r' : Result GenericWorkload)
            → get_workload K ns name w ≡ r
            → get_workload K ns name w' ≡ r'
            → ExtendsWorkload (get_workload K ns name w) (get_workload K ns name w')
            → is_workload_migrated K ns name target w' ≡ is_workload_migrated K ns name target w
        by_reads (ok x) (ok y) p q =
            rw (p, q) (λ (e, f). ap (verdict target w') e ∙ verdict-Advances target x.obj.selector)
        by_reads (err x) (err y) p q = rw (p, q) (λ e. rw e refl)
        by_reads (ok x) (err y) p q = rw (p, q) (λ e. absurd e)
        by_reads (err x) (ok y) p q = rw (p, q) (λ e. absurd e)

    pub get_workload-Advances :
        {wl : GenericWorkload}
        → get_workload K ns name w ≡ ok wl
        → (wl' : GenericWorkload) × (get_workload K ns name w' ≡ ok wl')
          × (Tolerates wl.obj → Tolerates wl'.obj)
    get_workload-Advances {wl} h =
        by_read (get_workload K ns name w') refl
          (subst (λ r. ExtendsWorkload r (get_workload K ns name w')) h get_workload-Extends)
      where
        by_read :
            (r : Result GenericWorkload)
            → get_workload K ns name w' ≡ r
            → ExtendsWorkload (ok wl) (get_workload K ns name w')
            → (wl' : GenericWorkload) × (get_workload K ns name w' ≡ ok wl')
              × (Tolerates wl.obj → Tolerates wl'.obj)
        by_read (ok wl') p x = (wl', p, (subst (ExtendsWorkload (ok wl)) p x).1)
        by_read (err e) p x = absurd (subst (ExtendsWorkload (ok wl)) p x)
