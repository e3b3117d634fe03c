-- ===== src/Upgrade/Gate.antt =====
-- When a workload of the plan is released, and when it stays blocked.
use nacho_operators.Common.{
  String, ◌≡◌, refl, ◌≢◌, ◌↔◌, true, eq_iff, List, [], ◌∷◌, ◌++◌, arith, Result, ok, err, Error,
}
use nacho_operators.Upgrade.Types.{DeploymentPlan, Orchestrator, Node, Pod, GenericWorkload}
use nacho_operators.Upgrade.Kube.{Kube}
use nacho_operators.Upgrade.Server.{ReadsNotFound}
use nacho_operators.Upgrade.Workloads.{
  get_workload, pods_migrated, is_workload_migrated, each_migrated, dependencies_met,
}
use nacho_operators.Upgrade.Migration.{release, migrate_one}

module _ (K : Kube) (w : K.World) where
  -- The pod runs on a node that shows the target version.
  abbrev pub OnTarget : String → Pod → Type 0
  OnTarget target pod =
      (pod.node_name ≢ "")
      × ((n : Node) × (K.get_node pod.node_name w ≡ ok n) × (n.kubelet_version ≡ target))

  abbrev pub AllOnTarget : String → List Pod → Type 0
  AllOnTarget target [] = Unit
  AllOnTarget target (pod ∷ pods) = OnTarget target pod × AllOnTarget target pods

  pods_migrated→ :
      (target : String) (pods : List Pod)
      → pods_migrated K target pods w ≡ ok true
      → AllOnTarget target pods
  unfolding pods_migrated
  pods_migrated→ target [] h = tt
  pods_migrated→ target (pod ∷ pods) h =
      by_node (K.get_node pod.node_name w) refl (pods_migrated→ target pods)
    where
      by_node :
          (r : Result Node)
          → K.get_node pod.node_name w ≡ r
          → (pods_migrated K target pods w ≡ ok true → AllOnTarget target pods)
          → AllOnTarget target (pod ∷ pods)
      by_node (err e) p ih = absurd (ground arith)
      by_node (ok n) p ih = (
        (
          λ e. ground (arith, eq_iff pod.node_name ""),
          (n, p, ground (arith, eq_iff n.kubelet_version target)),
        ),
        ih (ground arith),
      )

  pods_migrated← :
      (target : String) (pods : List Pod)
      → AllOnTarget target pods
      → pods_migrated K target pods w ≡ ok true
  unfolding pods_migrated
  pods_migrated← target [] h = refl
  pods_migrated← target (pod ∷ pods) ((placed, (n, found, at)), rest) = ground (
    arith,
    eq_iff pod.node_name "",
    eq_iff n.kubelet_version target,
    pods_migrated← target pods rest,
  )

  -- A workload that is found and whose pods can be listed counts as migrated exactly if each of its
  -- pods runs on a node of the target version.
  pub is_workload_migrated_iff :
      (ns name target : String) {wl : GenericWorkload} {s : K.Selector} {pods : List Pod}
      → get_workload K ns name w ≡ ok wl
      → K.label_selector_as_selector wl.selector ≡ ok s
      → K.list_pods ns s w ≡ ok pods
      → (is_workload_migrated K ns name target w ≡ ok true) ↔ AllOnTarget target pods
  unfolding is_workload_migrated
  is_workload_migrated_iff ns name target {pods} p q r =
      rw (p, q, r) (pods_migrated→ target pods, pods_migrated← target pods)

  -- A workload that is missing is an error, and does not count as migrated: the text that
  -- `getWorkload` returns is no "not found" of the API.
  pub is_workload_migrated_missing :
      ReadsNotFound K
      → (ns name target : String) {e e' : Error}
      → K.get_stateful_set (record { namespace = ns; name = name }) w ≡ err e
      → K.get_deployment (record { namespace = ns; name = name }) w ≡ err e'
      → is_workload_migrated K ns name target w ≢ ok true
  unfolding is_workload_migrated get_workload
  is_workload_migrated_missing N ns name target p q h =
      ground (arith, p, q, N "workload %s not found")

  each_migrated_blocked :
      (ns target dep : String) (before after : List String)
      → is_workload_migrated K ns dep target w ≢ ok true
      → each_migrated K ns (before ++ (dep ∷ after)) target w ≢ ok true
  unfolding each_migrated
  each_migrated_blocked ns target dep [] after h e = h (ground arith)
  each_migrated_blocked ns target dep (b ∷ before) after h e =
      each_migrated_blocked ns target dep before after h (ground arith)

  dependencies_met_blocked :
      (o : Orchestrator) (deps : List String) (dep : String) (before after : List String)
      → deps ≡ before ++ (dep ∷ after)
      → is_workload_migrated K o.namespace dep o.status.target_version w ≢ ok true
      → dependencies_met K o deps w ≢ ok true
  unfolding dependencies_met
  dependencies_met_blocked o [] dep [] after p h = λ e. cc
  dependencies_met_blocked o [] dep (b ∷ before) after p h = λ e. cc
  dependencies_met_blocked o (d ∷ deps) dep before after p h = λ e.
      each_migrated_blocked o.namespace o.status.target_version dep before after h
        (rw (← p) (ground arith))

  -- A dependency that does not count as migrated keeps its dependents blocked: the round over the
  -- plan makes no call for them that writes.
  pub migrate_one_blocked :
      (o : Orchestrator) (plan : DeploymentPlan) (dep : String) (before after : List String)
      → plan.depends_on ≡ before ++ (dep ∷ after)
      → is_workload_migrated K o.namespace dep o.status.target_version w ≢ ok true
      → migrate_one K o plan w ≡ (tt, w)
  unfolding migrate_one
  migrate_one_blocked o plan dep before after p h =
      ground (arith, dependencies_met_blocked o plan.depends_on dep before after p h)

  -- A workload that is found, all of whose dependencies count as migrated, is released.
  pub migrate_one_released :
      (o : Orchestrator) (plan : DeploymentPlan) {wl : GenericWorkload}
      → get_workload K o.namespace plan.name w ≡ ok wl
      → dependencies_met K o plan.depends_on w ≡ ok true
      → migrate_one K o plan w ≡ release K wl w
  unfolding migrate_one
  migrate_one_released o plan p q = rw (p, q)
