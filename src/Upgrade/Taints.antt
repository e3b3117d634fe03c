-- ===== src/Upgrade/Taints.antt =====
-- Taints, labels and tolerations: preparing a node, and what the cleanup takes back.
use nacho_operators.Common.{
  String, ◌≡◌, refl, ap, ◌∙◌, true, not, ◌==◌, List, [], ◌∷◌, ◌++◌, exists, keep, keep-append,
  every, every-keep, arith, Result, ok, err, wrapped, Go, pure, attempt, append-nil,
}
use nacho_operators.Common.Dict
use nacho_operators.Upgrade.Types.{
  Node, Taint, Toleration, GenericWorkload, upgrade_taint, upgrade_node_label_key,
  is_upgrade_toleration, upgrade_toleration,
}
use nacho_operators.Upgrade.Kube.{Kube}
use nacho_operators.Upgrade.Server.{MatchesTaints}
use nacho_operators.Upgrade.Nodes.{prepare_node, prepare_loop, strip_taints, has_upgrade_key}
use nacho_operators.Upgrade.Workloads.{
  with_tolerations, add_toleration, strip_tolerations, tolerates_upgrade,
}

-- `for … { if err := step(x); err != nil { return … } }`
pub each_until_error {ℓ} :
    {W : Type 0} {A : Type ℓ} → (A → Go W (Result (Unit {0}))) → List A → Go W (Result (Unit {0}))
each_until_error step [] = pure (ok tt)
each_until_error step (x ∷ xs) =
    let continue = each_until_error step xs in
    attempt (step x) (λ e. pure (err (wrapped "failed to update node %s: %w" e))) (λ _. continue)

module _ (K : Kube) where
  -- `prepareNodes` writes to the nodes of the target version, in their order and up to the first
  -- write that fails, and to no other node.
  pub prepare_loop-each :
      (target : String) (nodes : List Node) (w : K.World)
      → prepare_loop K target nodes w
        ≡ each_until_error
            (λ n. K.patch_node n (prepare_node K target n))
            (keep (λ (n : Node). n.kubelet_version == target) nodes)
            w
  unfolding prepare_loop each_until_error
  prepare_loop-each target [] w = refl
  prepare_loop-each target (n ∷ nodes) w = ground (
    arith,
    prepare_loop-each target nodes w,
    prepare_loop-each target nodes (K.patch_node n (prepare_node K target n) w).1,
  )

  has_match-append :
      MatchesTaints K
      → (ts : List Taint)
      → exists (λ t. K.match_taint t upgrade_taint) (ts ++ (upgrade_taint ∷ [])) ≡ true
  has_match-append M [] = rw M refl
  has_match-append M (t ∷ ts) = ground (arith, has_match-append M ts)

  -- Preparing a prepared node changes nothing.
  pub prepare_node_idem :
      MatchesTaints K
      → (target : String) (n : Node)
      → prepare_node K target (prepare_node K target n) ≡ prepare_node K target n
  unfolding prepare_node
  prepare_node_idem M target n =
      ground (
        arith,
        Dict.insert_idem upgrade_node_label_key target n.labels,
        has_match-append M n.taints,
      )

  strip-append :
      (ts : List Taint)
      → keep (λ t. not (has_upgrade_key t)) (ts ++ (upgrade_taint ∷ []))
        ≡ keep (λ t. not (has_upgrade_key t)) ts
  strip-append ts =
      keep-append (λ t. not (has_upgrade_key t)) ts (upgrade_taint ∷ []) ∙ append-nil _

  -- The cleanup of a prepared node gives the taints that the cleanup of the node itself gives, none
  -- with the operator's key among them; the label with the target version stays.
  pub strip_taints-prepare_node :
      (target : String) (n : Node)
      → (strip_taints (prepare_node K target n)
          ≡ record (strip_taints n) { labels = Dict.insert upgrade_node_label_key target n.labels })
        × (every (λ t. not (has_upgrade_key t)) (strip_taints n).taints ≡ true)
  unfolding prepare_node strip_taints
  strip_taints-prepare_node target n =
      (ground (arith, strip-append n.taints), every-keep (λ t. not (has_upgrade_key t)) n.taints)

has_toleration-append :
    (ts : List Toleration) → exists is_upgrade_toleration (ts ++ (upgrade_toleration ∷ [])) ≡ true
has_toleration-append [] = refl
has_toleration-append (t ∷ ts) = ground (arith, has_toleration-append ts)

strip_tolerations-append :
    (ts : List Toleration)
    → keep (λ t. not (tolerates_upgrade t)) (ts ++ (upgrade_toleration ∷ []))
      ≡ keep (λ t. not (tolerates_upgrade t)) ts
strip_tolerations-append ts =
    keep-append (λ t. not (tolerates_upgrade t)) ts (upgrade_toleration ∷ []) ∙ append-nil _

-- An extended workload has the upgrade toleration, and its cleanup gives what the cleanup of the
-- workload itself gives.
pub strip_tolerations-add_toleration :
    (wl : GenericWorkload)
    → (exists is_upgrade_toleration (add_toleration wl).template.tolerations ≡ true)
      × (strip_tolerations (add_toleration wl) ≡ strip_tolerations wl)
unfolding add_toleration strip_tolerations
strip_tolerations-add_toleration wl = (
  has_toleration-append wl.template.tolerations,
  ap (with_tolerations wl) (strip_tolerations-append wl.template.tolerations),
)
