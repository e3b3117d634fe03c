-- ===== src/Upgrade/Nodes.antt =====
-- The node functions of upgrade-orchestrator/internal/controller/upgradeorchestrator_controller.go:
-- isAnyNodeCordoned, detectNodeVersions, determineTargetVersion and prepareNodes. An error carries
-- its format text; the values that the text is filled with are left out.
use nacho_operators.Common.{String, Bool, ◌&&◌, not, ◌==◌, List, [], ◌∷◌, ◌++◌}
use nacho_operators.Common.{
  contains, exists, keep, Error, errorf, wrapped, Result, ok, err, check, Go, pure, attempt,
  if◌then◌else◌,
}
use nacho_operators.Common.Dict
use nacho_operators.Upgrade.Types.{Taint, Node, upgrade_taint, upgrade_taint_key}
use nacho_operators.Upgrade.Types.{upgrade_node_label_key, no_schedule}
use nacho_operators.Upgrade.Kube.{Kube}

abbrev pub is_cordon : Taint → Bool
is_cordon taint = taint.key == "node.kubernetes.io/unschedulable" && taint.effect == no_schedule

-- The nested loops of `isAnyNodeCordoned`.
unfoldable pub any_cordoned : List Node → Bool
any_cordoned nodes = exists (λ node. exists is_cordon node.taints) nodes

-- `versionSet[version] = struct{}{}`, over the list of keys
unfoldable pub add_version : String → List String → List String
add_version v versions = if contains versions v then versions else versions ++ (v ∷ [])

unfoldable pub version_set : List Node → List String → List String
version_set [] versions = versions
version_set (node ∷ nodes) versions = version_set nodes (add_version node.kubelet_version versions)

abbrev pub has_upgrade_key : Taint → Bool
has_upgrade_key taint = taint.key == upgrade_taint_key

-- The body of the cleanup loop over the nodes: the taints that stay.
unfoldable pub strip_taints : Node → Node
strip_taints node = record node { taints = keep (λ t. not (has_upgrade_key t)) node.taints }

module _ (K : Kube) where
  open K use {
    World, range_order, match_taint, new_version, greater_than, original, list_nodes, patch_node,
  }

  unfoldable pub is_any_node_cordoned : World → Result Bool
  is_any_node_cordoned w = check (list_nodes w) err (λ nodes. ok (any_cordoned nodes))

  unfoldable pub detect_node_versions : World → Result (List String)
  detect_node_versions w =
      check (list_nodes w) err (λ nodes. ok (range_order w (version_set nodes [])))

  abbrev unparsed : Error → Result String
  unparsed _ = err (errorf "failed to parse semantic versions: %v, %v")

  unfoldable pub determine_target_version : List String → Result String
  determine_target_version (a ∷ b ∷ []) = check (new_version a) unparsed λ v1.
      check (new_version b) unparsed
        λ v2. ok (if greater_than v1 v2 then original v1 else original v2)
  determine_target_version _ = err (errorf "expected 2 versions, got %d")

  -- What `prepareNodes` makes of a node of the target version.
  unfoldable pub prepare_node : String → Node → Node
  prepare_node target node = record node {
    labels = Dict.insert upgrade_node_label_key target node.labels;
    taints =
        if exists (λ t. match_taint t upgrade_taint) node.taints
        then node.taints
        else node.taints ++ (upgrade_taint ∷ []);
  }

  unfoldable pub prepare_loop : String → List Node → Go World (Result (Unit {0}))
  prepare_loop target [] = pure (ok tt)
  prepare_loop target (node ∷ nodes) =
      let continue = prepare_loop target nodes in
      if node.kubelet_version == target
      then attempt (patch_node node (prepare_node target node))
          (λ e. pure (err (wrapped "failed to update node %s: %w" e))) (λ _. continue)
      else continue

  unfoldable pub prepare_nodes : String → Go World (Result (Unit {0}))
  prepare_nodes target w =
      check (list_nodes w) (λ e. (err e, w)) (λ nodes. prepare_loop target nodes w)

  -- The loop over the nodes in `cleanupGlobalUpgradeArtifacts`: an error is logged and passed over.
  unfoldable pub strip_loop : List Node → Go World (Unit {0})
  strip_loop [] = pure tt
  strip_loop (node ∷ nodes) =
      let continue = strip_loop nodes in
      if exists has_upgrade_key node.taints
      then attempt (patch_node node (strip_taints node)) (λ _. continue) (λ _. continue)
      else continue
