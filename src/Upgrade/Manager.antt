-- ===== src/Upgrade/Manager.antt =====
-- upgrade-orchestrator/cmd/main.go, and SetupWithManager with mapNodeToOrchestrator of
-- upgrade-orchestrator/internal/controller/upgradeorchestrator_controller.go.
use nacho_operators.Common.{List, [], ◌∷◌, pure, Go, NamespacedName}
use nacho_operators.Common.Manager.{
  ManagerOptions, Flags, Builder, Exit, Runtime, options_with, or_exit, with_manager, serve,
}
use nacho_operators.Upgrade.Types.{Node}

unfoldable pub manager_options : Flags → ManagerOptions
unfolding options_with
manager_options f = options_with f "b2da7d46.nachoperator.io" ("cadence-master" ∷ [])

unfoldable pub builder : Builder
builder = record {
  for_kind = "UpgradeOrchestrator";
  predicates = [];
  owns = "Pod" ∷ "PodDisruptionBudget" ∷ [];
  watches = "Node" ∷ [];
}

-- `mapNodeToOrchestrator`: the requests for a change of a node
unfoldable pub map_node_to_orchestrator : Node → List NamespacedName
map_node_to_orchestrator node =
    record { namespace = "cadence-master"; name = "deploy-dependency-map" } ∷ []

module _ (R : Runtime) where
  open R use {World, flags, complete}

  unfoldable pub main : Go World Exit
  unfolding manager_options builder serve
  main =
      with_manager R (manager_options flags)
        λ mgr. or_exit (complete mgr builder) (λ _. serve R mgr (pure tt))
