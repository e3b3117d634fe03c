-- ===== src/Upgrade/Kube.antt =====
-- What the orchestrator takes from outside the repository: the controller-runtime client, the
-- label, taint and JSON code of Kubernetes, package semver, the clock, and Go's order of iteration
-- over a map. `World` is the cluster with everything around it. A read sees it as it stands; a
-- write may change all of it, and may fail.
use nacho_operators.Common.{
  ℕ, String, Option, Bool, List, Error, Result, Go, NamespacedName, Labels,
}
use nacho_operators.Upgrade.Types.{
  Orchestrator, Taint, Node, Pod, PdbSpec, Pdb, WorkloadObject, GenericWorkload,
}

pub record Kube : Type 1 where
  pub World : Type 0
  pub now : World → ℕ
  -- The keys of a map, in the order in which `range` visits them.
  pub range_order : World → List String → List String
  pub labels : Labels
  pub open labels use *
  pub match_taint : Taint → Taint → Bool
  pub is_not_found : Error → Bool
  pub ignore_not_found : Error → Option Error
  pub marshal : PdbSpec → Result String
  pub unmarshal : String → Result PdbSpec
  pub Version : Type 0
  pub new_version : String → Result Version
  pub greater_than : Version → Version → Bool
  pub original : Version → String
  pub get_orchestrator : NamespacedName → World → Result Orchestrator
  pub list_nodes : World → Result (List Node)
  pub get_node : String → World → Result Node
  pub get_stateful_set : NamespacedName → World → Result WorkloadObject
  pub get_deployment : NamespacedName → World → Result WorkloadObject
  pub list_pods : String → Selector → World → Result (List Pod)
  pub list_pdbs : String → World → Result (List Pdb)
  pub get_pdb : NamespacedName → World → Result Pdb
  -- `Update` and `Status().Update` write the server's answer back into the object.
  pub update : Orchestrator → Go World (Result Orchestrator)
  pub status_update : Orchestrator → Go World (Result Orchestrator)
  -- A patch is given the object as it was read, and as it was changed.
  pub patch_node : Node → Node → Go World (Result (Unit {0}))
  pub patch_workload : GenericWorkload → GenericWorkload → Go World (Result (Unit {0}))
  pub patch_pdb : Pdb → Pdb → Go World (Result (Unit {0}))
  pub create_pdb : Pdb → Go World (Result (Unit {0}))
  pub delete_pdb : Pdb → Go World (Result (Unit {0}))
