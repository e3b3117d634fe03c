-- ===== src/Upgrade/Server.antt =====
-- What the proofs assume of the code outside the repository, as records of laws.
use nacho_operators.Common.{
  keep, not, Bool, err, Error, String, ◌==◌, ◌≡◌, ◌⊎◌, false, ◌&&◌, List, map, ok, errorf,
  if◌then◌else◌, NamespacedName,
}
use nacho_operators.Upgrade.Types.{Orchestrator, Taint, Node, Pdb, PdbSpec, GenericWorkload}
use nacho_operators.Upgrade.Kube.{Kube}

-- The API server as one orchestrator sees it, while nobody else writes to that object. The custom
-- resource has a status subresource (its CRD says so): a plain update leaves the stored status as
-- it is and answers with it, a status update stores the status that it is given. A write that
-- fails may have been stored and its answer lost. The other writes touch other objects.
pub record IsServer (K : Kube) (key : NamespacedName) : Type 0 where
  pub stored_state : K.World → String
  pub get_orchestrator-stored_state :
      (w : K.World) {o : Orchestrator}
      → K.get_orchestrator key w ≡ ok o
      → o.status.state ≡ stored_state w
  pub update-stored_state :
      (o : Orchestrator) (w : K.World) → stored_state (K.update o w).1 ≡ stored_state w
  pub update_answer :
      (o : Orchestrator) (w : K.World) {a : Orchestrator}
      → (K.update o w).0 ≡ ok a
      → a.status.state ≡ stored_state w
  pub status_update-stored_state :
      (o : Orchestrator) (w : K.World)
      → (stored_state (K.status_update o w).1 ≡ o.status.state)
        ⊎ (stored_state (K.status_update o w).1 ≡ stored_state w)
  pub status_update_accepted :
      (o : Orchestrator) (w : K.World) {a : Orchestrator}
      → (K.status_update o w).0 ≡ ok a
      → (stored_state (K.status_update o w).1 ≡ o.status.state) × (a.status.state ≡ o.status.state)
  pub patch_node-stored_state :
      (n m : Node) (w : K.World) → stored_state (K.patch_node n m w).1 ≡ stored_state w
  pub patch_workload-stored_state :
      (n m : GenericWorkload) (w : K.World)
      → stored_state (K.patch_workload n m w).1 ≡ stored_state w
  pub patch_pdb-stored_state :
      (n m : Pdb) (w : K.World) → stored_state (K.patch_pdb n m w).1 ≡ stored_state w
  pub create_pdb-stored_state :
      (p : Pdb) (w : K.World) → stored_state (K.create_pdb p w).1 ≡ stored_state w
  pub delete_pdb-stored_state :
      (p : Pdb) (w : K.World) → stored_state (K.delete_pdb p w).1 ≡ stored_state w

-- An error that `fmt.Errorf` makes without `%w` is no status error of the API.
abbrev pub ReadsNotFound : Kube → Type 0
ReadsNotFound K = (text : String) → K.is_not_found (errorf text) ≡ false

-- `MatchTaint` compares keys and effects.
abbrev pub MatchesTaints : Kube → Type 0
MatchesTaints K = (t u : Taint) → K.match_taint t u ≡ (t.key == u.key && t.effect == u.effect)

abbrev pub is_same : Pdb → Pdb → Bool
is_same p q = p.name == q.name && p.namespace == q.namespace

abbrev pub replace_pdb : Pdb → List Pdb → List Pdb
replace_pdb new = map (λ p. if is_same p new then new else p)

abbrev pub without_pdb : Pdb → List Pdb → List Pdb
without_pdb gone = keep (λ p. not (is_same p gone))

-- What was marshalled can be read back, and an accepted patch replaces the budget of that name and
-- namespace in the list of its namespace.
pub record KeepsBudgets (K : Kube) : Type 0 where
  pub unmarshal-marshal :
      (spec : PdbSpec) {text : String} → K.marshal spec ≡ ok text → K.unmarshal text ≡ ok spec
  pub list_pdbs-patch_pdb :
      (old new : Pdb) (ns : String) (w : K.World) {pdbs : List Pdb}
      → (K.patch_pdb old new w).0 ≡ ok tt
      → K.list_pdbs ns w ≡ ok pdbs
      → K.list_pdbs ns (K.patch_pdb old new w).1 ≡ ok (replace_pdb new pdbs)

-- A patch that fails may have been stored and its answer lost, and so may a deletion. A budget is read
-- by its name.
pub record ServesBudgets (K : Kube) : Type 0 where
  pub keeps : KeepsBudgets K
  pub list_pdbs-patch_failed :
      (old new : Pdb) (ns : String) (w : K.World) {pdbs : List Pdb} {e : Error}
      → (K.patch_pdb old new w).0 ≡ err e
      → K.list_pdbs ns w ≡ ok pdbs
      → (K.list_pdbs ns (K.patch_pdb old new w).1 ≡ ok (replace_pdb new pdbs))
        ⊎ (K.list_pdbs ns (K.patch_pdb old new w).1 ≡ ok pdbs)
  pub list_pdbs-delete_pdb :
      (gone : Pdb) (ns : String) (w : K.World) {pdbs : List Pdb}
      → K.list_pdbs ns w ≡ ok pdbs
      → (K.list_pdbs ns (K.delete_pdb gone w).1 ≡ ok (without_pdb gone pdbs))
        ⊎ (K.list_pdbs ns (K.delete_pdb gone w).1 ≡ ok pdbs)
  pub get_pdb-name :
      (k : NamespacedName) (w : K.World) {p : Pdb} → K.get_pdb k w ≡ ok p → p.name ≡ k.name
