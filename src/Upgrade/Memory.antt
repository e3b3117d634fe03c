-- ===== src/Upgrade/Memory.antt =====
-- A cluster in memory, at which the theorems are applied. Versions are ordered as texts, which
-- serves for the versions of the tests; JSON is written for budgets of one form only.
use Prim.Native.Nat.{Ordering}
use Prim.Native.String.{compare}
use nacho_operators.Common.{
  eq_iff, Bool, true, false, ℕ, String, ◌≡◌, refl, sym, ap, ok-injective, ◌==◌, true, false, ◌&&◌,
  Option, none, some, inl, List, [], ◌∷◌, map, arith, errorf, Result, ok, err, if◌then◌else◌,
  LabelSelector, Requirement, NamespacedName,
}
use nacho_operators.Common.Dict
use nacho_operators.Common.Dict.{Dict}
use nacho_operators.Common.InMemory.{found, is_not_found, ignore_not_found, plain_labels}
use nacho_operators.Upgrade.Types.{
  Orchestrator, Node, Pod, IntOrString, str, PdbSpec, Pdb, WorkloadObject, GenericWorkload,
}
use nacho_operators.Upgrade.Kube.{Kube}
use nacho_operators.Upgrade.Server.{
  IsServer, ReadsNotFound, MatchesTaints, KeepsBudgets, ServesBudgets, replace_pdb, without_pdb,
}

pub record Cluster : Type 0 where
  pub clock : ℕ
  pub orchestrator : Orchestrator
  pub nodes : List Node
  pub stateful_sets : Dict WorkloadObject
  pub deployments : Dict WorkloadObject
  pub pods : List Pod
  pub pdbs : List Pdb

abbrev marshal_selected : String → Dict String → List Requirement → Result String
marshal_selected s [] [] = ok s
marshal_selected s _ _ = err (errorf "unsupported")

abbrev marshal_parts :
    Option IntOrString → Option LabelSelector → Option IntOrString → Option String → Result String
marshal_parts (some (str s)) (some l) none none =
    marshal_selected s l.match_labels l.match_expressions
marshal_parts _ _ _ _ = err (errorf "unsupported")

abbrev marshal : PdbSpec → Result String
marshal spec =
    marshal_parts spec.min_available spec.selector spec.max_unavailable
      spec.unhealthy_pod_eviction_policy

abbrev unmarshal : String → Result PdbSpec
unmarshal text = ok (record {
  min_available = some (str text);
  selector = some (record { match_labels = []; match_expressions = [] });
  max_unavailable = none;
  unhealthy_pod_eviction_policy = none;
})

abbrev node_named : String → List Node → Option Node
node_named name [] = none
node_named name (n ∷ nodes) = if n.name == name then some n else node_named name nodes

abbrev pub pdb_named : String → List Pdb → Option Pdb
pdb_named name [] = none
pdb_named name (p ∷ pdbs) = if p.name == name then some p else pdb_named name pdbs

abbrev replace_node : Node → List Node → List Node
replace_node new = map (λ n. if n.name == new.name then new else n)

abbrev pub replace_object : GenericWorkload → Dict WorkloadObject → Dict WorkloadObject
replace_object wl d = elim (Dict.lookup wl.name d) [
  | none ↦ d
  | some _ ↦ Dict.insert wl.name wl.obj d
]

-- A patch of a workload goes to the objects of its kind.
abbrev pub replace_in : String → GenericWorkload → Dict WorkloadObject → Dict WorkloadObject
replace_in kind wl d = if wl.kind == kind then replace_object wl d else d

abbrev done : Cluster → Result (Unit {0}) × Cluster
done c = (ok tt, c)

abbrev pub memory : Kube
memory = record {
  World = Cluster;
  now = λ c. c.clock;
  range_order = λ c keys. keys;
  labels = plain_labels;
  match_taint = λ t u. t.key == u.key && t.effect == u.effect;
  is_not_found = is_not_found;
  ignore_not_found = ignore_not_found;
  marshal = marshal;
  unmarshal = unmarshal;
  Version = String;
  new_version = λ v. ok v;
  greater_than = λ a b. elim (compare b a) [ Ordering.lt ↦ true | _ ↦ false ];
  original = λ v. v;
  get_orchestrator = λ key c. ok c.orchestrator;
  list_nodes = λ c. ok c.nodes;
  get_node = λ name c. found (node_named name c.nodes);
  get_stateful_set = λ key c. found (Dict.lookup key.name c.stateful_sets);
  get_deployment = λ key c. found (Dict.lookup key.name c.deployments);
  list_pods = λ ns s c. ok c.pods;
  list_pdbs = λ ns c. ok c.pdbs;
  get_pdb = λ key c. found (pdb_named key.name c.pdbs);
  update = λ o c.
      let stored : Orchestrator = record o { status = c.orchestrator.status } in
      (ok stored, record c { orchestrator = stored });
  status_update = λ o c.
      let stored : Orchestrator = record c.orchestrator { status = o.status } in
      (ok stored, record c { orchestrator = stored });
  patch_node = λ old new c. done (record c { nodes = replace_node new c.nodes });
  patch_workload = λ old new c. done (record c {
    stateful_sets = replace_in "StatefulSet" new c.stateful_sets;
    deployments = replace_in "Deployment" new c.deployments;
  });
  patch_pdb = λ old new c. done (record c { pdbs = replace_pdb new c.pdbs });
  create_pdb = λ p c. done (record c { pdbs = p ∷ c.pdbs });
  delete_pdb = λ p c. done (record c { pdbs = without_pdb p c.pdbs });
}

pub state_answered : {o a : Orchestrator} → ok o ≡ ok a → a.status.state ≡ o.status.state
state_answered e = ap (λ (x : Orchestrator). x.status.state) (sym (ok-injective e))

abbrev pub memory-IsServer : (key : NamespacedName) → IsServer memory key
memory-IsServer key = record {
  stored_state = λ c. c.orchestrator.status.state;
  get_orchestrator-stored_state = λ c e. state_answered e;
  update-stored_state = λ o c. refl;
  update_answer = λ o c e. state_answered e;
  status_update-stored_state = λ o c. inl refl;
  status_update_accepted = λ o c e. (refl, state_answered e);
  patch_node-stored_state = λ n m c. refl;
  patch_workload-stored_state = λ n m c. refl;
  patch_pdb-stored_state = λ n m c. refl;
  create_pdb-stored_state = λ p c. refl;
  delete_pdb-stored_state = λ p c. refl;
}

pub memory-ReadsNotFound : ReadsNotFound memory
memory-ReadsNotFound text = refl

pub memory-MatchesTaints : MatchesTaints memory
memory-MatchesTaints t u = refl

unmarshal-marshal :
    (spec : PdbSpec) {text : String} → marshal spec ≡ ok text → unmarshal text ≡ ok spec
unmarshal-marshal spec h = ground arith

memory-KeepsBudgets : KeepsBudgets memory
memory-KeepsBudgets = record {
  unmarshal-marshal = unmarshal-marshal;
  list_pdbs-patch_pdb = λ old new ns c p q. ground arith;
}

pdb_named-name :
    (name : String) (pdbs : List Pdb) {p : Pdb} → found (pdb_named name pdbs) ≡ ok p → p.name ≡ name
pdb_named-name name [] h = absurd (ground arith)
pdb_named-name name (q ∷ pdbs) {p} h =
    by_name (q.name == name) refl (λ h'. pdb_named-name name pdbs h')
  where
    by_name :
        (b : Bool)
        → (q.name == name) ≡ b
        → (found (pdb_named name pdbs) ≡ ok p → p.name ≡ name)
        → p.name ≡ name
    by_name true e ih = ground (arith, eq_iff q.name name)
    by_name false e ih = ih (ground arith)

pub memory-ServesBudgets : ServesBudgets memory
memory-ServesBudgets = record {
  keeps = memory-KeepsBudgets;
  list_pdbs-patch_failed = λ old new ns c p q. absurd (ground arith);
  list_pdbs-delete_pdb = λ gone ns c q. inl (ground arith);
  get_pdb-name = λ k c h. pdb_named-name k.name c.pdbs h;
}
