-- ===== src/Upgrade/Pdb.antt =====
-- reconcilePDB and findUserManagedPDBForWorkload of upgrade-orchestrator/internal/controller/
-- upgradeorchestrator_controller.go.
use nacho_operators.Common.{String, ◌<>◌, Bool, false, Option, none, some, List, [], ◌∷◌}
use nacho_operators.Common.{
  Error, wrapped, Result, ok, err, check, Go, pure, attempt, if◌then◌else◌,
}
use nacho_operators.Common.Dict
use nacho_operators.Common.Dict.{Dict}
use nacho_operators.Common.Int.{pos}
use nacho_operators.Upgrade.Types.{
  Pdb, PdbSpec, int, GenericWorkload, original_pdb_spec_annotation, managed_by_annotation,
}
use nacho_operators.Upgrade.Kube.{Kube}

abbrev pub no_error : Option Error → Result (Unit {0})
no_error none = ok tt
no_error (some e) = err e

-- A user's budget whose spec is kept in the annotation and that allows no disruption.
unfoldable pub blocked_pdb : String → Pdb → Pdb
blocked_pdb saved pdb = record pdb {
  annotations = Dict.insert original_pdb_spec_annotation saved pdb.annotations;
  spec = record pdb.spec { max_unavailable = some (int (pos 0)); min_available = none };
}

unfoldable pub restored_pdb : PdbSpec → Pdb → Pdb
restored_pdb spec pdb = record pdb {
  annotations = Dict.remove original_pdb_spec_annotation pdb.annotations;
  spec = spec;
}

abbrev pub operator_pdb_name : GenericWorkload → String
operator_pdb_name wl = "upgrade-blocker-" <> wl.name

-- The budget that the operator makes for a workload that has none.
unfoldable pub blocker_pdb : GenericWorkload → Pdb
blocker_pdb wl = record {
  name = operator_pdb_name wl;
  namespace = wl.namespace;
  annotations = (managed_by_annotation, "upgrade-orchestrator") ∷ [];
  spec = record {
    min_available = none;
    selector = wl.selector;
    max_unavailable = some (int (pos 0));
    unhealthy_pod_eviction_policy = none;
  };
}

module _ (K : Kube) where
  open K use {
    World, label_selector_as_selector, matches, is_not_found, ignore_not_found, marshal, unmarshal,
    list_pdbs, get_pdb, patch_pdb, create_pdb, delete_pdb,
  }

  -- The body of the loop over the budgets: one that the operator manages is passed over, so is one
  -- with an invalid selector.
  unfoldable pub selects : Dict String → Pdb → Bool
  selects pod_labels pdb = elim (Dict.lookup managed_by_annotation pdb.annotations) [
    | some _ ↦ false
    | none ↦
        check (label_selector_as_selector pdb.spec.selector) (λ _. false)
          (λ s. matches s pod_labels)
  ]

  -- The loop over the budgets.
  unfoldable pub first_matching : Dict String → List Pdb → Option Pdb
  first_matching pod_labels [] = none
  first_matching pod_labels (pdb ∷ pdbs) =
      let rest = first_matching pod_labels pdbs in if selects pod_labels pdb then some pdb else rest

  abbrev pub match_labels_of : Dict String → List Pdb → Option Pdb
  match_labels_of [] pdbs = none
  match_labels_of (l ∷ ls) pdbs = first_matching (l ∷ ls) pdbs

  unfoldable pub find_user_managed_pdb : GenericWorkload → World → Result (Option Pdb)
  find_user_managed_pdb wl w =
      check (list_pdbs wl.namespace w) err (λ pdbs. ok (match_labels_of wl.template.labels pdbs))

  -- The operator's own budget; that there is none is no error.
  unfoldable pub find_operator_pdb : GenericWorkload → World → Result (Option Pdb)
  find_operator_pdb wl w =
      check (get_pdb (record { namespace = wl.namespace; name = operator_pdb_name wl }) w)
        (λ e.
          if is_not_found e
          then ok none
          else err (wrapped "failed to get operator-managed PDB %s: %w" e))
        (λ pdb. ok (some pdb))

  unfoldable pub restore_pdb : Pdb → String → Go World (Result (Unit {0}))
  restore_pdb pdb saved w =
      check (unmarshal saved)
        (λ e. (err (wrapped "failed to unmarshal original PDB spec for %s: %w" e), w))
        (λ spec. patch_pdb pdb (restored_pdb spec pdb) w)

  unfoldable pub remove_operator_pdb : Option Pdb → Go World (Result (Unit {0}))
  remove_operator_pdb none = pure (ok tt)
  remove_operator_pdb (some pdb) =
      attempt (delete_pdb pdb) (λ e. pure (no_error (ignore_not_found e))) (λ _. pure (ok tt))

  -- The branch `allowDisruption`.
  unfoldable pub allow_disruption : Option Pdb → Option Pdb → Go World (Result (Unit {0}))
  allow_disruption none operator = remove_operator_pdb operator
  allow_disruption (some user) operator =
      elim (Dict.lookup original_pdb_spec_annotation user.annotations) [
        | some saved ↦ restore_pdb user saved
        | none ↦ remove_operator_pdb operator
      ]

  unfoldable pub block_pdb : Pdb → Go World (Result (Unit {0}))
  block_pdb pdb w =
      check (marshal pdb.spec) (λ e. (err e, w)) (λ saved. patch_pdb pdb (blocked_pdb saved pdb) w)

  -- The branch `!allowDisruption`.
  unfoldable pub block_disruption :
      GenericWorkload → Option Pdb → Option Pdb → Go World (Result (Unit {0}))
  block_disruption wl (some user) operator =
      elim (Dict.lookup original_pdb_spec_annotation user.annotations) [
        | some _ ↦ pure (ok tt)
        | none ↦ block_pdb user
      ]
  block_disruption wl none (some _) = pure (ok tt)
  block_disruption wl none none = create_pdb (blocker_pdb wl)

  unfoldable pub reconcile_pdb : GenericWorkload → Bool → Go World (Result (Unit {0}))
  reconcile_pdb wl allow w =
      check (find_user_managed_pdb wl w)
        (λ e. (err (wrapped "failed to search for user-managed PDBs for workload %s: %w" e), w))
        λ user.
          check (find_operator_pdb wl w) (λ e. (err e, w))
            λ operator.
              (if allow then allow_disruption user operator else block_disruption wl user operator)
                w
