-- ===== src/Upgrade/Tests/Accepted.antt =====
-- The cluster in memory accepts the calls that let the pods of a workload go.
use nacho_operators.Common.{String, ◌≡◌, refl, true, Option, none, some, ok}
use nacho_operators.Common.Dict
use nacho_operators.Common.Dict.{Dict}
use nacho_operators.Upgrade.Types.{Pdb, GenericWorkload, original_pdb_spec_annotation}
use nacho_operators.Upgrade.Pdb.{
  operator_pdb_name, match_labels_of, reconcile_pdb, allow_disruption, remove_operator_pdb,
  restore_pdb, find_user_managed_pdb, find_operator_pdb,
}
use nacho_operators.Upgrade.Memory.{Cluster, memory, pdb_named}

remove_operator_pdb-accepted :
    (p : Option Pdb) (c : Cluster) → (remove_operator_pdb memory p c).0 ≡ ok tt
unfolding remove_operator_pdb
remove_operator_pdb-accepted none c = refl
remove_operator_pdb-accepted (some p) c = refl

allow_disruption-accepted :
    (user operator : Option Pdb) (c : Cluster) → (allow_disruption memory user operator c).0 ≡ ok tt
unfolding allow_disruption restore_pdb
allow_disruption-accepted none operator c = remove_operator_pdb-accepted operator c
allow_disruption-accepted (some user) operator c =
    by_saved (Dict.lookup original_pdb_spec_annotation user.annotations) refl
  where
    by_saved :
        (o : Option String)
        → Dict.lookup original_pdb_spec_annotation user.annotations ≡ o
        → (allow_disruption memory (some user) operator c).0 ≡ ok tt
    by_saved none p = rw (allow_disruption, p) (remove_operator_pdb-accepted operator c)
    by_saved (some saved) p = rw (allow_disruption, p) refl

find_operator_pdb-accepted :
    (wl : GenericWorkload) (c : Cluster) → (p : Option Pdb) × (find_operator_pdb memory wl c ≡ ok p)
unfolding find_operator_pdb
find_operator_pdb-accepted wl c = by_found (pdb_named (operator_pdb_name wl) c.pdbs) refl
  where
    by_found :
        (o : Option Pdb)
        → pdb_named (operator_pdb_name wl) c.pdbs ≡ o
        → (p : Option Pdb) × (find_operator_pdb memory wl c ≡ ok p)
    by_found none p = (none, rw p refl)
    by_found (some q) p = (some q, rw p refl)

pub reconcile_pdb-accepted :
    (wl : GenericWorkload) (c : Cluster) → (reconcile_pdb memory wl true c).0 ≡ ok tt
unfolding reconcile_pdb find_user_managed_pdb
reconcile_pdb-accepted wl c =
    let (p, e) = find_operator_pdb-accepted wl c in
    rw e (allow_disruption-accepted (match_labels_of memory wl.template.labels c.pdbs) p c)
