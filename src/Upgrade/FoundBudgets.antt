-- ===== src/Upgrade/FoundBudgets.antt =====
-- How patches and deletions change which budget is found for a workload.
use nacho_operators.Common.{
  String, ◌≡◌, refl, ◌≢◌, ◌⊎◌, inl, inr, eq_iff, some, List, [], ◌∷◌, arith, Result, ok, err,
}
use nacho_operators.Common.Dict.{Dict}
use nacho_operators.Upgrade.Types.{Pdb, GenericWorkload}
use nacho_operators.Upgrade.Kube.{Kube}
use nacho_operators.Upgrade.Server.{ServesBudgets, without_pdb, replace_pdb}
use nacho_operators.Upgrade.Pdb.{
  first_matching, selects, find_user_managed_pdb, find_operator_pdb, match_labels_of,
  operator_pdb_name,
}
use nacho_operators.Upgrade.Budgets.{IsVersion, match_labels_of-replace_pdb, find→list, list→find}

module _ (K : Kube) where
  first_matching-without_pdb :
      (ls : Dict String) (pdbs : List Pdb) (gone p : Pdb)
      → p.name ≢ gone.name
      → first_matching K ls pdbs ≡ some p
      → first_matching K ls (without_pdb gone pdbs) ≡ some p
  unfolding first_matching
  first_matching-without_pdb ls [] gone p n h = cc
  first_matching-without_pdb ls (q ∷ pdbs) gone p n h =
      ground (arith, eq_iff q.name gone.name, first_matching-without_pdb ls pdbs gone p n)

  match_labels_of-without_pdb :
      (ls : Dict String) (pdbs : List Pdb) (gone p : Pdb)
      → p.name ≢ gone.name
      → match_labels_of K ls pdbs ≡ some p
      → match_labels_of K ls (without_pdb gone pdbs) ≡ some p
  match_labels_of-without_pdb [] pdbs gone p n m = cc
  match_labels_of-without_pdb (l ∷ ls) pdbs gone p n m =
      first_matching-without_pdb (l ∷ ls) pdbs gone p n m

  module _ (B : ServesBudgets K) (wl : GenericWorkload) where
    -- A patch of the budget that is found, accepted or not.
    pub find-tried_pdb :
        (old new : Pdb) (w : K.World)
        → IsVersion old new
        → selects K wl.template.labels new ≡ selects K wl.template.labels old
        → find_user_managed_pdb K wl w ≡ ok (some old)
        → (find_user_managed_pdb K wl (K.patch_pdb old new w).1 ≡ ok (some new))
          ⊎ (find_user_managed_pdb K wl (K.patch_pdb old new w).1 ≡ ok (some old))
    find-tried_pdb old new w e s h =
        let (pdbs, q, m) = find→list K wl w h in
        let m' = match_labels_of-replace_pdb K wl.template.labels pdbs old new e s m in
        by_result pdbs q m m' (K.patch_pdb old new w).0 refl
      where
        by_result :
            (pdbs : List Pdb)
            → K.list_pdbs wl.namespace w ≡ ok pdbs
            → match_labels_of K wl.template.labels pdbs ≡ some old
            → match_labels_of K wl.template.labels (replace_pdb new pdbs) ≡ some new
            → (r : Result (Unit {0})) → (K.patch_pdb old new w).0 ≡ r
            → (find_user_managed_pdb K wl (K.patch_pdb old new w).1 ≡ ok (some new))
              ⊎ (find_user_managed_pdb K wl (K.patch_pdb old new w).1 ≡ ok (some old))
        by_result pdbs q m m' (ok u) p =
            inl (list→find K wl _ (B.keeps.list_pdbs-patch_pdb old new wl.namespace w p q) m')
        by_result pdbs q m m' (err x) p =
            elim (B.list_pdbs-patch_failed old new wl.namespace w p q) [
              | inl l ↦ inl (list→find K wl _ l m')
              | inr l ↦ inr (list→find K wl _ l m)
            ]

    -- A deletion of another budget.
    pub find-delete_pdb :
        (gone p : Pdb) (w : K.World)
        → p.name ≢ gone.name
        → find_user_managed_pdb K wl w ≡ ok (some p)
        → find_user_managed_pdb K wl (K.delete_pdb gone w).1 ≡ ok (some p)
    find-delete_pdb gone p w n h =
        let (pdbs, q, m) = find→list K wl w h in
        elim (B.list_pdbs-delete_pdb gone wl.namespace w q) [
          | inl l ↦
              list→find K wl _ l (match_labels_of-without_pdb wl.template.labels pdbs gone p n m)
          | inr l ↦ list→find K wl _ l m
        ]

    pub find_operator_pdb-name :
        (w : K.World) {p : Pdb}
        → find_operator_pdb K wl w ≡ ok (some p)
        → p.name ≡ operator_pdb_name wl
    unfolding find_operator_pdb
    find_operator_pdb-name w {p} h =
        by_read (K.get_pdb (record { namespace = wl.namespace; name = operator_pdb_name wl }) w)
          refl
      where
        by_read :
            (r : Result Pdb)
            → K.get_pdb (record { namespace = wl.namespace; name = operator_pdb_name wl }) w ≡ r
            → p.name ≡ operator_pdb_name wl
        by_read (err e) q = absurd (ground arith)
        by_read (ok found) q = ground (arith, B.get_pdb-name _ w q)
