-- ===== src/Upgrade/Budgets.antt =====
-- Blocking a user's disruption budget and unblocking it again.
use nacho_operators.Common.{
  String, ◌≡◌, refl, sym, ap, ◌∙◌, true, false, eq_iff, Option, none, some, List, [], ◌∷◌, arith,
  Result, ok, err,
}
use nacho_operators.Common.Dict
use nacho_operators.Common.Dict.{Dict}
use nacho_operators.Upgrade.Types.{
  Pdb, PdbSpec, GenericWorkload, original_pdb_spec_annotation, managed_by_annotation,
}
use nacho_operators.Upgrade.Kube.{Kube}
use nacho_operators.Upgrade.Server.{KeepsBudgets, replace_pdb}
use nacho_operators.Upgrade.Pdb.{
  blocked_pdb, restored_pdb, selects, first_matching, find_user_managed_pdb, find_operator_pdb,
  match_labels_of, restore_pdb, allow_disruption, block_pdb, block_disruption, reconcile_pdb,
}

-- A blocked budget that is restored with its own spec is the budget before.
pub restored_pdb-blocked_pdb :
    (saved : String) (p : Pdb)
    → Dict.lookup original_pdb_spec_annotation p.annotations ≡ none
    → restored_pdb p.spec (blocked_pdb saved p) ≡ p
unfolding restored_pdb blocked_pdb
restored_pdb-blocked_pdb saved p h =
    ground (arith, Dict.remove-insert original_pdb_spec_annotation saved p.annotations h)

pub blocked_pdb-saved :
    (saved : String) (p : Pdb)
    → Dict.lookup original_pdb_spec_annotation (blocked_pdb saved p).annotations ≡ some saved
unfolding blocked_pdb
blocked_pdb-saved saved p = rw Dict.lookup-insert refl

-- Two versions of one budget.
abbrev pub IsVersion : Pdb → Pdb → Type 0
IsVersion old new = (old.name ≡ new.name) × (old.namespace ≡ new.namespace)

pub blocked_pdb-IsVersion :
    (saved : String) (p : Pdb)
    → IsVersion p (blocked_pdb saved p) × IsVersion (blocked_pdb saved p) p
unfolding blocked_pdb
blocked_pdb-IsVersion saved p = ((refl, refl), (refl, refl))

module _ (K : Kube) where
  -- The search reads the annotation of the operator and the selector only.
  pub selects-blocked_pdb :
      (ls : Dict String) (saved : String) (p : Pdb)
      → selects K ls (blocked_pdb saved p) ≡ selects K ls p
  unfolding selects blocked_pdb
  selects-blocked_pdb ls saved p =
      rw
        (
          selects,
          Dict.lookup-insert original_pdb_spec_annotation managed_by_annotation saved p.annotations,
        )
        refl

  first_matching-selects :
      (ls : Dict String) (pdbs : List Pdb) (p : Pdb)
      → first_matching K ls pdbs ≡ some p
      → selects K ls p ≡ true
  unfolding first_matching
  first_matching-selects ls [] p h = cc
  first_matching-selects ls (q ∷ pdbs) p h = ground (arith, first_matching-selects ls pdbs p)

  -- A patch of the budget that is found, which keeps its name and that it is found, is found next.
  first_matching-replace_pdb :
      (ls : Dict String) (pdbs : List Pdb) (old new : Pdb)
      → IsVersion old new
      → selects K ls new ≡ true
      → first_matching K ls pdbs ≡ some old
      → first_matching K ls (replace_pdb new pdbs) ≡ some new
  unfolding first_matching
  first_matching-replace_pdb ls [] old new e s h = cc
  first_matching-replace_pdb ls (p ∷ pdbs) old new (e, e') s h = ground (
    arith,
    eq_iff p.name new.name,
    eq_iff p.namespace new.namespace,
    first_matching-replace_pdb ls pdbs old new (e, e') s,
  )

  pub match_labels_of-replace_pdb :
      (ls : Dict String) (pdbs : List Pdb) (old new : Pdb)
      → IsVersion old new
      → selects K ls new ≡ selects K ls old
      → match_labels_of K ls pdbs ≡ some old
      → match_labels_of K ls (replace_pdb new pdbs) ≡ some new
  match_labels_of-replace_pdb [] pdbs old new e s m = cc
  match_labels_of-replace_pdb (l ∷ ls) pdbs old new e s m =
      first_matching-replace_pdb (l ∷ ls) pdbs old new e
        (s ∙ first_matching-selects (l ∷ ls) pdbs old m) m

  -- A budget is found in the list of its namespace.
  pub find→list :
      (wl : GenericWorkload) (w : K.World) {p : Pdb}
      → find_user_managed_pdb K wl w ≡ ok (some p)
      → (pdbs : List Pdb) × (K.list_pdbs wl.namespace w ≡ ok pdbs)
        × (match_labels_of K wl.template.labels pdbs ≡ some p)
  unfolding find_user_managed_pdb
  find→list wl w {p} h = by_list (K.list_pdbs wl.namespace w) refl
    where
      by_list :
          (r : Result (List Pdb))
          → K.list_pdbs wl.namespace w ≡ r
          → (pdbs : List Pdb) × (K.list_pdbs wl.namespace w ≡ ok pdbs)
            × (match_labels_of K wl.template.labels pdbs ≡ some p)
      by_list (err x) q = absurd (ground arith)
      by_list (ok pdbs) q = (pdbs, q, ground arith)

  pub list→find :
      (wl : GenericWorkload) (w : K.World) {p : Pdb} {pdbs : List Pdb}
      → K.list_pdbs wl.namespace w ≡ ok pdbs
      → match_labels_of K wl.template.labels pdbs ≡ some p
      → find_user_managed_pdb K wl w ≡ ok (some p)
  unfolding find_user_managed_pdb
  list→find wl w q m = rw q (ap ok m)

  module _ (B : KeepsBudgets K) (wl : GenericWorkload) where
    -- An accepted patch of the budget that is found.
    find-patch_pdb :
        (old new : Pdb) (w : K.World)
        → IsVersion old new
        → selects K wl.template.labels new ≡ selects K wl.template.labels old
        → find_user_managed_pdb K wl w ≡ ok (some old)
        → (K.patch_pdb old new w).0 ≡ ok tt
        → find_user_managed_pdb K wl (K.patch_pdb old new w).1 ≡ ok (some new)
    find-patch_pdb old new w e s h p =
        let (pdbs, q, m) = find→list wl w h in
        list→find wl _ (B.list_pdbs-patch_pdb old new wl.namespace w p q)
          (match_labels_of-replace_pdb wl.template.labels pdbs old new e s m)

    -- A blocking call that succeeds on a fresh budget is a patch of it.
    reconcile_pdb-block :
        (w : K.World) {user : Pdb}
        → find_user_managed_pdb K wl w ≡ ok (some user)
        → Dict.lookup original_pdb_spec_annotation user.annotations ≡ none
        → (reconcile_pdb K wl false w).0 ≡ ok tt
        → (saved : String) × (K.marshal user.spec ≡ ok saved)
          × (reconcile_pdb K wl false w ≡ K.patch_pdb user (blocked_pdb saved user) w)
    unfolding reconcile_pdb block_disruption block_pdb
    reconcile_pdb-block w {user} h fresh p =
        by_calls (find_operator_pdb K wl w) (K.marshal user.spec) refl refl
      where
        by_calls :
            (r : Result (Option Pdb)) (m : Result String)
            → find_operator_pdb K wl w ≡ r
            → K.marshal user.spec ≡ m
            → (saved : String) × (K.marshal user.spec ≡ ok saved)
              × (reconcile_pdb K wl false w ≡ K.patch_pdb user (blocked_pdb saved user) w)
        by_calls (err e) m q t = absurd (ground arith)
        by_calls (ok operator) (err e) q t = absurd (ground arith)
        by_calls (ok operator) (ok saved) q t = (saved, t, ground arith)

    -- An allowing call that succeeds on a blocked budget is a patch of it.
    reconcile_pdb-allow :
        (w : K.World) {user : Pdb} {saved : String} {spec : PdbSpec}
        → find_user_managed_pdb K wl w ≡ ok (some user)
        → Dict.lookup original_pdb_spec_annotation user.annotations ≡ some saved
        → K.unmarshal saved ≡ ok spec
        → (reconcile_pdb K wl true w).0 ≡ ok tt
        → reconcile_pdb K wl true w ≡ K.patch_pdb user (restored_pdb spec user) w
    unfolding reconcile_pdb allow_disruption restore_pdb
    reconcile_pdb-allow w {user} {spec} h kept u p = by_call (find_operator_pdb K wl w) refl
      where
        by_call :
            (r : Result (Option Pdb))
            → find_operator_pdb K wl w ≡ r
            → reconcile_pdb K wl true w ≡ K.patch_pdb user (restored_pdb spec user) w
        by_call (err e) q = absurd (ground arith)
        by_call (ok operator) q = ground arith

    -- The allowing call after the patch that blocks.
    pub restored :
        (user : Pdb) (saved : String) (w : K.World)
        → find_user_managed_pdb K wl w ≡ ok (some (blocked_pdb saved user))
        → Dict.lookup original_pdb_spec_annotation user.annotations ≡ none
        → K.marshal user.spec ≡ ok saved
        → (reconcile_pdb K wl true w).0 ≡ ok tt
        → find_user_managed_pdb K wl (reconcile_pdb K wl true w).1 ≡ ok (some user)
    restored user saved w h fresh m q =
        let new : Pdb = blocked_pdb saved user in
        let patched : reconcile_pdb K wl true w ≡ K.patch_pdb new (restored_pdb user.spec new) w =
          reconcile_pdb-allow w h (blocked_pdb-saved saved user) (B.unmarshal-marshal user.spec m)
            q in
        let back : restored_pdb user.spec new ≡ user = restored_pdb-blocked_pdb saved user fresh in
        rw patched (
          rw back (
            find-patch_pdb new user w (blocked_pdb-IsVersion saved user).1
              (sym (selects-blocked_pdb wl.template.labels saved user)) h
              (ap (λ (r : Result (Unit {0}) × K.World). r.0)
                  (ap (λ x. K.patch_pdb new x w) (sym back) ∙ sym patched)
                ∙ q)))

    -- If a user's budget is found that is not blocked yet, and a call that blocks and a call that
    -- allows disruption both succeed, then the budget that is found after them is the one before
    -- them, spec and annotations included.
    reconcile_pdb-roundtrip :
        (w : K.World) {user : Pdb}
        → find_user_managed_pdb K wl w ≡ ok (some user)
        → Dict.lookup original_pdb_spec_annotation user.annotations ≡ none
        → (reconcile_pdb K wl false w).0 ≡ ok tt
        → (reconcile_pdb K wl true (reconcile_pdb K wl false w).1).0 ≡ ok tt
        → find_user_managed_pdb K wl (reconcile_pdb K wl true (reconcile_pdb K wl false w).1).1
          ≡ ok (some user)
    reconcile_pdb-roundtrip w {user} h fresh p q =
        let (saved, marshalled, blocked) = reconcile_pdb-block w h fresh p in
        rw blocked (
          restored user saved (K.patch_pdb user (blocked_pdb saved user) w).1
            (find-patch_pdb user (blocked_pdb saved user) w (blocked_pdb-IsVersion saved user).0
              (selects-blocked_pdb wl.template.labels saved user) h
              (ap (λ (r : Result (Unit {0}) × K.World). r.0) (sym blocked) ∙ p))
            fresh marshalled (rw (← blocked) q))
