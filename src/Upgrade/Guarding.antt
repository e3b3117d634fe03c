-- ===== src/Upgrade/Guarding.antt =====
-- A user's disruption budget through any sequence of calls that block and allow disruption.
use nacho_operators.Common.{
  subst, String, ◌≡◌, refl, sym, ◌∙◌, ◌≢◌, inl, inr, Bool, true, false, Option, none, some, List,
  [], ◌∷◌, arith, Result, ok, err,
}
use nacho_operators.Common.Dict
use nacho_operators.Common.Dict.{Dict}
use nacho_operators.Upgrade.Types.{Pdb, GenericWorkload, original_pdb_spec_annotation}
use nacho_operators.Upgrade.Kube.{Kube}
use nacho_operators.Upgrade.Server.{ServesBudgets}
use nacho_operators.Upgrade.Pdb.{
  blocked_pdb, find_user_managed_pdb, find_operator_pdb, operator_pdb_name, restore_pdb,
  allow_disruption, block_pdb, block_disruption, remove_operator_pdb, reconcile_pdb,
}
use nacho_operators.Upgrade.Budgets.{
  blocked_pdb-IsVersion, blocked_pdb-saved, restored_pdb-blocked_pdb, selects-blocked_pdb, restored,
}
use nacho_operators.Upgrade.FoundBudgets.{find-tried_pdb, find-delete_pdb, find_operator_pdb-name}

module _ (K : Kube) where
  -- Calls for one workload, whatever they return.
  abbrev pub reconcile_pdbs : GenericWorkload → List Bool → K.World → K.World
  reconcile_pdbs wl [] w = w
  reconcile_pdbs wl (allow ∷ allows) w = reconcile_pdbs wl allows (reconcile_pdb K wl allow w).1

  -- The budget is found as the user has it, or blocked with the user's spec kept in it.
  pub data IsGuarded (wl : GenericWorkload) (user : Pdb) (w : K.World) : Type 0 where
    untouched : find_user_managed_pdb K wl w ≡ ok (some user) → IsGuarded wl user w
    blocked :
        (saved : String)
        → K.marshal user.spec ≡ ok saved
        → find_user_managed_pdb K wl w ≡ ok (some (blocked_pdb saved user))
        → IsGuarded wl user w

  module _ (B : ServesBudgets K) (wl : GenericWorkload) where
    module _ (user : Pdb) (fresh : Dict.lookup original_pdb_spec_annotation user.annotations ≡ none)
        (own : user.name ≢ operator_pdb_name wl) where
      block_pdb-IsGuarded :
          (w : K.World)
          → find_user_managed_pdb K wl w ≡ ok (some user)
          → IsGuarded wl user (block_pdb K user w).1
      unfolding block_pdb
      block_pdb-IsGuarded w h = by_text (K.marshal user.spec) refl
        where
          by_text :
              (r : Result String)
              → K.marshal user.spec ≡ r
              → IsGuarded wl user (block_pdb K user w).1
          by_text (err e) q = untouched (rw q h)
          by_text (ok saved) q =
              rw q
                (elim (find-tried_pdb K B wl user (blocked_pdb saved user) w
                  (blocked_pdb-IsVersion saved user).0
                  (selects-blocked_pdb K wl.template.labels saved user) h) [
                    | inl l ↦ blocked saved q l
                    | inr l ↦ untouched l
                  ])

      remove_operator_pdb-found :
          (w : K.World) (operator : Option Pdb)
          → find_operator_pdb K wl w ≡ ok operator
          → find_user_managed_pdb K wl w ≡ ok (some user)
          → find_user_managed_pdb K wl (remove_operator_pdb K operator w).1 ≡ ok (some user)
      unfolding remove_operator_pdb
      remove_operator_pdb-found w none o h = h
      remove_operator_pdb-found w (some p) o h = ground (
        arith,
        find-delete_pdb K B wl p user w (λ e. own (e ∙ find_operator_pdb-name K B wl w o)) h,
      )

      -- The patch that restores.
      patch_restored-IsGuarded :
          (saved : String) (w : K.World)
          → K.marshal user.spec ≡ ok saved
          → find_user_managed_pdb K wl w ≡ ok (some (blocked_pdb saved user))
          → IsGuarded wl user (K.patch_pdb (blocked_pdb saved user) user w).1
      patch_restored-IsGuarded saved w m h =
          elim (find-tried_pdb K B wl (blocked_pdb saved user) user w
            (blocked_pdb-IsVersion saved user).1
            (sym (selects-blocked_pdb K wl.template.labels saved user)) h) [
              | inl l ↦ untouched l
              | inr l ↦ blocked saved m l
            ]

      restore_pdb-IsGuarded :
          (saved : String) (w : K.World)
          → K.marshal user.spec ≡ ok saved
          → find_user_managed_pdb K wl w ≡ ok (some (blocked_pdb saved user))
          → IsGuarded wl user (restore_pdb K (blocked_pdb saved user) saved w).1
      unfolding restore_pdb
      restore_pdb-IsGuarded saved w m h = rw (B.keeps.unmarshal-marshal user.spec m) (
          subst (λ p. IsGuarded wl user (K.patch_pdb (blocked_pdb saved user) p w).1)
            (sym (restored_pdb-blocked_pdb saved user fresh))
            (patch_restored-IsGuarded saved w m h))

      block_disruption-fresh :
          (operator : Option Pdb) (w : K.World)
          → block_disruption K wl (some user) operator w ≡ block_pdb K user w
      unfolding block_disruption
      block_disruption-fresh operator w = rw (block_disruption, fresh) refl

      block_disruption-blocked :
          (saved : String) (operator : Option Pdb) (w : K.World)
          → block_disruption K wl (some (blocked_pdb saved user)) operator w ≡ (ok tt, w)
      unfolding block_disruption
      block_disruption-blocked saved operator w =
          rw (block_disruption, blocked_pdb-saved saved user) refl

      allow_disruption-fresh :
          (operator : Option Pdb) (w : K.World)
          → allow_disruption K (some user) operator w ≡ remove_operator_pdb K operator w
      unfolding allow_disruption
      allow_disruption-fresh operator w = rw (allow_disruption, fresh) refl

      allow_disruption-blocked :
          (saved : String) (operator : Option Pdb) (w : K.World)
          → allow_disruption K (some (blocked_pdb saved user)) operator w
            ≡ restore_pdb K (blocked_pdb saved user) saved w
      unfolding allow_disruption
      allow_disruption-blocked saved operator w =
          rw (allow_disruption, blocked_pdb-saved saved user) refl

      reconcile_pdb-IsGuarded :
          (allow : Bool) (w : K.World)
          → IsGuarded wl user w
          → IsGuarded wl user (reconcile_pdb K wl allow w).1
      unfolding reconcile_pdb
      reconcile_pdb-IsGuarded allow w g = by_case allow (find_operator_pdb K wl w) refl g
        where
          by_case :
              (b : Bool) (r : Result (Option Pdb))
              → find_operator_pdb K wl w ≡ r
              → IsGuarded wl user w
              → IsGuarded wl user (reconcile_pdb K wl b w).1
          by_case b (err e) q (untouched h) = rw (h, q) (untouched h)
          by_case b (err e) q (blocked saved m h) = rw (h, q) (blocked saved m h)
          by_case false (ok operator) q (untouched h) =
              rw (h, q, block_disruption-fresh operator w) (block_pdb-IsGuarded w h)
          by_case true (ok operator) q (untouched h) =
              rw (h, q, allow_disruption-fresh operator w)
                (untouched (remove_operator_pdb-found w operator q h))
          by_case false (ok operator) q (blocked saved m h) =
              rw (h, q, block_disruption-blocked saved operator w) (blocked saved m h)
          by_case true (ok operator) q (blocked saved m h) =
              rw (h, q, allow_disruption-blocked saved operator w)
                (restore_pdb-IsGuarded saved w m h)

      -- An allowing call that succeeds leaves the budget as the user has it.
      reconcile_pdb-allowed :
          (w : K.World)
          → IsGuarded wl user w
          → (reconcile_pdb K wl true w).0 ≡ ok tt
          → find_user_managed_pdb K wl (reconcile_pdb K wl true w).1 ≡ ok (some user)
      unfolding reconcile_pdb
      reconcile_pdb-allowed w (untouched h) p = by_operator (find_operator_pdb K wl w) refl
        where
          by_operator :
              (r : Result (Option Pdb))
              → find_operator_pdb K wl w ≡ r
              → find_user_managed_pdb K wl (reconcile_pdb K wl true w).1 ≡ ok (some user)
          by_operator (err e) q = rw (h, q) h
          by_operator (ok operator) q =
              rw (h, q, allow_disruption-fresh operator w)
                (remove_operator_pdb-found w operator q h)
      reconcile_pdb-allowed w (blocked saved m h) p = restored K B.keeps wl user saved w h fresh m p

      reconcile_pdbs-keeps :
          (allows : List Bool) (w : K.World)
          → IsGuarded wl user w
          → IsGuarded wl user (reconcile_pdbs wl allows w)
      reconcile_pdbs-keeps [] w g = g
      reconcile_pdbs-keeps (allow ∷ allows) w g =
          reconcile_pdbs-keeps allows _ (reconcile_pdb-IsGuarded allow w g)

      -- However often a workload is blocked and allowed, with calls that fail at any point among them,
      -- the user's budget that was found is still found, as it was or blocked with its own spec kept in
      -- the annotation. It is not blocked at first and does not have the name of the operator's budget;
      -- for a server and a JSON encoding as in ServesBudgets.
      pub reconcile_pdbs-IsGuarded :
          (allows : List Bool) (w : K.World)
          → find_user_managed_pdb K wl w ≡ ok (some user)
          → IsGuarded wl user (reconcile_pdbs wl allows w)
      reconcile_pdbs-IsGuarded allows w h = reconcile_pdbs-keeps allows w (untouched h)

      -- After any calls that block and allow, with calls that fail at any point among them, a call that
      -- allows and succeeds gives the user's budget back as it was found before them, spec and
      -- annotations included. It is not blocked at first and does not have the name of the operator's
      -- budget; for a server and a JSON encoding as in ServesBudgets.
      pub reconcile_pdbs-roundtrip :
          (allows : List Bool) (w : K.World)
          → find_user_managed_pdb K wl w ≡ ok (some user)
          → (reconcile_pdb K wl true (reconcile_pdbs wl allows w)).0 ≡ ok tt
          → find_user_managed_pdb K wl (reconcile_pdb K wl true (reconcile_pdbs wl allows w)).1
            ≡ ok (some user)
      reconcile_pdbs-roundtrip allows w h p =
          reconcile_pdb-allowed _ (reconcile_pdbs-IsGuarded allows w h) p
