-- ===== src/Upgrade/StateMachine.antt =====
-- The state that the server holds, through whole reconciliations.
use nacho_operators.Common.{
  ℕ, zero, suc, String, ◌≡◌, refl, sym, ◌∙◌, ◌≢◌, ◌↔◌, ◌⊎◌, inl, inr, Option, none, some, List, [],
  ◌∷◌, arith, ok, err, Result, eq_iff, NamespacedName, ◌==◌, false, Bool-cases,
}
use nacho_operators.Upgrade.Types.{
  Orchestrator, state_no_upgrade, state_awaiting_upgrade_confirmation, state_upgrade_in_progress,
}
use nacho_operators.Upgrade.Kube.{Kube}
use nacho_operators.Upgrade.Server.{IsServer}
use nacho_operators.Upgrade.Migration.{set_initial_pdb_state}
use nacho_operators.Upgrade.Quiet.{
  Keeps, prepare_nodes-Keeps, set_initial_loop-Keeps, migrate_loop-Keeps,
  cleanup_global_upgrade_artifacts-Keeps,
}
use nacho_operators.Upgrade.Reconcile.{
  enter, watch_for_cordon, finish_upgrade, settle, handle_no_upgrade_state, save, confirm_upgrade,
  await_since, handle_awaiting_confirmation_state, advance_upgrade,
  handle_upgrade_in_progress_state, dispatch, initialise, reconcile, reconciles,
}

-- The stored state before and after one reconciliation.
pub data Step (s t : String) : Type 0 where
  stays : t ≡ s → Step s t
  starts : s ≡ "" → t ≡ state_no_upgrade → Step s t
  starts_awaiting : s ≡ "" → t ≡ state_awaiting_upgrade_confirmation → Step s t
  detects : s ≡ state_no_upgrade → t ≡ state_awaiting_upgrade_confirmation → Step s t
  times_out : s ≡ state_awaiting_upgrade_confirmation → t ≡ state_no_upgrade → Step s t

-- A state that is another text than "UpgradeInProgress".
differs :
    {s u : String}
    → s ≡ u
    → (u == state_upgrade_in_progress) ≡ false
    → s ≢ state_upgrade_in_progress
differs {s} {u} p d e = cc ((eq_iff u state_upgrade_in_progress).1 (sym p ∙ e))

outside :
    {s t : String}
    → s ≢ state_upgrade_in_progress
    → t ≢ state_upgrade_in_progress
    → (s ≡ state_upgrade_in_progress) ↔ (t ≡ state_upgrade_in_progress)
outside ns nt = (λ p. absurd (ns p), λ p. absurd (nt p))

Step-in_progress :
    {s t : String} → Step s t → (s ≡ state_upgrade_in_progress) ↔ (t ≡ state_upgrade_in_progress)
Step-in_progress (stays r) = (λ p. r ∙ p, λ p. sym r ∙ p)
Step-in_progress (starts p r) = outside (differs p refl) (differs r refl)
Step-in_progress (starts_awaiting p r) = outside (differs p refl) (differs r refl)
Step-in_progress (detects p r) = outside (differs p refl) (differs r refl)
Step-in_progress (times_out p r) = outside (differs p refl) (differs r refl)

module _ (K : Kube) (key : NamespacedName) (S : IsServer K key) where
  open K use {World}
  open S use {stored_state}

  watch_for_cordon-stored_state :
      (o : Orchestrator) (w : World)
      → (stored_state (watch_for_cordon K o w).1 ≡ state_awaiting_upgrade_confirmation)
        ⊎ (stored_state (watch_for_cordon K o w).1 ≡ stored_state w)
  unfolding watch_for_cordon enter
  watch_for_cordon-stored_state o w = grind (arith, S.status_update-stored_state)

  finish_upgrade-Keeps : (o : Orchestrator) → Keeps K key S (finish_upgrade K o)
  unfolding finish_upgrade
  finish_upgrade-Keeps o w =
      grind (arith, cleanup_global_upgrade_artifacts-Keeps K key S, S.update-stored_state)

  settle-stored_state :
      (o : Orchestrator) (versions : List String) (w : World)
      → (stored_state (settle K o versions w).1 ≡ state_awaiting_upgrade_confirmation)
        ⊎ (stored_state (settle K o versions w).1 ≡ stored_state w)
  unfolding settle
  settle-stored_state o [] w = inr refl
  settle-stored_state o (v ∷ []) w =
      grind (arith, watch_for_cordon-stored_state, finish_upgrade-Keeps)
  settle-stored_state o (v ∷ u ∷ vs) w = inr refl

  handle_no_upgrade_state-stored_state :
      (o : Orchestrator) (w : World)
      → (stored_state (handle_no_upgrade_state K o w).1 ≡ state_awaiting_upgrade_confirmation)
        ⊎ (stored_state (handle_no_upgrade_state K o w).1 ≡ stored_state w)
  unfolding handle_no_upgrade_state
  handle_no_upgrade_state-stored_state o w =
      grind (arith, watch_for_cordon-stored_state, settle-stored_state)

  -- The plain update answers with the stored status, and that is what is written next.
  save-Keeps : (o : Orchestrator) → Keeps K key S (save K o)
  unfolding save
  save-Keeps o w = by_answer (K.update o w).0 refl
    where
      by_answer :
          (r : Result Orchestrator)
          → (K.update o w).0 ≡ r
          → stored_state (save K o w).1 ≡ stored_state w
      by_answer (err e) p = ground (arith, S.update-stored_state o w)
      by_answer (ok a) p = ground (
        arith,
        S.update-stored_state o w,
        S.update_answer o w p,
        S.status_update-stored_state a (K.update o w).1,
      )

  confirm_upgrade-Keeps : (o : Orchestrator) → Keeps K key S (confirm_upgrade K o)
  unfolding confirm_upgrade set_initial_pdb_state
  confirm_upgrade-Keeps o w = grind (arith, set_initial_loop-Keeps K key S, save-Keeps)

  await_since-stored_state :
      (o : Orchestrator) (since : Option ℕ) (w : World)
      → (stored_state (await_since K o since w).1 ≡ state_no_upgrade)
        ⊎ (stored_state (await_since K o since w).1 ≡ stored_state w)
  unfolding await_since enter
  await_since-stored_state o none w = inr refl
  await_since-stored_state o (some t) w =
      grind (arith, confirm_upgrade-Keeps, S.status_update-stored_state)

  advance_upgrade-Keeps :
      (o : Orchestrator) (target : String) → Keeps K key S (advance_upgrade K o target)
  unfolding advance_upgrade
  advance_upgrade-Keeps o target w =
      grind (arith, prepare_nodes-Keeps K key S, migrate_loop-Keeps K key S)

  handle_upgrade_in_progress_state-stored_state :
      (o : Orchestrator) (w : World)
      → o.status.state ≡ stored_state w
      → stored_state (handle_upgrade_in_progress_state K o w).1 ≡ stored_state w
  unfolding handle_upgrade_in_progress_state
  handle_upgrade_in_progress_state-stored_state o w h =
      grind (arith, advance_upgrade-Keeps, S.status_update-stored_state)

  awaiting-Step :
      {s t : String}
      → s ≡ state_awaiting_upgrade_confirmation
      → (t ≡ state_no_upgrade) ⊎ (t ≡ s)
      → Step s t
  awaiting-Step p (inl r) = times_out p r
  awaiting-Step p (inr r) = stays r

  no_upgrade-Step :
      {s t : String}
      → s ≡ state_no_upgrade
      → (t ≡ state_awaiting_upgrade_confirmation) ⊎ (t ≡ s)
      → Step s t
  no_upgrade-Step p (inl r) = detects p r
  no_upgrade-Step p (inr r) = stays r

  dispatch-Step :
      (o : Orchestrator) (w : World)
      → o.status.state ≡ stored_state w
      → Step (stored_state w) (stored_state (dispatch K o w).1)
  unfolding dispatch handle_awaiting_confirmation_state
  dispatch-Step o w h = elim (Bool-cases (o.status.state == state_no_upgrade)) [
    | inl a ↦
        rw a (no_upgrade-Step (sym h ∙ (eq_iff _ _).0 a) (handle_no_upgrade_state-stored_state o w))
    | inr a ↦ rw a (elim (Bool-cases (o.status.state == state_awaiting_upgrade_confirmation)) [
      | inl b ↦ rw b (
          awaiting-Step (sym h ∙ (eq_iff _ _).0 b)
            (await_since-stored_state o o.status.last_transition_time w))
      | inr b ↦ rw b (stays (ground (arith, handle_upgrade_in_progress_state-stored_state o w h)))
    ])
  ]

  failed_start : {s t : String} → s ≡ "" → (t ≡ state_no_upgrade) ⊎ (t ≡ s) → Step s t
  failed_start e (inl r) = starts e r
  failed_start e (inr r) = stays r

  -- A state that was empty has been initialised before the dispatch.
  initial-Step : {s t u : String} → s ≡ "" → t ≡ state_no_upgrade → Step t u → Step s u
  initial-Step e i (stays r) = starts e (r ∙ i)
  initial-Step e i (starts p r) = starts e r
  initial-Step e i (starts_awaiting p r) = starts_awaiting e r
  initial-Step e i (detects p r) = starts_awaiting e r
  initial-Step e i (times_out p r) = starts e r

  initialise-Step :
      (o : Orchestrator) (w : World)
      → o.status.state ≡ ""
      → o.status.state ≡ stored_state w
      → Step (stored_state w) (stored_state (initialise K o w).1)
  unfolding initialise enter
  initialise-Step o w e h = by_answer (K.status_update started w).0 refl
    where
      started : Orchestrator
      started = enter state_no_upgrade (K.now w) o

      by_answer :
          (r : Result Orchestrator)
          → (K.status_update started w).0 ≡ r
          → Step (stored_state w) (stored_state (initialise K o w).1)
      by_answer (err x) p = rw p (failed_start (sym h ∙ e) (S.status_update-stored_state started w))
      by_answer (ok a) p =
          let (held, answered) = S.status_update_accepted started w p in
          rw p (initial-Step (sym h ∙ e) held (dispatch-Step a _ (answered ∙ sym held)))

  -- One reconciliation moves the stored state along Step: it stays, is initialised, goes from
  -- "NoUpgrade" to "AwaitingUpgradeConfirmation" or back; for a server as in IsServer.
  pub reconcile-Step : (w : World) → Step (stored_state w) (stored_state (reconcile K key w).1)
  unfolding reconcile
  reconcile-Step w = by_read (K.get_orchestrator key w) refl
    where
      by_read :
          (r : Result Orchestrator)
          → K.get_orchestrator key w ≡ r
          → Step (stored_state w) (stored_state (reconcile K key w).1)
      by_read (err e) p = rw p (stays refl)
      by_read (ok o) p = rw p (elim (Bool-cases (o.status.state == "")) [
        | inl e ↦
            rw e (initialise-Step o w ((eq_iff _ _).0 e) (S.get_orchestrator-stored_state w p))
        | inr e ↦ rw e (dispatch-Step o w (S.get_orchestrator-stored_state w p))
      ])

  -- However many reconciliations run, the stored state of the orchestrator is "UpgradeInProgress"
  -- after them exactly if it was so before them, for a server that keeps the status apart from the
  -- rest of the object (IsServer): the controller neither enters that state nor leaves it.
  pub reconciles-in_progress :
      (n : ℕ) (w : World)
      → (stored_state w ≡ state_upgrade_in_progress)
        ↔ (stored_state (reconciles K key n w) ≡ state_upgrade_in_progress)
  reconciles-in_progress zero w = (λ p. p, λ p. p)
  reconciles-in_progress (suc n) w =
      let (there, back) = Step-in_progress (reconcile-Step w) in
      let (there', back') = reconciles-in_progress n (reconcile K key w).1 in
      (λ p. there' (there p), λ p. back (back' p))
