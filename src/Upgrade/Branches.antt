-- ===== src/Upgrade/Branches.antt =====
-- What one reconciliation does in the first two states, call by call.
use nacho_operators.Common.{
  ℕ, ◌*◌, ◌+◌, ◌<◌, ◌≤◌, String, ◌≡◌, refl, ap, ◌≢◌, ◌==◌, some, List, true, false, arith, ok,
  length, again_after, finished, minute, second, NamespacedName,
}
use nacho_operators.Upgrade.Types.{
  Orchestrator, Node, state_no_upgrade, state_awaiting_upgrade_confirmation,
  upgrade_confirmation_timeout,
}
use nacho_operators.Upgrade.Kube.{Kube}
use nacho_operators.Upgrade.Server.{IsServer}
use nacho_operators.Upgrade.Nodes.{any_cordoned, is_any_node_cordoned, detect_node_versions}
use nacho_operators.Upgrade.Reconcile.{
  enter, was_in_progress, watch_for_cordon, handle_no_upgrade_state, await_since,
  handle_awaiting_confirmation_state, dispatch, reconcile,
}

state-enter : (s : String) (t : ℕ) (o : Orchestrator) → (enter s t o).status.state ≡ s
unfolding enter
state-enter s t o = refl

is_text : {s t : String} (u : String) → s ≡ t → (s == u) ≡ (t == u)
is_text u p = ap (λ x. x == u) p

module _ (K : Kube) (key : NamespacedName) (S : IsServer K key) (w : K.World)
    {o : Orchestrator} where
  reconcile-no_upgrade :
      K.get_orchestrator key w ≡ ok o
      → o.status.state ≡ state_no_upgrade
      → reconcile K key w ≡ handle_no_upgrade_state K o w
  unfolding reconcile dispatch
  reconcile-no_upgrade p q = rw p (ground (arith, is_text "" q, is_text state_no_upgrade q))

  reconcile-awaiting :
      {since : ℕ}
      → K.get_orchestrator key w ≡ ok o
      → o.status.state ≡ state_awaiting_upgrade_confirmation
      → o.status.last_transition_time ≡ some since
      → reconcile K key w ≡ await_since K o (some since) w
  unfolding reconcile dispatch handle_awaiting_confirmation_state
  reconcile-awaiting p q t = rw p (
      ground (
        arith,
        t,
        is_text "" q,
        is_text state_no_upgrade q,
        is_text state_awaiting_upgrade_confirmation q,
      ))

  -- In the state "NoUpgrade" with no upgrade behind it, where the nodes can be listed and the
  -- status update is accepted, a reconciliation comes back after two minutes; it moves the stored
  -- state to "AwaitingUpgradeConfirmation" if a node is cordoned, and changes nothing if none is.
  pub reconcile-cordon :
      {a : Orchestrator} {nodes : List Node}
      → K.get_orchestrator key w ≡ ok o
      → o.status.state ≡ state_no_upgrade
      → was_in_progress o ≡ false
      → K.list_nodes w ≡ ok nodes
      → (K.status_update (enter state_awaiting_upgrade_confirmation (K.now w) o) w).0 ≡ ok a
      → ((reconcile K key w).0 ≡ again_after (2 * minute))
        × (any_cordoned nodes ≡ true
            → S.stored_state (reconcile K key w).1 ≡ state_awaiting_upgrade_confirmation)
        × (any_cordoned nodes ≡ false → (reconcile K key w).1 ≡ w)
  unfolding handle_no_upgrade_state watch_for_cordon is_any_node_cordoned
  reconcile-cordon p q m l u = rw (reconcile-no_upgrade p q) (
      ground (
        arith,
        m,
        l,
        u,
        S.status_update_accepted (enter state_awaiting_upgrade_confirmation (K.now w) o) w u,
        state-enter state_awaiting_upgrade_confirmation (K.now w) o,
      ))

  -- More than five minutes after the transition to "AwaitingUpgradeConfirmation" a reconciliation
  -- whose status update is accepted returns the stored state to "NoUpgrade", whatever the nodes
  -- show.
  pub reconcile-timeout :
      {a : Orchestrator} (since : ℕ)
      → K.get_orchestrator key w ≡ ok o
      → o.status.state ≡ state_awaiting_upgrade_confirmation
      → o.status.last_transition_time ≡ some since
      → since + upgrade_confirmation_timeout < K.now w
      → (K.status_update (enter state_no_upgrade (K.now w) o) w).0 ≡ ok a
      → ((reconcile K key w).0 ≡ finished)
        × (S.stored_state (reconcile K key w).1 ≡ state_no_upgrade)
  unfolding await_since
  reconcile-timeout since p q t late u = rw (reconcile-awaiting p q t) (
      ground (
        arith,
        S.status_update_accepted (enter state_no_upgrade (K.now w) o) w u,
        state-enter state_no_upgrade (K.now w) o,
      ))

  -- Before the timeout, with a number of versions that is not two, nothing is written.
  pub reconcile-waits :
      (since : ℕ) {versions : List String}
      → K.get_orchestrator key w ≡ ok o
      → o.status.state ≡ state_awaiting_upgrade_confirmation
      → o.status.last_transition_time ≡ some since
      → K.now w ≤ since + upgrade_confirmation_timeout
      → detect_node_versions K w ≡ ok versions
      → length versions ≢ 2
      → reconcile K key w ≡ (again_after (30 * second), w)
  unfolding await_since
  reconcile-waits since p q t early d n = rw (reconcile-awaiting p q t) (ground arith)
