-- ===== src/Kafka/Ledger.antt =====
-- Which calls of the program open and close clients of Google Cloud.
use nacho_operators.Common.{
  ℕ, suc, ◌+◌, ◌-◌, String, ◌≡◌, refl, List, [], ◌∷◌, length, arith, Result, ok, err, check, Go,
  pure,
}
use nacho_operators.Common.Dict.{Dict}
use nacho_operators.Common.Manager.{ManagerOptions, Builder}
use nacho_operators.Kafka.Manager.{
  Object, Platform, Finders, open_log_finders, new_broker_log_finder, with_finder,
  new_gcp_metrics_finder, Reconciler, setup_with_manager, close_all, run_deferred, builder,
}

-- How many clients are open, and how often a manager was started.
pub record Ledger : Type 0 where
  pub clients : ℕ
  pub starts : ℕ

abbrev pub opened {ℓ} : {A : Type ℓ} → Result A → Ledger → Ledger
opened (ok a) l = record l { clients = suc l.clients }
opened (err e) l = l

abbrev pub closed : Ledger → Ledger
closed l = record l { clients = l.clients - 1 }

-- Only the constructors open clients, only `Close` closes them, also where it returns an error, and
-- only `Start` starts a manager.
pub record KeepsLedger (P : Platform) : Type 0 where
  pub ledger : P.World → Ledger
  pub new_manager-ledger :
      (c : P.Config) (o : ManagerOptions) (w : P.World) → ledger (P.new_manager c o w).1 ≡ ledger w
  pub complete-ledger :
      (m : P.Manager) (b : Builder) (w : P.World) → ledger (P.complete m b w).1 ≡ ledger w
  pub index_field-ledger :
      (m : P.Manager) (field : String) (index : Object → List String) (w : P.World)
      → ledger (P.index_field m field index w).1 ≡ ledger w
  pub add_healthz_check-ledger :
      (m : P.Manager) (name : String) (w : P.World)
      → ledger (P.add_healthz_check m name w).1 ≡ ledger w
  pub add_readyz_check-ledger :
      (m : P.Manager) (name : String) (w : P.World)
      → ledger (P.add_readyz_check m name w).1 ≡ ledger w
  pub start-ledger :
      (m : P.Manager) (w : P.World)
      → ledger (P.start m w).1 ≡ record (ledger w) { starts = suc (ledger w).starts }
  pub new_log_client-ledger :
      (project : String) (w : P.World)
      → ledger (P.new_log_client project w).1 ≡ opened (P.new_log_client project w).0 (ledger w)
  pub new_query_client-ledger :
      (w : P.World) → ledger (P.new_query_client w).1 ≡ opened (P.new_query_client w).0 (ledger w)
  pub close_log_client-ledger :
      (c : P.LogClient) (w : P.World) → ledger (P.close_log_client c w).1 ≡ closed (ledger w)
  pub close_query_client-ledger :
      (c : P.QueryClient) (w : P.World) → ledger (P.close_query_client c w).1 ≡ closed (ledger w)

module _ (P : Platform) (law : KeepsLedger P) where
  open law use {ledger}

  abbrev pub clients : P.World → ℕ
  clients w = (ledger w).clients

  abbrev pub starts : P.World → ℕ
  starts w = (ledger w).starts

  pub close_all-ledger :
      (cs : List P.LogClient) (w : P.World)
      → (clients (close_all P cs w).1 ≡ clients w - length cs)
        × (starts (close_all P cs w).1 ≡ starts w)
  unfolding close_all
  close_all-ledger [] w = (omega arith, refl)
  close_all-ledger (c ∷ cs) w =
      ground
        (arith, close_all-ledger cs (P.close_log_client c w).1, law.close_log_client-ledger c w)

  new_broker_log_finder-ledger :
      (project : String) (w : P.World)
      → ledger (new_broker_log_finder P project w).1
        ≡ opened (new_broker_log_finder P project w).0 (ledger w)
  unfolding new_broker_log_finder
  new_broker_log_finder-ledger project w = by_result (P.new_log_client project w).0 refl
    where
      by_result :
          (r : Result P.LogClient)
          → (P.new_log_client project w).0 ≡ r
          → ledger (new_broker_log_finder P project w).1
            ≡ opened (new_broker_log_finder P project w).0 (ledger w)
      by_result (ok c) p = ground (arith, law.new_log_client-ledger project w)
      by_result (err e) p = ground (arith, law.new_log_client-ledger project w)

  pub open_log_finders-ledger :
      (projects : Dict String) (found : Finders P) (w : P.World)
      → let (r, w') = open_log_finders P projects found w in
        (clients w' + length found.deferred ≡ clients w + length r.deferred)
        × (starts w' ≡ starts w)
  unfolding open_log_finders
  open_log_finders-ledger [] found w = (refl, refl)
  open_log_finders-ledger ((key, project) ∷ rest) found w =
      let (made, w') = new_broker_log_finder P project w in
      by_result made (new_broker_log_finder-ledger project w)
        (open_log_finders-ledger rest (with_finder P key found made) w')
    where
      by_result :
          (made : Result P.LogClient)
          → ledger (new_broker_log_finder P project w).1 ≡ opened made (ledger w)
          → (let (r, w') =
                open_log_finders P rest
                  (with_finder P key found made)
                  (new_broker_log_finder P project w).1 in
              (clients w' + length (with_finder P key found made).deferred
                ≡ clients (new_broker_log_finder P project w).1 + length r.deferred)
              × (starts w' ≡ starts (new_broker_log_finder P project w).1))
          → (let (r, w') =
                open_log_finders P rest
                  (with_finder P key found made)
                  (new_broker_log_finder P project w).1 in
              (clients w' + length found.deferred ≡ clients w + length r.deferred)
              × (starts w' ≡ starts w))
      by_result (ok c) p (h, k) = (ground arith, ground arith)
      by_result (err e) p (h, k) = (ground arith, ground arith)

  pub run_deferred-ledger :
      (r : Reconciler P) (w : P.World)
      → (clients (run_deferred P r w).1 ≡ clients w - suc (length r.broker_log_finders.deferred))
        × (starts (run_deferred P r w).1 ≡ starts w)
  unfolding run_deferred
  run_deferred-ledger r w = ground (
    arith,
    close_all-ledger r.broker_log_finders.deferred
        (P.close_query_client r.metrics_finder.client w).1,
    law.close_query_client-ledger r.metrics_finder.client w,
  )

  pub setup_with_manager-ledger :
      (m : P.Manager) (w : P.World) → ledger (setup_with_manager P m w).1 ≡ ledger w
  unfolding setup_with_manager
  setup_with_manager-ledger m w = by_result (P.new_for_config m)
    where
      by_result :
          (r : Result P.Clientset)
          → ledger
              (check {B = Go P.World (Result (Unit {0}))} r
                (λ e. pure (err e))
                (λ _. P.complete m builder)
                w).1
            ≡ ledger w
      by_result (ok c) = law.complete-ledger m builder w
      by_result (err e) = refl

  pub new_gcp_metrics_finder-ledger :
      (project : String) (w : P.World)
      → ledger (new_gcp_metrics_finder P project w).1
        ≡ opened (new_gcp_metrics_finder P project w).0 (ledger w)
  unfolding new_gcp_metrics_finder
  new_gcp_metrics_finder-ledger project w = by_result (P.new_query_client w).0 refl
    where
      by_result :
          (r : Result P.QueryClient)
          → (P.new_query_client w).0 ≡ r
          → ledger (new_gcp_metrics_finder P project w).1
            ≡ opened (new_gcp_metrics_finder P project w).0 (ledger w)
      by_result (ok c) p = ground (arith, law.new_query_client-ledger w)
      by_result (err e) p = ground (arith, law.new_query_client-ledger w)
