-- ===== src/Kafka/Closing.antt =====
-- Which clients of Google Cloud the program leaves open.
use nacho_operators.Common.{
  ℕ, suc, ◌+◌, ◌≤◌, ◌<◌, String, ◌≡◌, refl, ◌∙◌, ◌⊎◌, inl, inr, List, [], ◌∷◌, length, arith,
  Result, ok, err, check, Go, Option, none, some,
}
use nacho_operators.Common.Manager.{Exit, returned, exits, serve, or_exit}
use nacho_operators.Kafka.Manager.{
  Object, Platform, read_settings, Finders, open_log_finders, new_gcp_metrics_finder, MetricsFinder,
  Reconciler, with_clients, make_reconciler, metrics_project_id, broker_projects, no_finders,
  Settings, manager_options, indexes, index_fields, setup_with_manager, run_deferred,
  start_reconciler, main,
}
use nacho_operators.Kafka.Ledger.{
  KeepsLedger, opened, open_log_finders-ledger, run_deferred-ledger, setup_with_manager-ledger,
  new_gcp_metrics_finder-ledger,
}

module _ (P : Platform) (law : KeepsLedger P) where
  open law use {ledger}

  abbrev pub clients : P.World → ℕ
  clients w = (ledger w).clients

  abbrev pub starts : P.World → ℕ
  starts w = (ledger w).starts

  -- How the program may end, against the ledger at its start.
  abbrev pub Ends : P.World → Exit × P.World → Type 0
  Ends start (exit, w) =
      ((exit ≡ returned) × (clients w ≡ clients start) × (starts w ≡ suc (starts start)))
      ⊎ ((exit ≡ exits 1) × (clients start ≤ clients w) × (starts w ≡ starts start))
      ⊎ ((exit ≡ exits 1) × (clients start < clients w) × (starts w ≡ suc (starts start)))

  -- So many clients were opened since, and no manager was started.
  abbrev Ready : P.World → ℕ → P.World → Type 0
  Ready start n w = (clients w ≡ clients start + n) × (starts w ≡ starts start)

  or_exit-Ends :
      {A : Type 0} (start : P.World) (n : ℕ) (call : Go P.World (Result A))
      (good : A → Go P.World Exit) (w : P.World)
      → Ready start n w
      → ledger (call w).1 ≡ ledger w
      → ((a : A) (u : P.World) → Ready start n u → Ends start (good a u))
      → Ends start (or_exit call good w)
  or_exit-Ends {A} start n call good w ready kept next = by_result (call w).0
    where
      ready' : Ready start n (call w).1
      ready' = (ground arith, ground arith)

      by_result :
          (r : Result A)
          → Ends start (check r (λ _. (exits 1, (call w).1)) (λ a. good a (call w).1))
      by_result (ok a) = next a (call w).1 ready'
      by_result (err e) = inr (inl (refl, omega (arith, ready'.0), ready'.1))

  start-Ends :
      (start : P.World) (m : P.Manager) (r : Reconciler P) (w : P.World)
      → Ready start (suc (length r.broker_log_finders.deferred)) w
      → Ends start (or_exit (P.start m) (λ _ u. (returned, (run_deferred P r u).1)) w)
  start-Ends start m r w ready = by_result (P.start m w).0
    where
      started : ledger (P.start m w).1 ≡ record (ledger w) { starts = suc (ledger w).starts }
      started = law.start-ledger m w

      stopped :
          (clients (run_deferred P r (P.start m w).1).1 ≡ clients start)
          × (starts (run_deferred P r (P.start m w).1).1 ≡ suc (starts start))
      stopped = (
        ground (arith, started, run_deferred-ledger P law r (P.start m w).1),
        ground (arith, started, run_deferred-ledger P law r (P.start m w).1),
      )

      by_result :
          (res : Result (Unit {0}))
          → Ends start (
              check res
                (λ _. (exits 1, (P.start m w).1))
                (λ _. (returned, (run_deferred P r (P.start m w).1).1)))
      by_result (ok a) = inl (refl, stopped.0, stopped.1)
      by_result (err e) = inr (inr (refl, ground (arith, started), ground (arith, started)))

  start_reconciler-Ends :
      (start : P.World) (m : P.Manager) (r : Reconciler P) (w : P.World)
      → Ready start (suc (length r.broker_log_finders.deferred)) w
      → Ends start (start_reconciler P m r w)
  unfolding start_reconciler serve
  start_reconciler-Ends start m r w ready =
      let n = suc (length r.broker_log_finders.deferred) in
      or_exit-Ends start n (setup_with_manager P m) _ w ready (setup_with_manager-ledger P law m w)
        λ _ u ready.
          or_exit-Ends start n (P.add_healthz_check m "healthz") _ u ready
            (law.add_healthz_check-ledger m "healthz" u)
            λ _ u ready.
              or_exit-Ends start n (P.add_readyz_check m "readyz") _ u ready
                (law.add_readyz_check-ledger m "readyz" u) λ _ u ready. start-Ends start m r u ready

  index_fields-Ends :
      (start : P.World) (m : P.Manager) (fields : List (String × (Object → List String)))
      (good : Go P.World Exit) (w : P.World)
      → Ready start 0 w
      → ((u : P.World) → Ready start 0 u → Ends start (good u))
      → Ends start (index_fields P m fields good w)
  unfolding index_fields
  index_fields-Ends start m [] good w ready next = next w ready
  index_fields-Ends start m ((field, index) ∷ rest) good w ready next =
      or_exit-Ends start 0 (P.index_field m field index) _ w ready
        (law.index_field-ledger m field index w)
        λ _ u ready. index_fields-Ends start m rest good u ready next

  -- What is open after the reconciler was made, or was not.
  abbrev Made : P.World → Result (Reconciler P) → P.World → Type 0
  Made start (ok r) w = Ready start (suc (length r.broker_log_finders.deferred)) w
  Made start (err e) w = (clients start ≤ clients w) × (starts w ≡ starts start)

  with_clients-Made :
      (start : P.World) (settings : Settings) (w : P.World)
      → Ready start 0 w
      → Made start (with_clients P settings w).0 (with_clients P settings w).1
  unfolding with_clients
  with_clients-Made start settings w ready =
      by_result (new_gcp_metrics_finder P (metrics_project_id P) found.1).0 opened_last
    where
      found : Finders P × P.World
      found = open_log_finders P (P.range w (broker_projects P)) (no_finders P) w

      last : P.World
      last = (new_gcp_metrics_finder P (metrics_project_id P) found.1).1

      opened_last :
          ledger last
          ≡ opened (new_gcp_metrics_finder P (metrics_project_id P) found.1).0 (ledger found.1)
      opened_last = new_gcp_metrics_finder-ledger P law (metrics_project_id P) found.1

      counted :
          (clients found.1 ≡ clients start + length found.0.deferred)
          × (starts found.1 ≡ starts start)
      counted =
          let (h, k) =
            open_log_finders-ledger P law (P.range w (broker_projects P)) (no_finders P) w in
          (ground (arith, h, ready.0), k ∙ ready.1)

      made : Result (MetricsFinder P) → Result (Reconciler P)
      made (err e) = err e
      made (ok metrics) =
          ok
            (record { settings = settings; broker_log_finders = found.0; metrics_finder = metrics })

      by_result :
          (b : Result (MetricsFinder P))
          → ledger last ≡ opened b (ledger found.1)
          → let end : Result (Reconciler P) × P.World =
              check b (λ e. (err e, last)) (λ m. (made (ok m), last)) in
            Made start end.0 end.1
      by_result (err e) p = (ground (arith, counted), ground (arith, counted))
      by_result (ok m) p = (ground (arith, counted), ground (arith, counted))

  make_reconciler-Made :
      (start : P.World) (w : P.World)
      → Ready start 0 w
      → Made start (make_reconciler P w).0 (make_reconciler P w).1
  unfolding make_reconciler
  make_reconciler-Made start w ready = by_settings (read_settings P w)
    where
      by_settings :
          (a : Result Settings)
          → let end : Result (Reconciler P) × P.World =
              check a (λ e. (err e, w)) (λ s. with_clients P s w) in
            Made start end.0 end.1
      by_settings (err e) = (omega (arith, ready.0), ready.1)
      by_settings (ok s) = with_clients-Made start s w ready

  make_reconciler-Ends :
      (start : P.World) (good : Reconciler P → Go P.World Exit) (w : P.World)
      → Ready start 0 w
      → ((r : Reconciler P) (u : P.World)
          → Ready start (suc (length r.broker_log_finders.deferred)) u
          → Ends start (good r u))
      → Ends start (or_exit (make_reconciler P) good w)
  make_reconciler-Ends start good w ready next =
      by_result (make_reconciler P w).0 (make_reconciler-Made start w ready)
    where
      last : P.World
      last = (make_reconciler P w).1

      by_result :
          (a : Result (Reconciler P))
          → Made start a last
          → Ends start (check a (λ _. (exits 1, last)) (λ r. good r last))
      by_result (ok r) made = next r last made
      by_result (err e) (opened, waiting) = inr (inl (refl, opened, waiting))

  -- Either the program returns, and the clients that it opened are closed; or it exits with 1 before
  -- the manager was started; or it exits with 1 after the manager was started, and leaves a client open.
  pub main-Ends : (w : P.World) → Ends w (main P w)
  unfolding main
  main-Ends w = by_config (P.get_config_or_die w)
    where
      rest : P.Manager → Go P.World Exit
      rest mgr = index_fields P mgr indexes (or_exit (make_reconciler P) (start_reconciler P mgr))

      rest-Ends : (m : P.Manager) (u : P.World) → Ready w 0 u → Ends w (rest m u)
      rest-Ends m u ready = index_fields-Ends w m indexes _ u ready λ v ready.
          make_reconciler-Ends w (start_reconciler P m) v ready
            λ r x ready. start_reconciler-Ends w m r x ready

      by_config :
          (c : Option P.Config)
          → Ends w (elim c [
            | none ↦ (exits 1, w)
            | some config ↦ or_exit (P.new_manager config (manager_options P.flags)) rest w
          ])
      by_config none = inr (inl (refl, omega arith, refl))
      by_config (some config) =
          or_exit-Ends w 0 (P.new_manager config (manager_options P.flags)) rest w
            (omega arith, refl) (law.new_manager-ledger config _ w) rest-Ends
