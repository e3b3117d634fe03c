-- ===== src/Kafka/Manager/Program.antt =====
-- The main function of kafka-access-monitor-operator/cmd/main.go, and SetupWithManager of
-- kafka-access-monitor-operator/internal/controller/kafkaaccessquery_controller.go.
use nacho_operators.Common.{List, [], ◌∷◌, Result, err, check, Go, pure, String}
use nacho_operators.Common.Manager.{
  ManagerOptions, Flags, Builder, Exit, options_with, or_exit, with_manager, serve,
}
use nacho_operators.Kafka.Manager.Indexes.{
  Object, index_name, index_namespace, index_type, index_kind,
}
use nacho_operators.Kafka.Manager.SetUp.{Platform, Reconciler, make_reconciler}

unfoldable pub manager_options : Flags → ManagerOptions
unfolding options_with
manager_options f = options_with f "a71dae51.masorange.com" []

unfoldable pub builder : Builder
builder = record { for_kind = "KafkaAccessQuery"; predicates = []; owns = []; watches = [] }

-- The indexes, in the order in which they are made.
abbrev pub indexes : List (String × (Object → List String))
indexes =
    ("involvedObject.name", index_name)
    ∷ ("involvedObject.namespace", index_namespace)
    ∷ ("type", index_type)
    ∷ ("involvedObject.kind", index_kind)
    ∷ []

module _ (P : Platform) where
  open P use {
    World, Manager, runtime, flags, complete, index_field, LogClient, close_log_client,
    close_query_client, new_for_config,
  }

  unfoldable pub index_fields :
      Manager → List (String × (Object → List String)) → Go World Exit → Go World Exit
  index_fields mgr [] good = good
  index_fields mgr ((field, index) ∷ rest) good =
      or_exit (index_field mgr field index) (λ _. index_fields mgr rest good)

  unfoldable pub setup_with_manager : Manager → Go World (Result (Unit {0}))
  unfolding builder
  setup_with_manager mgr =
      check (new_for_config mgr) (λ e. pure (err e)) (λ _. complete mgr builder)

  -- What cannot be closed is logged.
  unfoldable pub close_all : List LogClient → Go World (Unit {0})
  close_all [] w = (tt, w)
  close_all (client ∷ clients) w = close_all clients (close_log_client client w).1

  -- The deferred calls of `main`, the last one first.
  unfoldable pub run_deferred : Reconciler P → Go World (Unit {0})
  unfolding close_all
  run_deferred r w =
      close_all r.broker_log_finders.deferred (close_query_client r.metrics_finder.client w).1

  unfoldable pub start_reconciler : Manager → Reconciler P → Go World Exit
  unfolding setup_with_manager run_deferred serve
  start_reconciler mgr r =
      or_exit (setup_with_manager mgr) (λ _. serve runtime mgr (run_deferred r))

  unfoldable pub main : Go World Exit
  unfolding manager_options index_fields make_reconciler start_reconciler
  main =
      with_manager runtime (manager_options flags)
        λ mgr. index_fields mgr indexes (or_exit (make_reconciler P) (start_reconciler mgr))
