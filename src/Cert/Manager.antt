-- ===== src/Cert/Manager.antt =====
-- cert-monitor-operator/cmd/main.go, and SetupWithManager of
-- cert-monitor-operator/internal/controller/certificatemonitor_controller.go.
use nacho_operators.Common.{[], ◌∷◌, pure, Go}
use nacho_operators.Common.Manager.{
  ManagerOptions, Flags, generation_changed_predicate, Builder, Exit, Runtime, options_with,
  or_exit, with_manager, serve,
}

unfoldable pub manager_options : Flags → ManagerOptions
unfolding options_with
manager_options f = options_with f "a7faf73f.nachoperator.io" []

unfoldable pub builder : Builder
builder = record {
  for_kind = "CertificateMonitor";
  predicates = generation_changed_predicate ∷ [];
  owns = [];
  watches = [];
}

module _ (R : Runtime) where
  open R use {World, flags, complete}

  unfoldable pub main : Go World Exit
  unfolding manager_options builder serve
  main =
      with_manager R (manager_options flags)
        λ mgr. or_exit (complete mgr builder) (λ _. serve R mgr (pure tt))
