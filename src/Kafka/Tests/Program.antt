-- ===== src/Kafka/Tests/Program.antt =====
-- The program of the monitor on a platform in memory.
use nacho_operators.Common.{suc, ◌-◌, String, ◌≡◌, refl, ◌↔◌, some, [], ◌∷◌, errorf, ok, err}
use nacho_operators.Common.Dict
use nacho_operators.Common.Manager.{Flags, Runtime}
use nacho_operators.Common.Strings.{trim_space, trim_left, trim_right, is_space}
use nacho_operators.Kafka.Manager.{Object, event, Platform, Reconciler, make_reconciler, main}
use nacho_operators.Kafka.Wiring.{Configured, make_reconciler-Configured}
use nacho_operators.Kafka.Ledger.{Ledger, KeepsLedger}
use nacho_operators.Kafka.Closing.{Ends, main-Ends}

abbrev no_flags : Flags
no_flags = record { string_flag = λ name value. value; bool_flag = λ name value. value }

-- The manager of this runtime stops with an error.
abbrev runtime : Runtime
runtime = record {
  World = Ledger;
  Config = Unit {0};
  Manager = Unit {0};
  flags = no_flags;
  get_config_or_die = λ w. some tt;
  new_manager = λ c o w. (ok tt, w);
  complete = λ m b w. (ok tt, w);
  add_healthz_check = λ m name w. (ok tt, w);
  add_readyz_check = λ m name w. (ok tt, w);
  start = λ m w. (err (errorf "leader election lost"), record w { starts = suc w.starts });
}

-- Every file holds "key".
abbrev platform : Platform
platform = record {
  runtime = runtime;
  index_field = λ m field index w. (ok tt, w);
  read_file = λ path w. ok "key\n";
  unmarshal_rules = λ text. ok [];
  execution_environment = "prod";
  range = λ w entries. entries;
  LogClient = String;
  new_log_client = λ project w. (ok project, record w { clients = suc w.clients });
  close_log_client = λ c w. (ok tt, record w { clients = w.clients - 1 });
  QueryClient = Unit {0};
  new_query_client = λ w. (ok tt, record w { clients = suc w.clients });
  close_query_client = λ c w. (ok tt, record w { clients = w.clients - 1 });
  Clientset = Unit {0};
  new_for_config = λ m. ok tt;
}

abbrev platform_ledger : KeepsLedger platform
platform_ledger = record {
  ledger = λ w. w;
  new_manager-ledger = λ c o w. refl;
  complete-ledger = λ m b w. refl;
  index_field-ledger = λ m field index w. refl;
  add_healthz_check-ledger = λ m name w. refl;
  add_readyz_check-ledger = λ m name w. refl;
  start-ledger = λ m w. refl;
  new_log_client-ledger = λ project w. refl;
  new_query_client-ledger = λ w. refl;
  close_log_client-ledger = λ c w. refl;
  close_query_client-ledger = λ c w. refl;
}

abbrev nothing_open : Ledger
nothing_open = record { clients = 0; starts = 0 }

main-Ends_example : Ends platform platform_ledger nothing_open (main platform nothing_open)
main-Ends_example = main-Ends platform platform_ledger nothing_open

abbrev warning : Object
warning = event (record {
  involved_name = "app";
  involved_namespace = "shop";
  involved_kind = "Pod";
  kind = "Warning";
})

abbrev made : Reconciler platform
made = record {
  settings = record {
    slack_reporter = record { webhook_url = "key" };
    rules = [];
    ai_analyzer = record { api_key = "key"; model = "gemini-1.5-flash" };
  };
  broker_log_finders = record {
    by_cluster =
        ("bss", "mm-kafka-bss-prod")
        ∷ ("cdr", "mm-kafka-cdr-prod")
        ∷ ("corp", "mm-kafka-corp-prod")
        ∷ [];
    deferred = "mm-kafka-corp-prod" ∷ "mm-kafka-cdr-prod" ∷ "mm-kafka-bss-prod" ∷ [];
  };
  metrics_finder = record { client = tt; project_id = "mm-k8s-prod-01" };
}

made_run : make_reconciler platform nothing_open ≡ (ok made, record { clients = 4; starts = 0 })
unfolding make_reconciler Dict.insert trim_space trim_left trim_right is_space
made_run = refl

make_reconciler-Configured_example :
    Configured platform nothing_open made.settings
    × ((made.metrics_finder.project_id ≡ "mm-k8s-prod-01")
        ↔ (platform.execution_environment ≡ "prod"))
make_reconciler-Configured_example =
    make_reconciler-Configured platform nothing_open {r = made}
      {w' = record { clients = 4; starts = 0 }} made_run
