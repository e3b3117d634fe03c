-- ===== src/Cert/Tests/Stored.antt =====
-- The stored certificates on the cluster in memory.
use nacho_operators.Common.{ap, inr, ◌≡◌, refl, ◌↔◌, [], ◌∷◌, Any, again_after, hour}
use nacho_operators.Common.InMemory.{plain_labels}
use nacho_operators.Common.Float.{round, to_nearest}
use nacho_operators.Common.Strings.{has_suffix}
use nacho_operators.Cert.Selectors.{
  list_all_secrets, selector_of, prepare_selectors, matches_namespace, matches_selectors,
}
use nacho_operators.Cert.Scan.{days_until, whole_days, certificate_info, inspect}
use nacho_operators.Cert.Reconcile.{is_cooling_down, write_status, reconcile}
use nacho_operators.Cert.Daily.{reconcile-silent}
use nacho_operators.Cert.Memory.{memory, memory-ParsesUtc}
use nacho_operators.Cert.Holdings.{Holds}
use nacho_operators.Cert.Storing.{StoresCertificates, entry_keys, reconcile-stores_certificates}
use nacho_operators.Cert.Tests.Data.{key, cooling}
use nacho_operators.Cert.Tests.Days.{memory_server}

abbrev memory_certificates : StoresCertificates memory
memory_certificates = record {
  stored = λ c. entry_keys c.monitor.status.monitored_certificates;
  status_update_accepted = λ m c accepted. refl;
}

succeeded : (reconcile memory key cooling).0 ≡ again_after hour
unfolding list_all_secrets selector_of prepare_selectors is_cooling_down matches_namespace
    matches_selectors inspect certificate_info days_until whole_days round to_nearest has_suffix
    write_status
succeeded =
    ap (λ ran. ran.0)
      (reconcile-silent memory memory-ParsesUtc key cooling {m = cooling.monitor} refl refl refl tt
        (inr refl))

reconcile-stores_certificates_example :
    Any
      (λ k. k ≡ ("web", "tls", "tls.crt"))
      (memory_certificates.stored (reconcile memory key cooling).1)
    ↔ Any
        (Holds memory "web" "tls" "tls.crt" plain_labels.everything plain_labels.everything cooling)
        (record { namespace = "web"; name = "tls" }
          ∷ record { namespace = "ops"; name = "opsgenie" }
          ∷ [])
unfolding list_all_secrets selector_of prepare_selectors
reconcile-stores_certificates_example =
    reconcile-stores_certificates memory key memory_server memory_certificates memory-ParsesUtc
      cooling {m = cooling.monitor} refl refl refl tt succeeded "web" "tls" "tls.crt"
