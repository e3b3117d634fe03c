-- ===== src/Cert/Tests.antt =====
-- Runs of the monitor over the cluster in memory, and the theorems at concrete data.
mod Data
mod Days
mod Stored
use nacho_operators.Common.{
  ℕ, String, ◌*◌, ◌+◌, ◌-◌, ◌≤◌, ◌<◌, ◌≡◌, ◌≢◌, ◌↔◌, ◌⊎◌, inl, refl, true, false, none, some, [],
  ◌∷◌, arith, ok, NamespacedName,
}
use nacho_operators.Common.Dict
use nacho_operators.Common.Float.{round, to_nearest}
use nacho_operators.Common.Int.{pos}
use nacho_operators.Common.Strings.{
  has_suffix, decimal, trim_space, trim_left, trim_right, is_space,
}
use nacho_operators.Cert.Types.{
  OpsgenieAlertPayload, utc, local, MonitoredCertificateInfo, Certificate, Status,
}
use nacho_operators.Cert.Selectors.{
  list_all_secrets, selector_of, prepare_selectors, matches_namespace, matches_selectors,
}
use nacho_operators.Cert.Scan.{
  day, whole_days, days_until, certificate_info, nothing_found, inspect, scan,
}
use nacho_operators.Cert.Status.{desired_status, must_update}
use nacho_operators.Cert.Notify.{
  is_in_scope, scope_loop, notification_scope, send_aggregated_notifications,
}
use nacho_operators.Cert.Reconcile.{is_cooling_down, reconcile}
use nacho_operators.Cert.Memory.{Cluster, memory, memory-ParsesUtc}
use nacho_operators.Cert.Certificates.{found_of, scan_lem}
use nacho_operators.Cert.Expiry.{certificate_info_iff}
use nacho_operators.Cert.Scope.{scope_loop-keep}
use nacho_operators.Cert.Republish.{must_update-decoded}
use nacho_operators.Cert.Daily.{checked, IsWithinDay, write_and_wait, reconcile-notifies}
use nacho_operators.Cert.Delivery.{IsAccepted}
use nacho_operators.Cert.Agreement.{Agree, send-Agree}
use nacho_operators.Cert.Initial
use nacho_operators.Cert.Notifications
use nacho_operators.Cert.Silence.{reconcile-unscoped}
use nacho_operators.Cert.Tests.Data.{
  key, everything, production, spec, status_notified_at, monitor_of, tls, info_on, warm,
}

trim_space_run : trim_space " secret\n" ≡ "secret"
unfolding trim_space trim_left trim_right is_space
trim_space_run = refl

decimal_run : decimal (pos 365) ≡ "365"
unfolding decimal
decimal_run = refl

-- One nanosecond less than 366 days are 366 days already.
whole_days_run : whole_days (366 * day - 1) ≡ 366
unfolding whole_days round to_nearest
whole_days_run = refl

reconcile-notifies_example :
    (((info_on 20 ∷ [] ≡ [])
        ⊎ IsWithinDay warm.monitor.status.last_notification_time (memory.now warm))
      × (reconcile memory key warm
          ≡ write_and_wait memory key
              (checked warm.monitor.status
                (info_on 20 ∷ [])
                (memory.now warm)
                warm.monitor.status.last_notification_time)
              warm))
    ⊎ ((info_on 20 ∷ [] ≢ [])
        × (¬ IsWithinDay warm.monitor.status.last_notification_time (memory.now warm))
        × (reconcile memory key warm
            ≡ write_and_wait memory key
                (checked warm.monitor.status
                  (info_on 20 ∷ [])
                  (memory.now warm)
                  (some (memory.now warm)))
                (send_aggregated_notifications memory warm.monitor (info_on 20 ∷ []) warm).1))
unfolding list_all_secrets selector_of prepare_selectors is_cooling_down matches_namespace
    matches_selectors inspect certificate_info days_until whole_days round to_nearest has_suffix
reconcile-notifies_example =
    reconcile-notifies memory memory-ParsesUtc key warm {m = warm.monitor} refl refl refl tt

abbrev tls_key : NamespacedName
tls_key = record { namespace = "web"; name = "tls" }

abbrev gone_key : NamespacedName
gone_key = record { namespace = "web"; name = "gone" }

scan_lem_example :
    scan memory
      (pos 30)
      (memory.now warm)
      (some everything)
      (some everything)
      (gone_key ∷ tls_key ∷ [])
      warm
      nothing_found
    ≡ found_of (info_on 20 ∷ [])
unfolding matches_namespace matches_selectors inspect certificate_info days_until whole_days round
    to_nearest has_suffix
scan_lem_example =
    scan_lem memory (pos 30) (memory.now warm) (some everything) (some everything) warm
      (gone_key ∷ tls_key ∷ [])

abbrev leaf : Certificate
leaf = record {
  not_after = record { instant = 100 * day; form = utc };
  subject_cn = "web.example.com";
  issuer_cn = "ca";
}

certificate_info_iff_example :
    ((certificate_info (pos 30) (memory.now warm) tls "tls.crt" leaf).is_expired ≡ true
      ↔ 100 * day < 80 * day)
    × ((certificate_info (pos 30) (memory.now warm) tls "tls.crt" leaf).is_near_expiration ≡ true
        ↔ ((80 * day ≤ 100 * day) × (0 < 30) × (100 * day < 80 * day + (30 + 1) * day)))
certificate_info_iff_example =
    certificate_info_iff (memory.now warm) tls "tls.crt" leaf 30 (omega arith) (inl (omega arith))

abbrev elsewhere : MonitoredCertificateInfo
elsewhere = record (info_on 20) { namespace = "ops" }

scope_loop-keep_example :
    scope_loop memory (some production) warm [] (info_on 20 ∷ elsewhere ∷ info_on 20 ∷ [])
    ≡ info_on 20 ∷ info_on 20 ∷ []
unfolding is_in_scope Dict.lookup
scope_loop-keep_example =
    scope_loop-keep memory (some production) warm (info_on 20 ∷ elsewhere ∷ info_on 20 ∷ [])

-- What the first run has stored and the server has decoded is written again by the next.
abbrev stored : Status
stored = record (status_notified_at (80 * day)) {
  monitored_certificates =
      some (record (info_on 20) { expires_at = record { instant = 100 * day; form = local } } ∷ []);
}

must_update-decoded_example :
    must_update stored (desired_status stored (info_on 20 ∷ []) (memory.now warm) false) false
    ≡ true
must_update-decoded_example =
    must_update-decoded stored (info_on 20 ∷ []) (memory.now warm) false (refl, tt) (refl, tt)

-- A monitor that notifies nobody.
abbrev unscoped : Cluster
unscoped = record warm {
  monitor =
      monitor_of (record spec { notification_namespace_selector = none; email_recipients = [] })
        (70 * day);
}

reconcile-unscoped_example :
    reconcile memory key unscoped
    ≡ write_and_wait memory key
        (checked unscoped.monitor.status
          (info_on 20 ∷ [])
          (memory.now unscoped)
          (some (memory.now unscoped)))
        unscoped
unfolding list_all_secrets selector_of prepare_selectors is_cooling_down matches_namespace
    matches_selectors inspect certificate_info days_until whole_days round to_nearest has_suffix
    notification_scope
reconcile-unscoped_example =
    reconcile-unscoped memory memory-ParsesUtc key unscoped {m = unscoped.monitor}
      {info = info_on 20} {infos = []} refl refl refl tt refl refl refl refl

abbrev status_line : ℕ → String
status_line code = decimal (pos code)

send-Agree_example :
    (((Notifications.send_aggregated_webhook_notification memory "http://slack" "text" warm).0
        ≡ ok tt)
      ↔ IsAccepted memory warm "http://slack" "text")
    × Agree memory status_line
        (Initial.send_aggregated_webhook_notification memory status_line "http://slack" "text")
        (Notifications.send_aggregated_webhook_notification memory "http://slack" "text")
        warm
    × ((api_key region : String) (payload : OpsgenieAlertPayload)
        → Agree memory status_line
            (Initial.send_opsgenie_alert memory status_line api_key region payload)
            (Notifications.send_opsgenie_alert memory api_key region payload)
            warm)
send-Agree_example = send-Agree memory status_line "http://slack" "text" warm
