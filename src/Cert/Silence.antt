-- ===== src/Cert/Silence.antt =====
-- Notifications that reach nobody, and what every reconciliation of a readable monitor returns.
use nacho_operators.Cert.Daily.{checked, write_and_wait, reconcile-loud}
use nacho_operators.Cert.Certificates.{certificates}
use nacho_operators.Cert.Republish.{IsDecoded}
use nacho_operators.Cert.Utc.{ParsesUtc}
use nacho_operators.Cert.Scan.{needs_notice}
use nacho_operators.Common.{
  keep, subst, ◌≡◌, ◌⊎◌, inl, inr, refl, Bool, true, false, none, some, List, [], ◌∷◌, Error,
  Result, ok, err, again_after, again_with, hour, NamespacedName,
}
use nacho_operators.Cert.Types.{MonitoredCertificateInfo, Status, CertificateMonitor}
use nacho_operators.Cert.Services.{Services}
use nacho_operators.Cert.Selectors.{list_all_secrets, prepare_selectors}
use nacho_operators.Cert.Status.{must_update}
use nacho_operators.Cert.Notify.{
  Infos, notification_scope, scoped, notify_webhook, notify_email, notify_opsgenie,
  send_aggregated_notifications,
}
use nacho_operators.Cert.Reconcile.{
  is_cooling_down, notify, write_status, publish, monitor_secrets, reconcile,
}

module _ (S : Services) where
  send_aggregated_notifications-unscoped :
      (m : CertificateMonitor) (infos : Infos) (w : S.World)
      → notification_scope S m.spec.notification_namespace_selector ≡ none
      → m.spec.email_recipients ≡ []
      → send_aggregated_notifications S m infos w ≡ (tt, w)
  unfolding send_aggregated_notifications scoped notify_webhook notify_email notify_opsgenie
  send_aggregated_notifications-unscoped m infos w p q = rw (p, q) refl

  -- Without a valid selector for the notifications and without recipients of mail nothing is sent,
  -- whatever endpoint or alerting is configured; the notification counts as sent all the same, unless
  -- a cooldown is running.
  notify-unscoped :
      (m : CertificateMonitor) (info : MonitoredCertificateInfo) (infos : Infos) (w : S.World)
      → notification_scope S m.spec.notification_namespace_selector ≡ none
      → m.spec.email_recipients ≡ []
      → is_cooling_down m.status.last_notification_time (S.now w) ≡ false
      → notify S m (info ∷ infos) w ≡ (true, w)
  unfolding notify
  notify-unscoped m info infos w p q warm =
      rw (warm, send_aggregated_notifications-unscoped m (info ∷ infos) w p q) refl

  publish-outcome :
      (key : NamespacedName) (original desired : Status) (sent : Bool) (w : S.World)
      → ((publish S key original desired sent w).0 ≡ again_after hour)
        ⊎ ((e : Error) × ((publish S key original desired sent w).0 ≡ again_with e))
  unfolding publish
  publish-outcome key original desired sent w =
      by_update (must_update original desired sent) refl (write_status S key desired w).0 refl
    where
      by_update :
          (b : Bool)
          → must_update original desired sent ≡ b
          → (r : Result (Unit {0})) → (write_status S key desired w).0 ≡ r
          → ((publish S key original desired sent w).0 ≡ again_after hour)
            ⊎ ((e : Error) × ((publish S key original desired sent w).0 ≡ again_with e))
      by_update false p r q = inl (rw p refl)
      by_update true p (ok u) q = inl (rw (p, q) refl)
      by_update true p (err e) q = inr (e, rw (p, q) refl)

  -- Where the monitor and the secrets can be read and the selectors are valid, a reconciliation comes
  -- back after one hour, or at once with the error of the status update, whatever interval the spec
  -- asks for.
  reconcile_hourly :
      (key : NamespacedName) (w : S.World) {m : CertificateMonitor} {keys : List NamespacedName}
      {ns_selector secret_selector : S.Selector}
      → S.get_monitor key w ≡ ok m
      → list_all_secrets S w ≡ ok keys
      → prepare_selectors S m.spec ≡ ok (ns_selector, secret_selector)
      → ((reconcile S key w).0 ≡ again_after hour)
        ⊎ ((e : Error) × ((reconcile S key w).0 ≡ again_with e))
  unfolding reconcile monitor_secrets
  reconcile_hourly key w {m} {keys} {ns_selector} {secret_selector} read all prepared =
      rw (read, all, prepared) (publish-outcome key m.status _ _ _)

  -- Without a valid selector for the notifications and without recipients of mail nothing is sent,
  -- whatever endpoint or alerting is configured, and the notification is recorded all the same: all
  -- that a reconciliation does that finds certificates to notify of is to write the status with the
  -- certificates in scope, the current time as that of the check and also as that of the notification,
  -- which silences the next twenty-four hours. The conditions are that the monitor can be read and the
  -- secrets listed, that the selectors of the scan are valid, that the list in the old status was
  -- decoded from JSON, that X.509 times are in UTC and that no cooldown is running.
  pub reconcile-unscoped :
      ParsesUtc S
      → (key : NamespacedName) (w : S.World) {m : CertificateMonitor} {keys : List NamespacedName}
        {ns_selector secret_selector : S.Selector} {info : MonitoredCertificateInfo} {infos : Infos}
      → S.get_monitor key w ≡ ok m
      → list_all_secrets S w ≡ ok keys
      → prepare_selectors S m.spec ≡ ok (ns_selector, secret_selector)
      → IsDecoded m.status.monitored_certificates
      → notification_scope S m.spec.notification_namespace_selector ≡ none
      → m.spec.email_recipients ≡ []
      → is_cooling_down m.status.last_notification_time (S.now w) ≡ false
      → keep needs_notice (
          certificates S m.spec.renewal_threshold_days (S.now w) ns_selector secret_selector w keys)
        ≡ info ∷ infos
      → reconcile S key w
        ≡ write_and_wait S key
            (checked m.status
              (certificates S m.spec.renewal_threshold_days
                (S.now w)
                ns_selector
                secret_selector
                w
                keys)
              (S.now w)
              (some (S.now w)))
            w
  reconcile-unscoped parses key w {m} {keys} {ns_selector} {secret_selector} {info} {infos} read all
        prepared decoded p q warm due =
      subst (λ (r : Unit {0} × S.World). reconcile S key w ≡ write_and_wait S key recorded r.1)
        (send_aggregated_notifications-unscoped m (info ∷ infos) w p q)
        (reconcile-loud S parses key w read all prepared decoded warm due)
    where
      recorded : Status
      recorded =
          checked m.status
            (certificates S m.spec.renewal_threshold_days (S.now w) ns_selector secret_selector w
              keys)
            (S.now w) (some (S.now w))
