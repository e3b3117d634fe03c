-- ===== src/Cert/Reconcile.antt =====
-- Reconcile of cert-monitor-operator/internal/controller/certificatemonitor_controller.go.
use nacho_operators.Common.{
  ◌-◌, ◌*◌, Bool, true, false, Option, none, some, [], ◌∷◌, ltb, if◌then◌else◌, Result, err, check,
  Go, pure, attempt, Outcome, again_after, again_with, fails_with, hour, NamespacedName,
}
use nacho_operators.Cert.Types.{Time, Status, CertificateMonitor}
use nacho_operators.Cert.Services.{Services}
use nacho_operators.Cert.Selectors.{list_all_secrets, prepare_selectors}
use nacho_operators.Cert.Scan.{Found, nothing_found, scan}
use nacho_operators.Cert.Status.{desired_status, must_update}
use nacho_operators.Cert.Notify.{Infos, send_aggregated_notifications}

-- `time.Since(LastNotificationTime.Time) < notificationCooldown`
unfoldable pub is_cooling_down : Option Time → Time → Bool
is_cooling_down none now = false
is_cooling_down (some last) now = ltb (now.instant - last.instant) (24 * hour)

module _ (S : Services) where
  open S use {World, Selector, now, ignore_not_found, get_monitor, status_update, retry_on_conflict}

  -- The notification, and `notificationSent`.
  unfoldable pub notify : CertificateMonitor → Infos → Go World Bool
  notify m [] w = (false, w)
  notify m (info ∷ infos) w =
      if is_cooling_down m.status.last_notification_time (now w)
      then (false, w)
      else let (_, w') = send_aggregated_notifications S m (info ∷ infos) w in (true, w')

  unfoldable pub write_status : NamespacedName → Status → Go World (Result (Unit {0}))
  write_status key desired = retry_on_conflict λ w.
      check (get_monitor key w) (λ e. (err e, w))
        λ current. status_update (record current { status = desired }) w

  unfoldable pub publish : NamespacedName → Status → Status → Bool → Go World Outcome
  publish key original desired sent =
      if must_update original desired sent
      then attempt (write_status key desired) (λ e. pure (again_with e))
          (λ _. pure (again_after hour))
      else pure (again_after hour)

  -- From the loop over the secrets to the end.
  unfoldable pub monitor_secrets :
      NamespacedName → CertificateMonitor → Found → Time → Go World Outcome
  monitor_secrets key m found started w =
      let (sent, w') = notify m found.to_notify w in
      publish key m.status (desired_status m.status found.monitored started sent) sent w'

  unfoldable pub reconcile : NamespacedName → Go World Outcome
  reconcile key w =
      check (get_monitor key w) (λ e. (fails_with (ignore_not_found e), w))
        λ m.
          check (list_all_secrets S w) (λ e. (fails_with (some e), w))
            λ keys.
              check (prepare_selectors S m.spec) (λ e. (fails_with (some e), w))
                λ (selectors : Selector × Selector).
                  let found =
                    scan S m.spec.renewal_threshold_days (now w) selectors.0 selectors.1 keys w
                      nothing_found in
                  monitor_secrets key m found (now w) w
