-- ===== src/Cert/Status.antt =====
-- The comparison of the old status with the new one, and the new one, in Reconcile of
-- cert-monitor-operator/internal/controller/certificatemonitor_controller.go.
use nacho_operators.Common.{
  Bool, true, not, ◌&&◌, ◌||◌, Option, none, some, List, nat_eq, if◌then◌else◌,
}
use nacho_operators.Cert.DeepEqual
use nacho_operators.Cert.Types.{Time, MonitoredCertificateInfo, Status}

unfoldable pub desired_status : Status → List MonitoredCertificateInfo → Time → Bool → Status
desired_status original monitored now sent = record original {
  monitored_certificates = some monitored;
  last_checked = now;
  last_notification_time = if sent then some now else original.last_notification_time;
}

-- `LastNotificationTime == nil || !LastNotificationTime.Equal(…)`, which compares instants.
abbrev notified_at_another_time : Option Time → Option Time → Bool
notified_at_another_time none new = true
notified_at_another_time (some old) none = true
notified_at_another_time (some old) (some new) = not (nat_eq old.instant new.instant)

unfoldable pub meaningful_change : Status → Status → Bool → Bool
meaningful_change original desired sent =
    not (DeepEqual.certificates original.monitored_certificates desired.monitored_certificates)
    || (sent
        && notified_at_another_time original.last_notification_time desired.last_notification_time)

-- The condition of the status update.
unfoldable pub must_update : Status → Status → Bool → Bool
must_update original desired sent =
    not (DeepEqual.status original desired) && meaningful_change original desired sent
