-- ===== src/Cert/DeepEqual.antt =====
-- `reflect.DeepEqual` on the status of a CertificateMonitor, type by type; called by Reconcile of
-- cert-monitor-operator/internal/controller/certificatemonitor_controller.go.
use nacho_operators.Common.{◌==◌, Bool, ◌&&◌, Option, List}
use nacho_operators.Common.DeepEqual.{bool, integer, time, optional, list, condition}
use nacho_operators.Cert.Types.{MonitoredCertificateInfo, Status}

unfoldable pub info : MonitoredCertificateInfo → MonitoredCertificateInfo → Bool
info a b =
    (a.namespace == b.namespace)
    && (a.secret_name == b.secret_name)
    && (a.secret_key == b.secret_key)
    && (a.subject_cn == b.subject_cn)
    && (a.issuer_cn == b.issuer_cn)
    && time a.expires_at b.expires_at
    && integer a.days_until_expiration b.days_until_expiration
    && bool a.is_expired b.is_expired
    && bool a.is_near_expiration b.is_near_expiration

-- A nil slice and an empty one differ.
unfoldable pub certificates :
    Option (List MonitoredCertificateInfo) → Option (List MonitoredCertificateInfo) → Bool
certificates = optional (list info)

unfoldable pub status : Status → Status → Bool
status a b =
    list condition a.conditions b.conditions
    && certificates a.monitored_certificates b.monitored_certificates
    && time a.last_checked b.last_checked
    && optional time a.last_notification_time b.last_notification_time
