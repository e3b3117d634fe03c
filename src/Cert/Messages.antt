-- ===== src/Cert/Messages.antt =====
-- The texts that sendAggregatedNotifications of cert-monitor-operator/internal/controller/
-- certificatemonitor_controller.go writes.
use nacho_operators.Common.{zero, suc, String, ◌<>◌, List, [], ◌∷◌, length, if◌then◌else◌}
use nacho_operators.Common.Int.{ℤ, pos, negsuc}
use nacho_operators.Common.Strings.{decimal}
use nacho_operators.Cert.Types.{MonitoredCertificateInfo, CertificateMonitor}

-- `n * -1`
abbrev pub negate : ℤ → ℤ
negate (pos zero) = pos 0
negate (pos (suc n)) = negsuc n
negate (negsuc n) = pos (suc n)

abbrev full_name : CertificateMonitor → String
full_name m = m.namespace <> "/" <> m.name

unfoldable pub days_text : String → MonitoredCertificateInfo → String
days_text expired info =
    if info.is_expired
    then expired <> " (" <> decimal (negate info.days_until_expiration) <> " days ago)"
    else decimal info.days_until_expiration <> " days left"

-- One line of the webhook's and of the mail's text.
unfoldable pub starred_line : MonitoredCertificateInfo → String
starred_line info =
    "  • *"
    <> info.namespace
    <> "/"
    <> info.secret_name
    <> "* (Key: *"
    <> info.secret_key
    <> "*, Subject: *"
    <> info.subject_cn
    <> "*) - "
    <> days_text "*EXPIRED*" info
    <> "\n"

-- One line of the alert's text.
unfoldable pub plain_line : MonitoredCertificateInfo → String
plain_line info =
    "  - "
    <> info.namespace
    <> "/"
    <> info.secret_name
    <> " (Key: "
    <> info.secret_key
    <> ", Subject: "
    <> info.subject_cn
    <> ") - "
    <> days_text "EXPIRED" info
    <> "\n"

abbrev pub write_lines :
    (MonitoredCertificateInfo → String) → List MonitoredCertificateInfo → String
write_lines line [] = ""
write_lines line (info ∷ infos) = line info <> write_lines line infos

abbrev count : List MonitoredCertificateInfo → String
count infos = decimal (pos (length infos))

unfoldable pub webhook_text : CertificateMonitor → String → List MonitoredCertificateInfo → String
webhook_text m selector infos =
    "🚨 Certificate Expiry Alert (CR: *"
    <> full_name m
    <> "*, Scoped by Selector: *"
    <> selector
    <> "*):\nFound *"
    <> count infos
    <> "* certificates matching scope, expiring within *"
    <> decimal m.spec.renewal_threshold_days
    <> " days* or already expired:\n"
    <> write_lines starred_line infos

unfoldable pub email_text : CertificateMonitor → List MonitoredCertificateInfo → String
email_text m infos =
    "🚨 Certificate Expiry Alert (CR: *"
    <> full_name m
    <> "*) - All Monitored Scopes:\nFound *"
    <> count infos
    <> "* certificates expiring within *"
    <> decimal m.spec.renewal_threshold_days
    <> " days* or already expired:\n"
    <> write_lines starred_line infos

unfoldable pub email_subject : CertificateMonitor → List MonitoredCertificateInfo → String
email_subject m infos =
    "Certificate Expiry Alert (" <> full_name m <> ") - " <> count infos <> " Certificates Overall"

unfoldable pub alert_text : CertificateMonitor → String → List MonitoredCertificateInfo → String
alert_text m selector infos =
    "Certificate Expiry Alert (CR: "
    <> full_name m
    <> ", Scoped by Selector: "
    <> selector
    <> "):\nFound "
    <> count infos
    <> " certificates matching scope, expiring within "
    <> decimal m.spec.renewal_threshold_days
    <> " days or already expired:\n"
    <> write_lines plain_line infos

unfoldable pub alert_title : CertificateMonitor → String → List MonitoredCertificateInfo → String
alert_title m selector infos =
    "Cert Expiry (Selector: "
    <> selector
    <> "): "
    <> full_name m
    <> " - "
    <> count infos
    <> " certs"

unfoldable pub alert_alias : CertificateMonitor → String
alert_alias m = "cert-monitor-" <> m.namespace <> "-" <> m.name <> "-selectorbased"
