-- ===== src/Cert/Tests/Data.antt =====
-- Monitors and clusters for the tests.
use nacho_operators.Common.{
  ℕ, ◌*◌, ◌+◌, true, false, none, some, [], ◌∷◌, LabelSelector, NamespacedName, hour,
}
use nacho_operators.Common.Int.{pos}
use nacho_operators.Cert.Types.{
  utc, local, Spec, MonitoredCertificateInfo, Secret, Status, CertificateMonitor,
}
use nacho_operators.Cert.Scan.{day}
use nacho_operators.Cert.Memory.{Cluster}

abbrev pub key : NamespacedName
key = record { namespace = "ops"; name = "certs" }

abbrev pub everything : LabelSelector
everything = record { match_labels = []; match_expressions = [] }

abbrev pub production : LabelSelector
production = record { match_labels = ("env", "prod") ∷ []; match_expressions = [] }

abbrev pub spec : Spec
spec = record {
  namespace_selector = none;
  secret_selector = none;
  renewal_threshold_days = pos 30;
  notification_endpoint = "http://slack";
  email_recipients = "ops@example.com" ∷ [];
  requeue_interval = "12h";
  opsgenie = none;
  notification_namespace_selector = some production;
}

abbrev pub status_notified_at : ℕ → Status
status_notified_at t = record {
  conditions = [];
  monitored_certificates = none;
  last_checked = record { instant = t; form = local };
  last_notification_time = some (record { instant = t; form = local });
}

abbrev pub monitor_of : Spec → ℕ → CertificateMonitor
monitor_of s t = record {
  namespace = "ops";
  name = "certs";
  spec = s;
  status = status_notified_at t;
}

abbrev pub tls : Secret
tls = record {
  namespace = "web";
  name = "tls";
  labels = [];
  entries = ("tls.crt", "web.example.com") ∷ ("tls.key", "key") ∷ [];
}

abbrev pub opsgenie_key : Secret
opsgenie_key = record {
  namespace = "ops";
  name = "opsgenie";
  labels = [];
  entries = ("api", " secret\n") ∷ [];
}

-- The certificate expires on day 100.
abbrev pub cluster : Spec → ℕ → ℕ → Cluster
cluster s notified now = record {
  nanoseconds = now;
  monitor = monitor_of s notified;
  secrets = tls ∷ opsgenie_key ∷ [];
  namespaces = ("web", ("env", "prod") ∷ []) ∷ ("ops", []) ∷ [];
  requests = [];
  mails = [];
}

abbrev pub info_on : ℕ → MonitoredCertificateInfo
info_on d = record {
  namespace = "web";
  secret_name = "tls";
  secret_key = "tls.crt";
  subject_cn = "web.example.com";
  issuer_cn = "ca";
  expires_at = record { instant = 100 * day; form = utc };
  days_until_expiration = pos d;
  is_expired = false;
  is_near_expiration = true;
}

abbrev pub warm : Cluster
warm = cluster spec (70 * day) (80 * day)

abbrev pub cooling : Cluster
cooling = cluster spec (80 * day) (80 * day + hour)
