-- ===== src/Cert/Notifications.antt =====
-- cert-monitor-operator/pkg/notifications/notifications.go. A client's `Do` is one request to the
-- outside, with its timeout; the body of an answer goes into the text of an error only.
use nacho_operators.Common.{
  ℕ, String, ◌<>◌, ◌==◌, Bool, ◌&&◌, ◌||◌, none, some, List, [], ◌∷◌, ltb, leb, length,
  if◌then◌else◌, Error, errorf, wrapped, Result, ok, err, check, Go, pure, attempt,
}
use nacho_operators.Common.Int.{pos}
use nacho_operators.Common.Strings.{join, decimal}
use nacho_operators.Cert.Types.{MonitoredCertificateInfo, OpsgenieAlertPayload, Request, Mail}
use nacho_operators.Cert.Services.{Services}

abbrev smtp_host : String
smtp_host = "smtp.example.com"

abbrev smtp_port : String
smtp_port = "587"

abbrev smtp_username : String
smtp_username = "alert@example.com"

abbrev smtp_password : String
smtp_password = "your-smtp-password"

abbrev from_email : String
from_email = "alert@example.com"

abbrev pub opsgenie_default_api_url : String
opsgenie_default_api_url = "https://api.opsgenie.com/v2/alerts"

abbrev pub opsgenie_eu_api_url : String
opsgenie_eu_api_url = "https://api.eu.opsgenie.com/v2/alerts"

-- `resp.StatusCode >= 200 && resp.StatusCode < 300`
unfoldable pub is_success : ℕ → Bool
is_success status = leb 200 status && ltb status 300

-- `strings.ToUpper(region) == "EU"`: no rune but e and u has the upper case E or U.
unfoldable pub is_eu : String → Bool
is_eu region = region == "EU" || region == "Eu" || region == "eU" || region == "eu"

unfoldable pub api_url : String → String
api_url region = if is_eu region then opsgenie_eu_api_url else opsgenie_default_api_url

unfoldable pub alert_priority : String → String
alert_priority priority = if priority == "" then "P3" else priority

unfoldable pub alert_payload :
    String
    → String
    → String
    → String
    → List MonitoredCertificateInfo
    → String
    → String
    → OpsgenieAlertPayload
alert_payload priority message description alias certs cr_namespace cr_name = record {
  message = message;
  alias = alias;
  description = description;
  priority = alert_priority priority;
  tags = "kubernetes" ∷ "certificate-monitor" ∷ "operator" ∷ cr_namespace ∷ cr_name ∷ [];
  details =
      ("customResourceNamespace", cr_namespace)
      ∷ ("customResourceName", cr_name)
      ∷ ("expiringCertificatesCount", decimal (pos (length certs)))
      ∷ [];
}

unfoldable pub mail_text : List String → String → String → String
mail_text recipients subject aggregated_message =
    "From: "
    <> from_email
    <> "\r\n"
    <> "To: "
    <> join recipients ","
    <> "\r\n"
    <> "Subject: "
    <> subject
    <> "\r\n"
    <> "MIME-version: 1.0;\nContent-Type: text/plain; charset=\"UTF-8\";\r\n"
    <> "\r\n"
    <> aggregated_message

unfoldable pub mail_to : List String → String → String → Mail
mail_to recipients subject aggregated_message = record {
  server = smtp_host <> ":" <> smtp_port;
  from = from_email;
  to = recipients;
  message = mail_text recipients subject aggregated_message;
}

module _ (S : Services) where
  open S use {World, marshal_text, marshal_alert, new_request, http_do, send_mail}

  -- `http.NewRequest`, then `client.Do`, then the test of the status code.
  unfoldable pub post :
      (Error → Error) → (Error → Error) → Error → Request → Go World (Result (Unit {0}))
  post not_created not_sent refused request w = elim (new_request request.url) [
    | some e ↦ (err (not_created e), w)
    | none ↦
        attempt (http_do request) (λ e. pure (err (not_sent e)))
          (λ response. pure (if is_success response.status_code then ok tt else err refused)) w
  ]

  unfoldable pub send_aggregated_webhook_notification :
      String → String → Go World (Result (Unit {0}))
  send_aggregated_webhook_notification endpoint aggregated_message w =
      check (marshal_text aggregated_message) (λ e. (err e, w))
        λ body.
          post (λ e. e) (λ e. e) (errorf "webhook request failed with status: %s, body: %s")
            (record { url = endpoint; authorization = none; body = body }) w

  unfoldable pub send_aggregated_email_notification :
      List String → String → String → Go World (Result (Unit {0}))
  send_aggregated_email_notification [] subject aggregated_message w = (ok tt, w)
  send_aggregated_email_notification (r ∷ rs) subject aggregated_message w =
      if smtp_host == ""
        || smtp_port == ""
        || smtp_username == ""
        || smtp_password == ""
        || from_email == ""
      then (err (errorf "SMTP configuration is incomplete."), w)
      else send_mail (mail_to (r ∷ rs) subject aggregated_message) w

  unfoldable pub send_opsgenie_alert :
      String → String → OpsgenieAlertPayload → Go World (Result (Unit {0}))
  send_opsgenie_alert api_key region payload w =
      check (marshal_alert payload)
        (λ e. (err (wrapped "failed to marshal Opsgenie payload: %w" e), w))
        λ body.
          post (wrapped "failed to create Opsgenie request: %w")
            (wrapped "failed to send Opsgenie alert request: %w")
            (errorf "Opsgenie API request failed with status code %d. Response: %s")
            (record {
              url = api_url region;
              authorization = some ("GenieKey " <> api_key);
              body = body;
            })
            w
