-- ===== src/Cert/Services.antt =====
-- What the certificate monitor takes from outside the repository: the controller-runtime client and
-- its retry helper, package labels, PEM and X.509 decoding, JSON, HTTP and SMTP, and the clock.
-- `World` is the cluster with everything around it: a read sees it as it stands, a write or a
-- request to a server may change all of it.
use nacho_operators.Common.{String, Bool, Option, List, Error, Result, Go, NamespacedName, Labels}
use nacho_operators.Common.Dict.{Dict}
use nacho_operators.Cert.Types.{
  Time, CertificateMonitor, Secret, Certificate, OpsgenieAlertPayload, Request, Response, Mail,
}

pub record Services : Type 1 where
  pub World : Type 0
  pub now : World → Time
  pub labels : Labels
  pub open labels use *
  pub is_not_found : Error → Bool
  pub ignore_not_found : Error → Option Error
  pub get_monitor : NamespacedName → World → Result CertificateMonitor
  pub list_secrets : World → Result (List Secret)
  pub get_secret : NamespacedName → World → Result Secret
  pub get_namespace_labels : String → World → Result (Dict String)
  pub status_update : CertificateMonitor → Go World (Result (Unit {0}))
  -- `retry.RetryOnConflict(retry.DefaultRetry, …)`
  pub retry_on_conflict : Go World (Result (Unit {0})) → Go World (Result (Unit {0}))
  -- `pem.Decode`, down to the bytes of the block
  pub pem_decode : String → Option String
  pub parse_certificate : String → Result Certificate
  pub marshal_text : String → Result String
  pub marshal_alert : OpsgenieAlertPayload → Result String
  -- `http.NewRequest` refuses a malformed URL.
  pub new_request : String → Option Error
  pub http_do : Request → Go World (Result Response)
  pub send_mail : Mail → Go World (Result (Unit {0}))
