-- ===== src/Cert/Types.antt =====
-- The API types of cert-monitor-operator/api/v1alpha1/certificatemonitor_types.go, the payload of
-- cert-monitor-operator/pkg/notifications/notifications.go, and of the Kubernetes, X.509 and HTTP
-- types the fields that the operator reads.
use nacho_operators.Common.{String, Bool, Option, List, LabelSelector}
use nacho_operators.Common.Dict.{Dict}
use nacho_operators.Common.Int.{ℤ}
pub use nacho_operators.Common.Meta.{Form, utc, local, clock, Time, Condition, Request, Response}

pub record OpsgenieApiKeySecretRef : Type 0 where
  pub name : String
  pub namespace : String
  pub key : String

pub record OpsgenieConfig : Type 0 where
  pub enabled : Bool
  pub api_key_secret_ref : Option OpsgenieApiKeySecretRef
  pub region : String
  pub priority : String

pub record Spec : Type 0 where
  pub namespace_selector : Option LabelSelector
  pub secret_selector : Option LabelSelector
  pub renewal_threshold_days : ℤ
  pub notification_endpoint : String
  pub email_recipients : List String
  pub requeue_interval : String
  pub opsgenie : Option OpsgenieConfig
  pub notification_namespace_selector : Option LabelSelector

pub record MonitoredCertificateInfo : Type 0 where
  pub namespace : String
  pub secret_name : String
  pub secret_key : String
  pub subject_cn : String
  pub issuer_cn : String
  pub expires_at : Time
  pub days_until_expiration : ℤ
  pub is_expired : Bool
  pub is_near_expiration : Bool

-- The list of certificates is `none` for a nil slice: `reflect.DeepEqual` tells it from an empty one.
pub record Status : Type 0 where
  pub conditions : List Condition
  pub monitored_certificates : Option (List MonitoredCertificateInfo)
  pub last_checked : Time
  pub last_notification_time : Option Time

pub record CertificateMonitor : Type 0 where
  pub namespace : String
  pub name : String
  pub spec : Spec
  pub status : Status

-- The entries of `data` stand in the order in which `range` visits them.
pub record Secret : Type 0 where
  pub namespace : String
  pub name : String
  pub labels : Dict String
  pub entries : Dict String

pub record Certificate : Type 0 where
  pub not_after : Time
  pub subject_cn : String
  pub issuer_cn : String

pub record OpsgenieAlertPayload : Type 0 where
  pub message : String
  pub alias : String
  pub description : String
  pub priority : String
  pub tags : List String
  pub details : Dict String

pub record Mail : Type 0 where
  pub server : String
  pub from : String
  pub to : List String
  pub message : String
