-- ===== src/Cert/Notify.antt =====
-- sendAggregatedNotifications and getOpsgenieAPIKey of cert-monitor-operator/internal/controller/
-- certificatemonitor_controller.go. What goes wrong while notifying is logged only.
use nacho_operators.Common.{
  String, ◌==◌, Bool, false, Option, none, some, List, [], ◌∷◌, if◌then◌else◌, LabelSelector,
  NamespacedName, errorf, wrapped, Result, ok, err, check, Go, pure, attempt, ◌>>◌,
}
use nacho_operators.Common.Dict
use nacho_operators.Common.Dict.{Dict}
use nacho_operators.Common.Strings.{trim_space}
use nacho_operators.Cert.Types.{
  OpsgenieApiKeySecretRef, OpsgenieConfig, MonitoredCertificateInfo, CertificateMonitor,
}
use nacho_operators.Cert.Services.{Services}
use nacho_operators.Cert.Messages.{
  webhook_text, email_text, email_subject, alert_text, alert_title, alert_alias,
}
use nacho_operators.Cert.Notifications.{
  alert_payload, send_aggregated_webhook_notification, send_aggregated_email_notification,
  send_opsgenie_alert,
}

abbrev pub Infos : Type 0
Infos = List MonitoredCertificateInfo

abbrev pub key_reference : String → OpsgenieApiKeySecretRef → NamespacedName
key_reference cr_namespace secret_ref = record {
  namespace = if secret_ref.namespace == "" then cr_namespace else secret_ref.namespace;
  name = secret_ref.name;
}

-- `secret.Data[secretRef.Key]`, trimmed
unfoldable pub key_in : String → Dict String → Result String
key_in key entries = elim (Dict.lookup key entries) [
  | none ↦ err (errorf "key %s not found in Opsgenie API key secret %s/%s")
  | some bytes ↦
      let api_key = trim_space bytes in
      if api_key == "" then err (errorf "API key is empty in secret %s/%s, key %s") else ok api_key
]

module _ (S : Services) where
  open S use {
    World, Selector, label_selector_as_selector, matches, selector_string, get_namespace_labels,
    get_secret,
  }

  -- A selector that is given and valid.
  unfoldable pub notification_scope : Option LabelSelector → Option Selector
  notification_scope none = none
  notification_scope (some given) =
      check (label_selector_as_selector (some given)) (λ _. none) (λ s. some s)

  -- A namespace that cannot be read is out of scope.
  unfoldable pub is_in_scope : Selector → World → String → Bool
  is_in_scope selector w namespace =
      check (get_namespace_labels namespace w) (λ _. false) (λ ls. matches selector ls)

  -- The loop with `namespaceMatchesCache`.
  unfoldable pub scope_loop : Selector → World → Dict Bool → Infos → Infos
  scope_loop selector w cache [] = []
  scope_loop selector w cache (info ∷ infos) = elim (Dict.lookup info.namespace cache) [
    | some matched ↦
        let rest = scope_loop selector w cache infos in if matched then info ∷ rest else rest
    | none ↦
        let matched = is_in_scope selector w info.namespace in
        let rest = scope_loop selector w (Dict.insert info.namespace matched cache) infos in
        if matched then info ∷ rest else rest
  ]

  unfoldable pub get_opsgenie_api_key :
      String → Option OpsgenieApiKeySecretRef → World → Result String
  get_opsgenie_api_key cr_namespace none w = err (errorf "Opsgenie APIKeySecretRef is nil")
  get_opsgenie_api_key cr_namespace (some secret_ref) w =
      if secret_ref.name == ""
      then err (errorf "Opsgenie APIKeySecretRef.Name is empty")
      else if secret_ref.key == ""
      then err (errorf "Opsgenie APIKeySecretRef.Key is empty")
      else check (get_secret (key_reference cr_namespace secret_ref) w)
          (λ e. err (wrapped "failed to get Opsgenie API key secret %s/%s: %w" e))
          (λ secret. key_in secret_ref.key secret.entries)

  abbrev logged : Go World (Result (Unit {0})) → Go World (Unit {0})
  logged call = attempt call (λ _. pure tt) (λ _. pure tt)

  unfoldable pub notify_webhook : CertificateMonitor → Option Selector → Infos → Go World (Unit {0})
  notify_webhook m (some selector) (info ∷ infos) =
      if m.spec.notification_endpoint == ""
      then pure tt
      else logged (
          send_aggregated_webhook_notification S m.spec.notification_endpoint
            (webhook_text m (selector_string selector) (info ∷ infos)))
  notify_webhook m _ _ = pure tt

  unfoldable pub notify_email : CertificateMonitor → Infos → Go World (Unit {0})
  notify_email m infos = elim m.spec.email_recipients [
    | [] ↦ pure tt
    | r ∷ rs ↦ elim infos [
      | [] ↦ pure tt
      | i ∷ is ↦ logged (
          send_aggregated_email_notification S (r ∷ rs) (email_subject m (i ∷ is))
            (email_text m (i ∷ is)))
    ]
  ]

  unfoldable pub alert :
      CertificateMonitor → OpsgenieConfig → Selector → Infos → Go World (Unit {0})
  alert m opsgenie selector infos w =
      check (get_opsgenie_api_key m.namespace opsgenie.api_key_secret_ref w) (λ _. (tt, w))
        λ api_key.
          if api_key == ""
          then (tt, w)
          else logged
              (send_opsgenie_alert S api_key opsgenie.region (
                alert_payload opsgenie.priority (alert_title m (selector_string selector) infos)
                  (alert_text m (selector_string selector) infos) (alert_alias m) infos m.namespace
                  m.name))
              w

  unfoldable pub notify_opsgenie :
      CertificateMonitor → Option Selector → Infos → Go World (Unit {0})
  notify_opsgenie m (some selector) (info ∷ infos) = elim m.spec.opsgenie [
    | none ↦ pure tt
    | some opsgenie ↦ if opsgenie.enabled then alert m opsgenie selector (info ∷ infos) else pure tt
  ]
  notify_opsgenie m _ _ = pure tt

  -- The certificates in scope; none without a valid selector.
  unfoldable pub scoped : Option Selector → World → Infos → Infos
  scoped none w infos = []
  scoped (some selector) w infos = scope_loop selector w [] infos

  unfoldable pub send_aggregated_notifications : CertificateMonitor → Infos → Go World (Unit {0})
  send_aggregated_notifications m infos w =
      let scope = notification_scope m.spec.notification_namespace_selector in
      let in_scope = scoped scope w infos in
      (notify_webhook m scope in_scope >> notify_email m infos >> notify_opsgenie m scope in_scope)
        w
