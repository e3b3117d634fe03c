-- ===== src/Cert/Initial.antt =====
-- cert-monitor-operator-INITIAL, where it differs from cert-monitor-operator: the lock of the leader
-- election in cmd/main.go, and the errors of refused requests in pkg/notifications/notifications.go.
-- Both errors take a text with the body of the answer for the format of fmt.Errorf.
use nacho_operators.Common.{
  ℕ, String, ◌<>◌, none, some, [], ◌∷◌, if◌then◌else◌, Error, errorf, wrapped, Result, ok, err,
  check, Go, pure, attempt,
}
use nacho_operators.Common.Int.{pos}
use nacho_operators.Common.Strings.{decimal}
use nacho_operators.Common.Manager.{
  ManagerOptions, Flags, generation_changed_predicate, Builder, Exit, Runtime, options_with,
  or_exit, with_manager, serve,
}
use nacho_operators.Cert.Types.{OpsgenieAlertPayload, Request, Response}
use nacho_operators.Cert.Services.{Services}
use nacho_operators.Cert.Notifications.{is_success, api_url}

unfoldable pub manager_options : Flags → ManagerOptions
unfolding options_with
manager_options f = options_with f "a7faf73f.masorange.com" []

unfoldable pub builder : Builder
builder = record {
  for_kind = "CertificateMonitor";
  predicates = generation_changed_predicate ∷ [];
  owns = [];
  watches = [];
}

module _ (R : Runtime) where
  open R use {World, flags, complete}

  unfoldable pub main : Go World Exit
  unfolding manager_options builder serve
  main =
      with_manager R (manager_options flags)
        λ mgr. or_exit (complete mgr builder) (λ _. serve R mgr (pure tt))

-- `status` is the status line of an answer with a status code.
module _ (S : Services) (status : ℕ → String) where
  open S use {World, marshal_text, marshal_alert, new_request, http_do}

  abbrev pub webhook_refused : Response → Error
  webhook_refused response = errorf (
      "webhook request failed with status: "
      <> status response.status_code
      <> ", body: "
      <> response.body)

  abbrev pub opsgenie_refused : Response → Error
  opsgenie_refused response = errorf (
      "Opsgenie API request failed with status code "
      <> decimal (pos response.status_code)
      <> ". Response: "
      <> response.body)

  unfoldable pub post_and_read :
      (Error → Error)
      → (Error → Error)
      → (Response → Error)
      → Request
      → Go World (Result (Unit {0}))
  post_and_read not_created not_sent refused request w = elim (new_request request.url) [
    | some e ↦ (err (not_created e), w)
    | none ↦
        attempt (http_do request) (λ e. pure (err (not_sent e)))
          (λ response.
            pure (if is_success response.status_code then ok tt else err (refused response)))
          w
  ]

  unfoldable pub send_aggregated_webhook_notification :
      String → String → Go World (Result (Unit {0}))
  send_aggregated_webhook_notification endpoint aggregated_message w =
      check (marshal_text aggregated_message) (λ e. (err e, w))
        λ body.
          post_and_read (λ e. e) (λ e. e) webhook_refused
            (record { url = endpoint; authorization = none; body = body }) w

  unfoldable pub send_opsgenie_alert :
      String → String → OpsgenieAlertPayload → Go World (Result (Unit {0}))
  send_opsgenie_alert api_key region payload w =
      check (marshal_alert payload)
        (λ e. (err (wrapped "failed to marshal Opsgenie payload: %w" e), w))
        λ body.
          post_and_read (wrapped "failed to create Opsgenie request: %w")
            (wrapped "failed to send Opsgenie alert request: %w") opsgenie_refused
            (record {
              url = api_url region;
              authorization = some ("GenieKey " <> api_key);
              body = body;
            })
            w
