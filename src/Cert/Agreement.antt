-- ===== src/Cert/Agreement.antt =====
-- The two copies of the certificate monitor deliver alike: they differ in the text of an error only.
use nacho_operators.Common.{
  ℕ, String, ◌≡◌, refl, ◌↔◌, Bool-cases, inl, inr, wrapped, errorf, ◌<>◌, Option, none, some, arith,
  Error, Result, ok, err, Go,
}
use nacho_operators.Cert.Types.{OpsgenieAlertPayload, Request, Response}
use nacho_operators.Cert.Services.{Services}
use nacho_operators.Cert.Notifications.{is_success, api_url, post}
use nacho_operators.Cert.Notifications
use nacho_operators.Cert.Initial.{webhook_refused, opsgenie_refused, post_and_read}
use nacho_operators.Cert.Initial
use nacho_operators.Cert.Delivery.{IsAccepted, send_aggregated_webhook_notification_iff}

-- Both succeed or both fail.
abbrev SameVerdict : Result (Unit {0}) → Result (Unit {0}) → Type 0
SameVerdict (ok a) (ok b) = Unit
SameVerdict (err e) (err f) = Unit
SameVerdict _ _ = ⊥

SameVerdict-ok : (r s : Result (Unit {0})) → SameVerdict r s → (r ≡ ok tt) ↔ (s ≡ ok tt)
SameVerdict-ok (ok a) (ok b) h = (λ e. refl, λ e. refl)
SameVerdict-ok (ok a) (err e) h = absurd h
SameVerdict-ok (err e) (ok b) h = absurd h
SameVerdict-ok (err e) (err f) h = (λ p. absurd (ground arith), λ p. absurd (ground arith))

module _ (S : Services) (status : ℕ → String) where
  -- The two calls leave one world and agree on success.
  abbrev pub Agree :
      Go S.World (Result (Unit {0})) → Go S.World (Result (Unit {0})) → S.World → Type 0
  Agree a b w = ((a w).1 ≡ (b w).1) × (((a w).0 ≡ ok tt) ↔ ((b w).0 ≡ ok tt))

  post-Agree :
      (not_created not_sent : Error → Error) (refused : Response → Error) (refused' : Error)
      (request : Request) (w : S.World)
      → Agree
          (post_and_read S status not_created not_sent refused request)
          (post S not_created not_sent refused' request)
          w
  unfolding post_and_read post
  post-Agree not_created not_sent refused refused' request w =
      by_request (S.new_request request.url) refl (S.http_do request w).0 refl
    where
      by_request :
          (o : Option Error)
          → S.new_request request.url ≡ o
          → (r : Result Response) → (S.http_do request w).0 ≡ r
          → Agree
              (post_and_read S status not_created not_sent refused request)
              (post S not_created not_sent refused' request)
              w
      by_request (some e) p r q =
          rw (post_and_read, post, p) (refl, SameVerdict-ok (err _) (err _) tt)
      by_request none p (err e) q =
          rw (post_and_read, post, p, q) (refl, SameVerdict-ok (err _) (err _) tt)
      by_request none p (ok response) q = elim (Bool-cases (is_success response.status_code)) [
        | inl b ↦ rw (post_and_read, post, p, q, b) (refl, SameVerdict-ok (ok tt) (ok tt) tt)
        | inr b ↦ rw (post_and_read, post, p, q, b) (refl, SameVerdict-ok (err _) (err _) tt)
      ]

  webhook-Agree :
      (endpoint text : String) (w : S.World)
      → Agree
          (Initial.send_aggregated_webhook_notification S status endpoint text)
          (Notifications.send_aggregated_webhook_notification S endpoint text)
          w
  unfolding Initial.send_aggregated_webhook_notification
      Notifications.send_aggregated_webhook_notification
  webhook-Agree endpoint text w = by_body (S.marshal_text text) refl
    where
      by_body :
          (r : Result String)
          → S.marshal_text text ≡ r
          → Agree
              (Initial.send_aggregated_webhook_notification S status endpoint text)
              (Notifications.send_aggregated_webhook_notification S endpoint text)
              w
      by_body (err e) p =
          rw
            (
              Initial.send_aggregated_webhook_notification,
              Notifications.send_aggregated_webhook_notification, p,
            )
            (refl, SameVerdict-ok (err e) (err e) tt)
      by_body (ok body) p =
          rw
            (
              Initial.send_aggregated_webhook_notification,
              Notifications.send_aggregated_webhook_notification, p,
            )
            (post-Agree (λ e. e) (λ e. e) (webhook_refused S status)
              (errorf "webhook request failed with status: %s, body: %s")
              (record { url = endpoint; authorization = none; body = body }) w)

  opsgenie-Agree :
      (api_key region : String) (payload : OpsgenieAlertPayload) (w : S.World)
      → Agree
          (Initial.send_opsgenie_alert S status api_key region payload)
          (Notifications.send_opsgenie_alert S api_key region payload)
          w
  unfolding Initial.send_opsgenie_alert Notifications.send_opsgenie_alert
  opsgenie-Agree api_key region payload w = by_body (S.marshal_alert payload) refl
    where
      by_body :
          (r : Result String)
          → S.marshal_alert payload ≡ r
          → Agree
              (Initial.send_opsgenie_alert S status api_key region payload)
              (Notifications.send_opsgenie_alert S api_key region payload)
              w
      by_body (err e) p =
          rw (Initial.send_opsgenie_alert, Notifications.send_opsgenie_alert, p)
            (
              refl,
              SameVerdict-ok (err (wrapped "failed to marshal Opsgenie payload: %w" e))
                  (err (wrapped "failed to marshal Opsgenie payload: %w" e)) tt,
            )
      by_body (ok body) p =
          rw (Initial.send_opsgenie_alert, Notifications.send_opsgenie_alert, p)
            (post-Agree (wrapped "failed to create Opsgenie request: %w")
              (wrapped "failed to send Opsgenie alert request: %w") (opsgenie_refused S status)
              (errorf "Opsgenie API request failed with status code %d. Response: %s")
              (record {
                url = api_url region;
                authorization = some ("GenieKey " <> api_key);
                body = body;
              })
              w)

  -- In both copies of the operator a webhook notification counts as delivered exactly if its text can be
  -- marshalled, the endpoint is a URL, and the endpoint answers the request with a status from 200 to
  -- 299; and the copies make the same requests for it and for an Opsgenie alert, with the same success.
  pub send-Agree :
      (endpoint text : String) (w : S.World)
      → (((Notifications.send_aggregated_webhook_notification S endpoint text w).0 ≡ ok tt)
          ↔ IsAccepted S w endpoint text)
        × Agree
            (Initial.send_aggregated_webhook_notification S status endpoint text)
            (Notifications.send_aggregated_webhook_notification S endpoint text)
            w
        × ((api_key region : String) (payload : OpsgenieAlertPayload)
            → Agree
                (Initial.send_opsgenie_alert S status api_key region payload)
                (Notifications.send_opsgenie_alert S api_key region payload)
                w)
  send-Agree endpoint text w = (
    send_aggregated_webhook_notification_iff S w endpoint text,
    webhook-Agree endpoint text w,
    λ api_key region payload. opsgenie-Agree api_key region payload w,
  )
