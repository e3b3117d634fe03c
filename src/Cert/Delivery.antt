-- ===== src/Cert/Delivery.antt =====
-- When a notification counts as delivered, and which key an alert is sent with.
use nacho_operators.Common.{
  ◌≤◌, ◌<◌, String, ◌≡◌, ◌≢◌, ◌↔◌, refl, eq_iff, Option, none, some, arith, Error, Result, ok, err,
}
use nacho_operators.Common.Dict
use nacho_operators.Common.Dict.{Dict}
use nacho_operators.Common.Strings.{trim_space}
use nacho_operators.Cert.Types.{OpsgenieApiKeySecretRef, Secret, Request, Response}
use nacho_operators.Cert.Services.{Services}
use nacho_operators.Cert.Notifications.{is_success, post, send_aggregated_webhook_notification}
use nacho_operators.Cert.Notify.{key_reference, key_in, get_opsgenie_api_key}

abbrev pub webhook_request : String → String → Request
webhook_request endpoint body = record { url = endpoint; authorization = none; body = body }

module _ (S : Services) (w : S.World) where
  -- The text can be marshalled, the endpoint is a URL, and it answers with a status from 200 to 299.
  abbrev pub IsAccepted : String → String → Type 0
  IsAccepted endpoint text =
      (body : String) × (S.marshal_text text ≡ ok body)
      × (S.new_request endpoint ≡ none)
      × ((response : Response) × ((S.http_do (webhook_request endpoint body) w).0 ≡ ok response)
          × (200 ≤ response.status_code)
          × (response.status_code < 300))

  delivered_to :
      (endpoint text : String)
      → (send_aggregated_webhook_notification S endpoint text w).0 ≡ ok tt
      → IsAccepted endpoint text
  unfolding send_aggregated_webhook_notification post is_success
  delivered_to endpoint text h = by_body (S.marshal_text text) refl
    where
      by_body : (r : Result String) → S.marshal_text text ≡ r → IsAccepted endpoint text
      by_body (err e) p = absurd (ground arith)
      by_body (ok body) p = by_url (S.new_request endpoint) refl
        where
          by_url : (o : Option Error) → S.new_request endpoint ≡ o → IsAccepted endpoint text
          by_url (some e) q = absurd (ground arith)
          by_url none q = by_response (S.http_do (webhook_request endpoint body) w).0 refl
            where
              by_response :
                  (r : Result Response)
                  → (S.http_do (webhook_request endpoint body) w).0 ≡ r
                  → IsAccepted endpoint text
              by_response (err e) s = absurd (ground arith)
              by_response (ok response) s = (body, p, q, (response, s, ground arith, ground arith))

  delivered_from :
      (endpoint text : String)
      → IsAccepted endpoint text
      → (send_aggregated_webhook_notification S endpoint text w).0 ≡ ok tt
  unfolding send_aggregated_webhook_notification post is_success
  delivered_from endpoint text (body, p, q, (response, s, lower, upper)) = ground arith

  -- A webhook notification counts as delivered exactly if its text can be marshalled, the endpoint
  -- is a URL, and the endpoint answers the request with a status from 200 to 299.
  pub send_aggregated_webhook_notification_iff :
      (endpoint text : String)
      → ((send_aggregated_webhook_notification S endpoint text w).0 ≡ ok tt)
        ↔ IsAccepted endpoint text
  send_aggregated_webhook_notification_iff endpoint text =
      (delivered_to endpoint text, delivered_from endpoint text)

  -- A secret with the referenced name, in the referenced namespace or else in that of the monitor,
  -- has the referenced key, and what it holds is the API key with blanks around it.
  abbrev pub HoldsKey : String → OpsgenieApiKeySecretRef → String → Type 0
  HoldsKey cr_namespace ref api_key =
      (ref.name ≢ "")
      × (ref.key ≢ "")
      × ((secret : Secret) × (S.get_secret (key_reference cr_namespace ref) w ≡ ok secret)
          × ((bytes : String) × (Dict.lookup ref.key secret.entries ≡ some bytes)
              × (trim_space bytes ≡ api_key)
              × (api_key ≢ "")))

  key_in_to :
      (key : String) (entries : Dict String) (api_key : String)
      → key_in key entries ≡ ok api_key
      → (bytes : String) × (Dict.lookup key entries ≡ some bytes)
        × (trim_space bytes ≡ api_key)
        × (api_key ≢ "")
  unfolding key_in
  key_in_to key entries api_key h = by_entry (Dict.lookup key entries) refl
    where
      by_entry :
          (o : Option String)
          → Dict.lookup key entries ≡ o
          → (bytes : String) × (Dict.lookup key entries ≡ some bytes)
            × (trim_space bytes ≡ api_key)
            × (api_key ≢ "")
      by_entry none p = absurd (ground arith)
      by_entry (some bytes) p = (
        bytes,
        p,
        ground (arith, eq_iff (trim_space bytes) ""),
        ground (arith, eq_iff (trim_space bytes) ""),
      )

  api_key_to :
      (cr_namespace : String) (ref : OpsgenieApiKeySecretRef) (api_key : String)
      → get_opsgenie_api_key S cr_namespace (some ref) w ≡ ok api_key
      → HoldsKey cr_namespace ref api_key
  unfolding get_opsgenie_api_key
  api_key_to cr_namespace ref api_key h =
      by_secret (S.get_secret (key_reference cr_namespace ref) w) refl
    where
      by_secret :
          (r : Result Secret)
          → S.get_secret (key_reference cr_namespace ref) w ≡ r
          → HoldsKey cr_namespace ref api_key
      by_secret (err e) p = absurd (ground arith)
      by_secret (ok secret) p = (
        ground (arith, eq_iff ref.name ""),
        ground (arith, eq_iff ref.name "", eq_iff ref.key ""),
        (secret, p, key_in_to ref.key secret.entries api_key (ground arith)),
      )

  api_key_from :
      (cr_namespace : String) (ref : OpsgenieApiKeySecretRef) (api_key : String)
      → HoldsKey cr_namespace ref api_key
      → get_opsgenie_api_key S cr_namespace (some ref) w ≡ ok api_key
  unfolding get_opsgenie_api_key key_in
  api_key_from cr_namespace ref api_key (named, keyed, (secret, p, (bytes, q, r, filled))) =
      ground (arith, eq_iff ref.name "", eq_iff ref.key "", eq_iff (trim_space bytes) "")

  -- The API key is found exactly if the reference has a name and a key, the secret of that name can
  -- be read in the referenced namespace, or in that of the monitor where none is given, and it has
  -- the key with a text that is not blank; the API key is that text without the blanks around it.
  get_opsgenie_api_key_iff :
      (cr_namespace : String) (ref : OpsgenieApiKeySecretRef) (api_key : String)
      → (get_opsgenie_api_key S cr_namespace (some ref) w ≡ ok api_key)
        ↔ HoldsKey cr_namespace ref api_key
  get_opsgenie_api_key_iff cr_namespace ref api_key =
      (api_key_to cr_namespace ref api_key, api_key_from cr_namespace ref api_key)
