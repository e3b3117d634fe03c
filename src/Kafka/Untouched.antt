-- ===== src/Kafka/Untouched.antt =====
-- What leaves the stored status as it is, and what writes it.
use nacho_operators.Common.{
  String, ◌≡◌, refl, ◌∙◌, Option, none, some, List, [], ◌∷◌, arith, Error, Result, ok, err, check,
  Go, NamespacedName,
}
use nacho_operators.Common.Dict.{Dict}
use nacho_operators.Kafka.Types.{ProblemDetail, PodAccessInfo, Status, KafkaAccessQuery}
use nacho_operators.Kafka.Services.{Services}
use nacho_operators.Kafka.Slack.{send_to_slack, send_chunks, send_namespaces, send_report}
use nacho_operators.Kafka.Inspect.{Infos}
use nacho_operators.Kafka.Events.{log_problems, log_events}
use nacho_operators.Kafka.Reconcile.{write_status, report}
use nacho_operators.Kafka.Server.{kept, IsServer}

module _ (S : Services) (V : IsServer S) where
  open S use {World}

  -- A call that leaves the stored status as it is.
  abbrev Keeps {ℓ} : {A : Type ℓ} → Go World A → Type 0
  Keeps call = (w : World) → V.stored (call w).1 ≡ V.stored w

  check-stored {ℓ κ} :
      {A : Type ℓ} {B : Type κ} (w : World) (r : Result A) (bad : Error → B × World)
      (good : A → B × World)
      → ((e : Error) → V.stored (bad e).1 ≡ V.stored w)
      → ((a : A) → V.stored (good a).1 ≡ V.stored w)
      → V.stored (check r bad good).1 ≡ V.stored w
  check-stored w (ok a) bad good f g = g a
  check-stored w (err e) bad good f g = f e

  send_to_slack-stored : (msg : String) → Keeps (send_to_slack S msg)
  unfolding send_to_slack
  send_to_slack-stored msg w = by_parts (S.marshal_text msg) (S.new_request S.webhook_url) refl refl
    where
      by_parts :
          (r : Result String) (o : Option Error)
          → S.marshal_text msg ≡ r
          → S.new_request S.webhook_url ≡ o
          → V.stored (send_to_slack S msg w).1 ≡ V.stored w
      by_parts (err e) o p q = rw (send_to_slack, p) refl
      by_parts (ok body) (some e) p q = rw (send_to_slack, p, q) refl
      by_parts (ok body) none p q =
          rw (send_to_slack, p, q)
            (check-stored w
              (S.http_do (record { url = S.webhook_url; authorization = none; body = body }) w).0 _
              _ (λ e. V.http_do-stored _ w) (λ a. V.http_do-stored _ w))

  send_chunks-stored : (chunks : List String) → Keeps (send_chunks S chunks)
  unfolding send_chunks
  send_chunks-stored [] w = refl
  send_chunks-stored (chunk ∷ chunks) w =
      send_chunks-stored chunks (send_to_slack S chunk w).1 ∙ send_to_slack-stored chunk w

  send_namespaces-stored :
      (groups : Dict Infos) (namespaces : List String) → Keeps (send_namespaces S groups namespaces)
  unfolding send_namespaces
  send_namespaces-stored groups [] w = refl
  send_namespaces-stored groups (namespace ∷ namespaces) w =
      send_namespaces-stored groups namespaces _ ∙ send_chunks-stored _ w

  send_report-stored : (infos : Infos) → Keeps (send_report S infos)
  unfolding send_report
  send_report-stored [] w = refl
  send_report-stored (info ∷ infos) w =
      check-stored w (send_to_slack S _ w).0 _ _ (λ e. send_to_slack-stored _ w)
        (λ a. send_namespaces-stored _ _ _ ∙ send_to_slack-stored _ w)

  pub report-stored : (infos : Infos) → Keeps (report S infos)
  unfolding report
  report-stored [] w = refl
  report-stored (info ∷ infos) w =
      check-stored w (send_report S (info ∷ infos) w).0 _ _
        (λ e. send_report-stored (info ∷ infos) w) (λ a. send_report-stored (info ∷ infos) w)

  log_problems-stored :
      (pod : PodAccessInfo (List ProblemDetail)) (problems : List ProblemDetail)
      → Keeps (log_problems S pod problems)
  unfolding log_problems
  log_problems-stored pod [] w = refl
  log_problems-stored pod (problem ∷ problems) w =
      log_problems-stored pod problems _ ∙ V.log_info-stored _ _ w

  pub log_events-stored :
      (pods : List (PodAccessInfo (List ProblemDetail))) → Keeps (log_events S pods)
  unfolding log_events
  log_events-stored [] w = refl
  log_events-stored (pod ∷ pods) w =
      log_events-stored pods _ ∙ log_problems-stored pod pod.recent_problems w

  module _ (key : NamespacedName) (current : Status) where
    -- One attempt of the write.
    abbrev try_write : Go World (Result (Unit {0}))
    try_write w =
        check (S.get_query key w) (λ e. (err e, w))
          λ latest. S.status_update (record latest { status = current }) w

    try_write-stored :
        (w : World) → (try_write w).0 ≡ ok tt → V.stored (try_write w).1 ≡ kept current
    try_write-stored w = by_read (S.get_query key w) refl
      where
        by_read :
            (r : Result KafkaAccessQuery)
            → S.get_query key w ≡ r
            → (try_write w).0 ≡ ok tt
            → V.stored (try_write w).1 ≡ kept current
        by_read (ok latest) p =
            rw p (V.status_update_accepted (record latest { status = current }) w)
        by_read (err e) p = rw p (λ h. absurd (ground arith))

    pub write_status-stored :
        (w : World)
        → (write_status S key current w).0 ≡ ok tt
        → V.stored (write_status S key current w).1 ≡ kept current
    unfolding write_status
    write_status-stored w =
        V.retry-last (λ r u. r ≡ ok tt → V.stored u ≡ kept current) try_write try_write-stored w
