-- ===== src/Cert/Recording.antt =====
-- What a notification leaves in the status, and the day that follows.
use nacho_operators.Common.{
  ℕ, again_with, ap, ◌*◌, ◌≤◌, ◌≡◌, refl, sym, ◌∙◌, subst, true, false, List, ◌∷◌, second, hour,
  Result, ok, err, check, Outcome, NamespacedName, again_after, keep, arith,
}
use nacho_operators.Cert.Types.{MonitoredCertificateInfo, Status, CertificateMonitor}
use nacho_operators.Cert.Services.{Services}
use nacho_operators.Cert.Server.{NotifiedSince, IsServer}
use nacho_operators.Cert.Selectors.{list_all_secrets, prepare_selectors}
use nacho_operators.Cert.Status.{desired_status}
use nacho_operators.Cert.Notify.{Infos}
use nacho_operators.Cert.Daily.{write_and_wait, reconcile-loud}
use nacho_operators.Cert.Quiet.{answer, Steps, Steps-sent}
use nacho_operators.Cert.Certificates.{certificates}
use nacho_operators.Cert.Republish.{IsDecoded}
use nacho_operators.Cert.Utc.{ParsesUtc}
use nacho_operators.Cert.Notify.{send_aggregated_notifications}
use nacho_operators.Cert.Scan.{needs_notice}
use nacho_operators.Cert.Reconcile.{is_cooling_down, write_status, reconcile}

module _ (S : Services) (key : NamespacedName) (server : IsServer S key) where
  open S use {World, Selector, get_monitor, now}
  open server use {stored_time, sent}

  module _ (s : ℕ) (desired : Status) (since : NotifiedSince s desired.last_notification_time) where
    -- What a write that succeeds leaves.
    abbrev Records : Result (Unit {0}) → World → Type 0
    Records r w = r ≡ ok tt → NotifiedSince s (stored_time w)

    answer-Records :
        (r : Result CertificateMonitor) (w : World)
        → Records (answer S key server desired r w).0 (answer S key server desired r w).1
    answer-Records (err e) w p = absurd (ground arith)
    answer-Records (ok current) w p =
        server.status_update_accepted (record current { status = desired }) w p s since

    write_status-Records :
        (w : World) → Records (write_status S key desired w).0 (write_status S key desired w).1
    unfolding write_status
    write_status-Records w =
        server.retry-last (λ _. Unit) Records
          (λ w. answer S key server desired (get_monitor key w) w) (λ _ _. tt) (λ _ _. tt)
          (λ w _. answer-Records (get_monitor key w) w) w tt

    write_and_wait-Records :
        (w : World)
        → (write_and_wait S key desired w).0 ≡ again_after hour
        → NotifiedSince s (stored_time (write_and_wait S key desired w).1)
    write_and_wait-Records w p =
        by_result (write_status S key desired w).0 (write_status-Records w) p
      where
        left : World
        left = (write_status S key desired w).1

        by_result :
            (r : Result (Unit {0}))
            → Records r left
            → (check {B = Outcome × World} r
                (λ e. (again_with e, left))
                (λ _. (again_after hour, left))).0
              ≡ again_after hour
            → NotifiedSince s (
                stored_time
                  (check {B = Outcome × World} r
                    (λ e. (again_with e, left))
                    (λ _. (again_after hour, left))).1)
        by_result (ok u) f p = f refl
        by_result (err e) f p = absurd (ground arith)

  -- After a notification that is recorded the day is quiet: where the secrets could be read and the
  -- selectors are valid, no cooldown was running, certificates were due and the update of the status
  -- went through, which is when the reconciliation returns to come back in an hour, no sequence of
  -- reconciliations and of other events that send nothing and leave the recorded time as it is sends
  -- a message within twenty-four hours of that second. The conditions are those of
  -- `reconcile-notifies` otherwise, and the laws of the server.
  pub reconcile-Steps :
      ParsesUtc S
      → (s : ℕ) (w : World) {w' : World} {m : CertificateMonitor} {keys : List NamespacedName}
        {ns_selector secret_selector : Selector} {info : MonitoredCertificateInfo} {infos : Infos}
      → get_monitor key w ≡ ok m
      → list_all_secrets S w ≡ ok keys
      → prepare_selectors S m.spec ≡ ok (ns_selector, secret_selector)
      → IsDecoded m.status.monitored_certificates
      → is_cooling_down m.status.last_notification_time (now w) ≡ false
      → keep needs_notice
          (certificates S m.spec.renewal_threshold_days (now w) ns_selector secret_selector w keys)
        ≡ info ∷ infos
      → (reconcile S key w).0 ≡ again_after hour
      → s * second ≤ (now w).instant
      → Steps S key server s (reconcile S key w).1 w'
      → sent w' ≡ sent (reconcile S key w).1
  unfolding desired_status
  reconcile-Steps parses s w {m} {keys} {ns_selector} {secret_selector} {info} {infos} read all
        prepared decoded warm due returned at steps =
      Steps-sent S key server s recorded steps
    where
      desired : Status
      desired =
          desired_status m.status
            (certificates S m.spec.renewal_threshold_days (now w) ns_selector secret_selector w
              keys)
            (now w) true

      whole :
          reconcile S key w
          ≡ write_and_wait S key desired (send_aggregated_notifications S m (info ∷ infos) w).1
      whole = reconcile-loud S parses key w read all prepared decoded warm due

      since : NotifiedSince s desired.last_notification_time
      since = at

      recorded : NotifiedSince s (stored_time (reconcile S key w).1)
      recorded =
          subst (λ x. NotifiedSince s (stored_time x.1)) (sym whole)
            (write_and_wait-Records s desired since _ (ap (λ x. x.0) (sym whole) ∙ returned))
