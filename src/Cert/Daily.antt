-- ===== src/Cert/Daily.antt =====
-- A whole reconciliation: what it sends and what it writes, with the cooldown and without.
use nacho_operators.Common.{
  ◌+◌, ◌*◌, ◌<◌, ◌≡◌, ◌≢◌, ◌⊎◌, inl, inr, refl, Option, none, some, arith, Bool, true, false, List,
  [], ◌∷◌, ok, keep, Go, pure, attempt, Outcome, again_after, again_with, hour, NamespacedName,
}
use nacho_operators.Cert.Types.{Time, MonitoredCertificateInfo, Status, CertificateMonitor}
use nacho_operators.Cert.Services.{Services}
use nacho_operators.Cert.Selectors.{list_all_secrets, prepare_selectors}
use nacho_operators.Cert.Scan.{needs_notice}
use nacho_operators.Cert.Status.{desired_status}
use nacho_operators.Cert.Certificates.{found_of, certificates, scan_lem}
use nacho_operators.Cert.Republish.{IsDecoded, must_update-decoded}
use nacho_operators.Cert.Utc.{ParsesUtc, certificates-Expires}
use nacho_operators.Cert.Notify.{Infos, send_aggregated_notifications}
use nacho_operators.Cert.Reconcile.{
  is_cooling_down, notify, write_status, publish, monitor_secrets, reconcile,
}

-- The status with these certificates, checked at this time and notified at that one.
abbrev pub checked : Status → Infos → Time → Option Time → Status
checked status infos now notified = record status {
  monitored_certificates = some infos;
  last_checked = now;
  last_notification_time = notified;
}

-- Less than twenty-four hours have passed since the notification.
abbrev pub IsWithinDay : Option Time → Time → Type 0
IsWithinDay none now = ⊥
IsWithinDay (some last) now = now.instant < last.instant + 24 * hour

cooling-IsWithinDay :
    (last : Option Time) (now : Time) → is_cooling_down last now ≡ true → IsWithinDay last now
unfolding is_cooling_down
cooling-IsWithinDay none now h = absurd (ground arith)
cooling-IsWithinDay (some last) now h = ground arith

warm-IsWithinDay :
    (last : Option Time) (now : Time) → is_cooling_down last now ≡ false → ¬ IsWithinDay last now
unfolding is_cooling_down
warm-IsWithinDay none now h within = within
warm-IsWithinDay (some last) now h within = ground arith

module _ (S : Services) where
  -- The update of the status, and what follows.
  abbrev pub write_and_wait : NamespacedName → Status → Go S.World Outcome
  write_and_wait key desired =
      attempt (write_status S key desired) (λ e. pure (again_with e)) (λ _. pure (again_after hour))

  module _ (parses : ParsesUtc S) (key : NamespacedName) (w : S.World) {m : CertificateMonitor}
      {keys : List NamespacedName} {ns_selector secret_selector : S.Selector}
      (read : S.get_monitor key w ≡ ok m) (all : list_all_secrets S w ≡ ok keys)
      (prepared : prepare_selectors S m.spec ≡ ok (ns_selector, secret_selector))
      (decoded : IsDecoded m.status.monitored_certificates) where
    abbrev pub in_scope : Infos
    in_scope =
        certificates S m.spec.renewal_threshold_days (S.now w) ns_selector secret_selector w keys

    pub reconcile-monitor_secrets :
        reconcile S key w ≡ monitor_secrets S key m (found_of in_scope) (S.now w) w
    unfolding reconcile
    reconcile-monitor_secrets =
        rw
          (
            read,
            all,
            prepared,
            scan_lem S m.spec.renewal_threshold_days (S.now w) ns_selector secret_selector w keys,
          )
          refl

    pub publish-decoded :
        (sent : Bool) (w' : S.World)
        → publish S key m.status (desired_status m.status in_scope (S.now w) sent) sent w'
          ≡ write_and_wait key (desired_status m.status in_scope (S.now w) sent) w'
    unfolding publish
    publish-decoded sent w' =
        rw
          (must_update-decoded m.status in_scope (S.now w) sent decoded (
            certificates-Expires S parses m.spec.renewal_threshold_days (S.now w) ns_selector
              secret_selector w keys))
          refl

    abbrev pub due : Infos
    due = keep needs_notice in_scope

    -- With nothing to notify of, or during the cooldown, a reconciliation sends nothing: all it does is
    -- to write the status with the certificates in scope and the old time of notification. The
    -- conditions are that the monitor can be read and the secrets listed, that the selectors are valid,
    -- that the list in the old status was decoded from JSON, and that X.509 times are in UTC.
    pub reconcile-silent :
        (due ≡ []) ⊎ (is_cooling_down m.status.last_notification_time (S.now w) ≡ true)
        → reconcile S key w
          ≡ write_and_wait key
              (checked m.status in_scope (S.now w) m.status.last_notification_time)
              w
    unfolding monitor_secrets notify desired_status
    reconcile-silent (inl none_due) =
        rw (reconcile-monitor_secrets, none_due) (publish-decoded false w)
    reconcile-silent (inr cooling) = rw reconcile-monitor_secrets (by_due due refl)
      where
        by_due :
            (infos : Infos)
            → due ≡ infos
            → monitor_secrets S key m (found_of in_scope) (S.now w) w
              ≡ write_and_wait key
                  (checked m.status in_scope (S.now w) m.status.last_notification_time)
                  w
        by_due [] p = rw p (publish-decoded false w)
        by_due (info ∷ infos) p = rw (p, cooling) (publish-decoded false w)

    -- Without a cooldown, and with certificates that are near or past expiration, a reconciliation under
    -- the same conditions notifies of these certificates, and then writes the status with the
    -- certificates in scope and the current time as that of the notification.
    pub reconcile-loud :
        {info : MonitoredCertificateInfo} {infos : Infos}
        → is_cooling_down m.status.last_notification_time (S.now w) ≡ false
        → due ≡ info ∷ infos
        → reconcile S key w
          ≡ write_and_wait key
              (checked m.status in_scope (S.now w) (some (S.now w)))
              (send_aggregated_notifications S m (info ∷ infos) w).1
    unfolding monitor_secrets notify desired_status
    reconcile-loud warm some_due =
        rw (reconcile-monitor_secrets, some_due, warm) (publish-decoded true _)

    -- A reconciliation of a monitor that is read, whose secrets are listed, whose selectors are valid
    -- and whose list in the status was decoded from JSON does one of two things; X.509 times are in UTC.
    -- Where no certificate in scope is near or past expiration, or less than twenty-four hours have
    -- passed since the recorded notification, it sends nothing and writes the status with the
    -- certificates in scope, the current time as that of the check and the recorded time of the
    -- notification. Where there are such certificates and no notification is recorded in the last
    -- twenty-four hours, it notifies of exactly these certificates and then writes the status with the
    -- certificates in scope and the current time as that of the check and of the notification, whatever
    -- becomes of the notification.
    pub reconcile-notifies :
        (((due ≡ []) ⊎ IsWithinDay m.status.last_notification_time (S.now w))
          × (reconcile S key w
              ≡ write_and_wait key
                  (checked m.status in_scope (S.now w) m.status.last_notification_time)
                  w))
        ⊎ ((due ≢ [])
            × (¬ IsWithinDay m.status.last_notification_time (S.now w))
            × (reconcile S key w
                ≡ write_and_wait key
                    (checked m.status in_scope (S.now w) (some (S.now w)))
                    (send_aggregated_notifications S m due w).1))
    reconcile-notifies =
        by_parts due refl (is_cooling_down m.status.last_notification_time (S.now w)) refl
      where
        by_parts :
            (infos : Infos)
            → due ≡ infos
            → (b : Bool) → is_cooling_down m.status.last_notification_time (S.now w) ≡ b
            → (((due ≡ []) ⊎ IsWithinDay m.status.last_notification_time (S.now w))
                × (reconcile S key w
                    ≡ write_and_wait key
                        (checked m.status in_scope (S.now w) m.status.last_notification_time)
                        w))
              ⊎ ((due ≢ [])
                  × (¬ IsWithinDay m.status.last_notification_time (S.now w))
                  × (reconcile S key w
                      ≡ write_and_wait key
                          (checked m.status in_scope (S.now w) (some (S.now w)))
                          (send_aggregated_notifications S m due w).1))
        by_parts [] p b q = inl (inl p, reconcile-silent (inl p))
        by_parts (info ∷ infos) p true q =
            inl (inr (cooling-IsWithinDay _ (S.now w) q), reconcile-silent (inr q))
        by_parts (info ∷ infos) p false q = inr (
          (λ none_due. absurd (ground arith)),
          warm-IsWithinDay _ (S.now w) q,
          rw (reconcile-loud q p, p) refl,
        )
