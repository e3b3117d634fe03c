-- ===== src/Cert/Quiet.antt =====
-- Sequences of reconciliations and other events in the day after a notification.
use nacho_operators.Common.{
  ℕ, ◌+◌, ◌*◌, ◌<◌, ◌≡◌, refl, sym, ◌∙◌, ◌⊎◌, inl, inr, subst, Bool, true, false, Option, none,
  some, [], ◌∷◌, second, hour, Result, ok, err, Go, check, Error, Outcome, NamespacedName, arith,
}
use nacho_operators.Cert.Types.{Time, Status, CertificateMonitor}
use nacho_operators.Cert.Services.{Services}
use nacho_operators.Cert.Server.{NotifiedSince, IsServer, Keeps}
use nacho_operators.Cert.Selectors.{list_all_secrets, prepare_selectors}
use nacho_operators.Cert.Scan.{Found}
use nacho_operators.Cert.Status.{desired_status}
use nacho_operators.Cert.Notify.{Infos}
use nacho_operators.Cert.Reconcile.{
  is_cooling_down, notify, write_status, publish, monitor_secrets, reconcile,
}

cooling :
    (s : ℕ) (last : Option Time) (now : Time)
    → NotifiedSince s last
    → now.instant < s * second + 24 * hour
    → is_cooling_down last now ≡ true
unfolding is_cooling_down
cooling s none now since early = absurd since
cooling s (some last) now since early = ground arith

module _ (S : Services) (key : NamespacedName) (server : IsServer S key) where
  open S use {World, Selector, get_monitor, now}
  open server use {stored_time, sent}

  -- One event: a reconciliation within a day of second `s`, or anything else that sends nothing and
  -- leaves the stored time of notification as it is.
  pub data Step (s : ℕ) : World → World → Type 0 where
    reconciles :
        (w : World) → (now w).instant < s * second + 24 * hour → Step s w (reconcile S key w).1
    changes : (w w' : World) → stored_time w' ≡ stored_time w → sent w' ≡ sent w → Step s w w'

  pub data Steps (s : ℕ) : World → World → Type 0 where
    stop : (w : World) → Steps s w w
    after : {w w' w'' : World} → Step s w w' → Steps s w' w'' → Steps s w w''

  -- The stored time is that of second `s` or later, and `n` messages have been sent.
  abbrev Quiet : ℕ → ℕ → World → Type 0
  Quiet s n w = NotifiedSince s (stored_time w) × (sent w ≡ n)

  abbrev pub answer : Status → Result CertificateMonitor → Go World (Result (Unit {0}))
  answer desired r w =
      check r (λ e. (err e, w)) λ current. S.status_update (record current { status = desired }) w

  module _ (s n : ℕ) (desired : Status)
      (since : NotifiedSince s desired.last_notification_time) where
    answer-Quiet :
        (r : Result CertificateMonitor) (w : World) → Quiet s n w → Quiet s n (answer desired r w).1
    answer-Quiet (err e) w q = q
    answer-Quiet (ok current) w (h, p) = (
      by_stored (server.status_update-stored_time written w),
      server.status_update-sent written w ∙ p,
    )
      where
        written : CertificateMonitor
        written = record current { status = desired }

        by_stored :
            Keeps desired.last_notification_time (stored_time (S.status_update written w).1)
              ⊎ (stored_time (S.status_update written w).1 ≡ stored_time w)
            → NotifiedSince s (stored_time (S.status_update written w).1)
        by_stored (inl k) = k s since
        by_stored (inr e) = subst (NotifiedSince s) (sym e) h

    pause-Quiet : (w : World) → Quiet s n w → Quiet s n (server.pause w)
    pause-Quiet w (h, p) =
        (subst (NotifiedSince s) (sym (server.pause-stored_time w)) h, server.pause-sent w ∙ p)

    write_status-Quiet : (w : World) → Quiet s n w → Quiet s n (write_status S key desired w).1
    unfolding write_status
    write_status-Quiet =
        server.retry-last (Quiet s n) (λ _. Quiet s n) (λ w. answer desired (get_monitor key w) w)
          (λ w. answer-Quiet (get_monitor key w) w) pause-Quiet
          (λ w. answer-Quiet (get_monitor key w) w)

    publish-Quiet :
        (original : Status) (notified : Bool) (w : World)
        → Quiet s n w
        → Quiet s n (publish S key original desired notified w).1
    unfolding publish
    publish-Quiet original notified w q = grind (arith, write_status-Quiet w q)

  notify-cooling :
      (m : CertificateMonitor) (infos : Infos) (w : World)
      → is_cooling_down m.status.last_notification_time (now w) ≡ true
      → notify S m infos w ≡ (false, w)
  unfolding notify
  notify-cooling m [] w cold = refl
  notify-cooling m (info ∷ infos) w cold = rw cold refl

  module _ (s n : ℕ) (w : World) (early : (now w).instant < s * second + 24 * hour)
      (q : Quiet s n w) where
    monitor_secrets-Quiet :
        (m : CertificateMonitor) (found : Found)
        → m.status.last_notification_time ≡ stored_time w
        → Quiet s n (monitor_secrets S key m found (now w) w).1
    unfolding monitor_secrets desired_status
    monitor_secrets-Quiet m found e =
        let since = subst (NotifiedSince s) (sym e) q.0 in
        rw (notify-cooling m found.to_notify w (cooling s _ (now w) since early))
          (publish-Quiet s n _ since m.status false w q)

    check-Quiet {ℓ} :
        {A : Type ℓ} (r : Result A) (bad : Error → Outcome) (good : A → Outcome × World)
        → ((a : A) → r ≡ ok a → Quiet s n (good a).1)
        → Quiet s n (check r (λ e. (bad e, w)) good).1
    check-Quiet (ok a) bad good f = f a refl
    check-Quiet (err e) bad good f = q

    reconcile-Quiet : Quiet s n (reconcile S key w).1
    unfolding reconcile
    reconcile-Quiet = check-Quiet (get_monitor key w) _ _ λ m read.
        check-Quiet (list_all_secrets S w) _ _ λ keys all.
          check-Quiet (prepare_selectors S m.spec) _ _
            λ selectors prepared. monitor_secrets-Quiet m _ (server.get_monitor-stored_time w read)

  Steps-Quiet : (s n : ℕ) {w w' : World} → Steps s w w' → Quiet s n w → Quiet s n w'
  Steps-Quiet s n (stop w) q = q
  Steps-Quiet s n (after (reconciles w early) rest) q =
      Steps-Quiet s n rest (reconcile-Quiet s n w early q)
  Steps-Quiet s n (after (changes w w' e p) rest) (h, c) =
      Steps-Quiet s n rest (subst (NotifiedSince s) (sym e) h, p ∙ c)

  -- Once a notification is recorded, nothing is sent for a day: no sequence of reconciliations within
  -- twenty-four hours of second `s`, and of other events that send nothing and leave the recorded time
  -- as it is, sends a message, where the recorded time is that of second `s` or later. The conditions
  -- are the laws of the server in `IsServer`; reads that fail, invalid selectors and writes that fail
  -- are included.
  pub Steps-sent :
      (s : ℕ) {w w' : World} → NotifiedSince s (stored_time w) → Steps s w w' → sent w' ≡ sent w
  Steps-sent s {w} since steps = (Steps-Quiet s (sent w) steps (since, refl)).1
