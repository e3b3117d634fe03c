-- ===== src/Cert/Storing.antt =====
-- The certificates that a reconciliation leaves in the stored status.
use nacho_operators.Common.{
  Bool, String, ◌≡◌, refl, ap, ◌∙◌, ◌↔◌, inl, inr, Option, none, some, List, [], ◌∷◌, map, Any,
  Result, ok, err, check, Go, arith, NamespacedName, again_after, hour,
}
use nacho_operators.Cert.Types.{MonitoredCertificateInfo, Status, CertificateMonitor}
use nacho_operators.Cert.Services.{Services}
use nacho_operators.Cert.Selectors.{list_all_secrets, prepare_selectors}
use nacho_operators.Cert.Status.{desired_status}
use nacho_operators.Cert.Certificates.{found_of}
use nacho_operators.Cert.Republish.{IsDecoded}
use nacho_operators.Cert.Utc.{ParsesUtc}
use nacho_operators.Cert.Notify.{Infos}
use nacho_operators.Cert.Reconcile.{notify, write_status, monitor_secrets, reconcile}
use nacho_operators.Cert.Daily.{
  write_and_wait, in_scope, reconcile-monitor_secrets, publish-decoded,
}
use nacho_operators.Cert.Server.{IsServer}
use nacho_operators.Cert.Holdings.{IsFor, Holds, certificates_iff}

-- The field, the secret and its namespace.
abbrev pub entry_key : MonitoredCertificateInfo → String × String × String
entry_key info = (info.namespace, info.secret_name, info.secret_key)

abbrev pub entry_keys : Option Infos → List (String × String × String)
entry_keys none = []
entry_keys (some infos) = map entry_key infos

-- An accepted status update stores the list of certificates.
pub record StoresCertificates (S : Services) : Type 0 where
  pub stored : S.World → List (String × String × String)
  pub status_update_accepted :
      (m : CertificateMonitor) (w : S.World)
      → (S.status_update m w).0 ≡ ok tt
      → stored (S.status_update m w).1 ≡ entry_keys m.status.monitored_certificates

module _ (S : Services) where
  module _ (namespace name field : String) where
    abbrev Listed : List (String × String × String) → Type 0
    Listed = Any (λ k. k ≡ (namespace, name, field))

    keys→ :
        (infos : Infos) → Listed (map entry_key infos) → Any (IsFor S namespace name field) infos
    keys→ [] h = absurd h
    keys→ (info ∷ infos) (inl h) = inl (ap (λ k. k.0) h, ap (λ k. k.1) h, ap (λ k. k.2) h)
    keys→ (info ∷ infos) (inr h) = inr (keys→ infos h)

    keys← :
        (infos : Infos) → Any (IsFor S namespace name field) infos → Listed (map entry_key infos)
    keys← [] h = absurd h
    keys← (info ∷ infos) (inl (d, e, f)) = inl (
        ap (λ n. (n, info.secret_name, info.secret_key)) d
        ∙ ap (λ n. (namespace, n, info.secret_key)) e
        ∙ ap (λ n. (namespace, name, n)) f)
    keys← (info ∷ infos) (inr h) = inr (keys← infos h)

  module _ (key : NamespacedName) (V : IsServer S key) (C : StoresCertificates S) where
    module _ (desired : Status) where
      abbrev try_write : Go S.World (Result (Unit {0}))
      try_write w =
          check (S.get_monitor key w) (λ e. (err e, w))
            λ current. S.status_update (record current { status = desired }) w

      abbrev IsWritten : Result (Unit {0}) → S.World → Type 0
      IsWritten r w = r ≡ ok tt → C.stored w ≡ entry_keys desired.monitored_certificates

      try_write-IsWritten : (w : S.World) → Unit {0} → IsWritten (try_write w).0 (try_write w).1
      try_write-IsWritten w _ = by_read (S.get_monitor key w) refl
        where
          by_read :
              (r : Result CertificateMonitor)
              → S.get_monitor key w ≡ r
              → IsWritten (try_write w).0 (try_write w).1
          by_read (ok m) p = rw p (C.status_update_accepted (record m { status = desired }) w)
          by_read (err e) p = rw p (λ h. absurd (ground arith))

      write_status-IsWritten :
          (w : S.World)
          → IsWritten (write_status S key desired w).0 (write_status S key desired w).1
      unfolding write_status
      write_status-IsWritten w =
          V.retry-last (λ _. Unit {0}) IsWritten try_write (λ _ _. tt) (λ _ _. tt)
            try_write-IsWritten w tt

      write_and_wait-stored :
          (w : S.World)
          → (write_and_wait S key desired w).0 ≡ again_after hour
          → C.stored (write_and_wait S key desired w).1 ≡ entry_keys desired.monitored_certificates
      write_and_wait-stored w h = by_write (write_status S key desired w).0 refl
        where
          by_write :
              (r : Result (Unit {0}))
              → (write_status S key desired w).0 ≡ r
              → C.stored (write_and_wait S key desired w).1
                ≡ entry_keys desired.monitored_certificates
          by_write (ok u) p = rw p (write_status-IsWritten w p)
          by_write (err e) p = let failed = rw p at h in absurd (ground arith)

    module _ (parses : ParsesUtc S) (w : S.World) {m : CertificateMonitor}
        {keys : List NamespacedName} {ns_selector secret_selector : S.Selector}
        (read : S.get_monitor key w ≡ ok m) (all : list_all_secrets S w ≡ ok keys)
        (prepared : prepare_selectors S m.spec ≡ ok (ns_selector, secret_selector))
        (decoded : IsDecoded m.status.monitored_certificates) where
      abbrev found : Infos
      found = in_scope S parses key w read all prepared decoded

      abbrev told : Bool × S.World
      told = notify S m (found_of found).to_notify w

      reconcile-write_and_wait :
          reconcile S key w
          ≡ write_and_wait S key (desired_status m.status found (S.now w) told.0) told.1
      unfolding monitor_secrets
      reconcile-write_and_wait =
          rw (reconcile-monitor_secrets S parses key w read all prepared decoded)
            (publish-decoded S parses key w read all prepared decoded told.0 told.1)

      -- A reconciliation that succeeds leaves a stored status with an entry for a field of a secret
      -- exactly if a listed secret of that name can be read, its namespace matches the namespace
      -- selector and can be read, its labels match the secret selector, where an empty selector needs
      -- neither, and it has that field, which ends in ".crt", with a value that decodes from PEM to an
      -- X.509 certificate. That holds with the cooldown and without, whatever becomes of the
      -- notification. The monitor can be read and the secrets listed, its selectors are valid, the list
      -- in its old status was decoded from JSON, X.509 times are in UTC, and an accepted update stores
      -- the list.
      pub reconcile-stores_certificates :
          (reconcile S key w).0 ≡ again_after hour
          → (namespace name field : String)
          → Any (λ k. k ≡ (namespace, name, field)) (C.stored (reconcile S key w).1)
            ↔ Any (Holds S namespace name field ns_selector secret_selector w) keys
      unfolding desired_status
      reconcile-stores_certificates h namespace name field =
          let desired : Status = desired_status m.status found (S.now w) told.0 in
          let stored = write_and_wait-stored desired told.1 (rw reconcile-write_and_wait at h) in
          let (there, back) =
            certificates_iff S namespace name field m.spec.renewal_threshold_days (S.now w)
              ns_selector secret_selector w keys in
          rw (reconcile-write_and_wait, stored)
            (
              (λ a. there (keys→ namespace name field found a)),
              (λ u. keys← namespace name field found (back u)),
            )
