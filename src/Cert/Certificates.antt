-- ===== src/Cert/Certificates.antt =====
-- What the loops over the secrets find, against the plain list of the certificates in scope.
use nacho_operators.Common.{
  String, Bool, true, false, ◌≡◌, refl, sym, Option, none, some, List, [], ◌∷◌, ◌++◌, append-nil,
  append_assoc, if◌then◌else◌, keep, keep-append, check, Result, ok, err, NamespacedName, arith,
}
use nacho_operators.Common.Int.{ℤ}
use nacho_operators.Cert.Types.{Time, MonitoredCertificateInfo, Secret}
use nacho_operators.Cert.Services.{Services}
use nacho_operators.Cert.Selectors.{matches_selectors}
use nacho_operators.Cert.Scan.{
  Found, nothing_found, collect, add_found, needs_notice, inspect, process_entries, process_secret,
  scan,
}

abbrev pub listed : Option MonitoredCertificateInfo → List MonitoredCertificateInfo
listed none = []
listed (some info) = info ∷ []

-- A list with what has to be notified in it.
abbrev pub found_of : List MonitoredCertificateInfo → Found
found_of infos = record { monitored = infos; to_notify = keep needs_notice infos }

collect-found_of :
    (o : Option MonitoredCertificateInfo) (infos : List MonitoredCertificateInfo)
    → collect o (found_of infos) ≡ found_of (infos ++ listed o)
unfolding collect add_found
collect-found_of none infos = rw append-nil refl
collect-found_of (some info) infos =
    rw keep-append (ground (arith, append-nil (keep needs_notice infos)))

module _ (S : Services) where
  abbrev pub certificates_in :
      ℤ → Time → Secret → List (String × String) → List MonitoredCertificateInfo
  certificates_in threshold now secret [] = []
  certificates_in threshold now secret ((key, value) ∷ entries) =
      listed (inspect S threshold now secret key value)
      ++ certificates_in threshold now secret entries

  module _ (threshold : ℤ) (now : Time) (ns_selector secret_selector : S.Selector)
      (w : S.World) where
    abbrev pub certificates_of : NamespacedName → List MonitoredCertificateInfo
    certificates_of key =
        check (S.get_secret key w) (λ _. [])
          λ secret.
            check (matches_selectors S ns_selector secret_selector secret w) (λ _. [])
              λ matched. if matched then certificates_in threshold now secret secret.entries else []

    abbrev pub certificates : List NamespacedName → List MonitoredCertificateInfo
    certificates [] = []
    certificates (key ∷ keys) = certificates_of key ++ certificates keys

  process_entries-found_of :
      (threshold : ℤ) (now : Time) (secret : Secret) (entries : List (String × String))
      (infos : List MonitoredCertificateInfo)
      → process_entries S threshold now secret entries (found_of infos)
        ≡ found_of (infos ++ certificates_in threshold now secret entries)
  unfolding process_entries
  process_entries-found_of threshold now secret [] infos = rw append-nil refl
  process_entries-found_of threshold now secret ((key, value) ∷ entries) infos =
      rw
        (
          collect-found_of (inspect S threshold now secret key value) infos,
          sym (
              append_assoc infos (listed (inspect S threshold now secret key value))
                (certificates_in threshold now secret entries)),
        )
        (process_entries-found_of threshold now secret entries
          (infos ++ listed (inspect S threshold now secret key value)))

  module _ (threshold : ℤ) (now : Time) (ns_selector secret_selector : S.Selector)
      (w : S.World) where
    process_secret-found_of :
        (key : NamespacedName) (infos : List MonitoredCertificateInfo)
        → process_secret S threshold now ns_selector secret_selector key w (found_of infos)
          ≡ found_of (infos ++ certificates_of threshold now ns_selector secret_selector w key)
    unfolding process_secret
    process_secret-found_of key infos = by_secret (S.get_secret key w) refl
      where
        by_secret :
            (r : Result Secret)
            → S.get_secret key w ≡ r
            → process_secret S threshold now ns_selector secret_selector key w (found_of infos)
              ≡ found_of (infos ++ certificates_of threshold now ns_selector secret_selector w key)
        by_secret (err e) p = rw (p, append-nil) refl
        by_secret (ok secret) p =
            by_match (matches_selectors S ns_selector secret_selector secret w) refl
          where
            by_match :
                (r : Result Bool)
                → matches_selectors S ns_selector secret_selector secret w ≡ r
                → process_secret S threshold now ns_selector secret_selector key w (found_of infos)
                  ≡ found_of
                      (infos ++ certificates_of threshold now ns_selector secret_selector w key)
            by_match (err e) q = rw (p, q, append-nil) refl
            by_match (ok false) q = rw (p, q, append-nil) refl
            by_match (ok true) q =
                rw (p, q) (process_entries-found_of threshold now secret secret.entries infos)

    scan-found_of :
        (keys : List NamespacedName) (infos : List MonitoredCertificateInfo)
        → scan S threshold now ns_selector secret_selector keys w (found_of infos)
          ≡ found_of (infos ++ certificates threshold now ns_selector secret_selector w keys)
    unfolding scan
    scan-found_of [] infos = rw append-nil refl
    scan-found_of (key ∷ keys) infos =
        rw
          (
            process_secret-found_of key infos,
            sym (
                append_assoc infos (certificates_of threshold now ns_selector secret_selector w key)
                  (certificates threshold now ns_selector secret_selector w keys)),
          )
          (scan-found_of keys
            (infos ++ certificates_of threshold now ns_selector secret_selector w key))

    -- The loop over the secrets finds the certificates of those that can be read and that match, in
    -- their order and each once, and has those of them notified that are near or past expiration.
    pub scan_lem :
        (keys : List NamespacedName)
        → scan S threshold now ns_selector secret_selector keys w nothing_found
          ≡ found_of (certificates threshold now ns_selector secret_selector w keys)
    scan_lem keys = scan-found_of keys []
