-- ===== src/Cert/Utc.antt =====
-- The expiry times that a scan reports are in UTC, as X.509 gives them.
use nacho_operators.Common.{
  String, ◌≡◌, refl, Bool, true, false, Option, none, some, List, [], ◌∷◌, ◌++◌, Result, ok, err,
  check, if◌then◌else◌, NamespacedName, arith,
}
use nacho_operators.Common.Int.{ℤ}
use nacho_operators.Cert.Types.{utc, Time, MonitoredCertificateInfo, Certificate, Secret}
use nacho_operators.Cert.Services.{Services}
use nacho_operators.Cert.Selectors.{matches_selectors}
use nacho_operators.Cert.Scan.{certificate_info, inspect}
use nacho_operators.Cert.Certificates.{listed, certificates_in, certificates_of, certificates}
use nacho_operators.Cert.Republish.{Expires}
use nacho_operators.Cert.Notify.{Infos}

-- `x509.ParseCertificate` gives times in UTC.
abbrev pub ParsesUtc : Services → Type 0
ParsesUtc S =
    (bytes : String) (cert : Certificate)
    → S.parse_certificate bytes ≡ ok cert
    → cert.not_after.form ≡ utc

append-Expires : (xs ys : Infos) → Expires utc xs → Expires utc ys → Expires utc (xs ++ ys)
append-Expires [] ys p q = q
append-Expires (x ∷ xs) ys (h, p) q = (h, append-Expires xs ys p q)

module _ (S : Services) (parses : ParsesUtc S) where
  inspect-Expires :
      (threshold : ℤ) (now : Time) (secret : Secret) (key value : String)
      → Expires utc (listed (inspect S threshold now secret key value))
  unfolding inspect certificate_info
  inspect-Expires threshold now secret key value =
      by_info (inspect S threshold now secret key value) refl
    where
      by_info :
          (o : Option MonitoredCertificateInfo)
          → inspect S threshold now secret key value ≡ o
          → Expires utc (listed o)
      by_info none p = tt
      by_info (some info) p = (by_bytes (S.pem_decode value) refl, tt)
        where
          by_bytes : (o : Option String) → S.pem_decode value ≡ o → info.expires_at.form ≡ utc
          by_bytes none q = absurd (ground arith)
          by_bytes (some bytes) q = by_cert (S.parse_certificate bytes) refl
            where
              by_cert :
                  (r : Result Certificate)
                  → S.parse_certificate bytes ≡ r
                  → info.expires_at.form ≡ utc
              by_cert (err e) r = absurd (ground arith)
              by_cert (ok cert) r = ground (arith, parses bytes cert r)

  certificates_in-Expires :
      (threshold : ℤ) (now : Time) (secret : Secret) (entries : List (String × String))
      → Expires utc (certificates_in S threshold now secret entries)
  certificates_in-Expires threshold now secret [] = tt
  certificates_in-Expires threshold now secret ((key, value) ∷ entries) =
      append-Expires (listed (inspect S threshold now secret key value)) _
        (inspect-Expires threshold now secret key value)
        (certificates_in-Expires threshold now secret entries)

  module _ (threshold : ℤ) (now : Time) (ns_selector secret_selector : S.Selector)
      (w : S.World) where
    certificates_of-Expires :
        (key : NamespacedName)
        → Expires utc (certificates_of S threshold now ns_selector secret_selector w key)
    certificates_of-Expires key = by_secret (S.get_secret key w)
      where
        by_match :
            (secret : Secret) (r : Result Bool)
            → Expires utc (
                check r
                  (λ _. [])
                  λ matched.
                    if matched then certificates_in S threshold now secret secret.entries else [])
        by_match secret (err e) = tt
        by_match secret (ok false) = tt
        by_match secret (ok true) = certificates_in-Expires threshold now secret secret.entries

        by_secret :
            (r : Result Secret)
            → Expires utc (
                check r
                  (λ _. [])
                  λ secret.
                    check
                      (matches_selectors S ns_selector secret_selector secret w)
                      (λ _. [])
                      λ matched.
                        if matched
                        then certificates_in S threshold now secret secret.entries
                        else [])
        by_secret (err e) = tt
        by_secret (ok secret) =
            by_match secret (matches_selectors S ns_selector secret_selector secret w)

    pub certificates-Expires :
        (keys : List NamespacedName)
        → Expires utc (certificates S threshold now ns_selector secret_selector w keys)
    certificates-Expires [] = tt
    certificates-Expires (key ∷ keys) =
        append-Expires (certificates_of S threshold now ns_selector secret_selector w key) _
          (certificates_of-Expires key) (certificates-Expires keys)
