-- ===== src/Cert/Holdings.antt =====
-- Which certificates are in scope.
use nacho_operators.Common.{
  String, Bool, true, false, ◌≡◌, refl, sym, ◌∙◌, ◌↔◌, inl, inr, Option, none, some, List, [], ◌∷◌,
  Any, Any-append→, Any-append←, Result, ok, err, NamespacedName, arith,
}
use nacho_operators.Common.Int.{ℤ}
use nacho_operators.Common.Strings.{has_suffix}
use nacho_operators.Cert.Types.{Time, MonitoredCertificateInfo, Certificate, Secret}
use nacho_operators.Cert.Services.{Services}
use nacho_operators.Cert.Selectors.{matches_selectors}
use nacho_operators.Cert.Selection.{SelectsNamespace, SelectsSecret, matches_selectors_iff}
use nacho_operators.Cert.Scan.{certificate_info, inspect}
use nacho_operators.Cert.Certificates.{listed, certificates_in, certificates_of, certificates}

module _ (S : Services) where
  -- A field for certificates whose value decodes to one.
  abbrev pub IsCertificate : String × String → Type 0
  IsCertificate (field, value) =
      (has_suffix field ".crt" ≡ true)
      × ((bytes : String) × (S.pem_decode value ≡ some bytes)
          × ((cert : Certificate) × (S.parse_certificate bytes ≡ ok cert)))

  module _ (namespace name field : String) where
    -- The entry is for this field of this secret.
    abbrev pub IsFor : MonitoredCertificateInfo → Type 0
    IsFor info =
        (info.namespace ≡ namespace) × (info.secret_name ≡ name) × (info.secret_key ≡ field)

    abbrev pub HasField : Secret → Type 0
    HasField secret =
        (secret.namespace ≡ namespace)
        × (secret.name ≡ name)
        × Any (λ e. (e.0 ≡ field) × IsCertificate e) secret.entries

    module _ (ns_selector secret_selector : S.Selector) (w : S.World) where
      -- The secret can be read, is selected, and has a certificate in this field.
      abbrev pub Holds : NamespacedName → Type 0
      Holds key =
          (secret : Secret) × (S.get_secret key w ≡ ok secret)
          × (SelectsNamespace S ns_selector secret_selector w secret.namespace
              × SelectsSecret S ns_selector secret_selector w secret)
          × HasField secret

    module _ (threshold : ℤ) (now : Time) where
      inspect-finds :
          (secret : Secret) (key value : String)
          → IsCertificate (key, value)
          → (info : MonitoredCertificateInfo) × (inspect S threshold now secret key value
              ≡ some info)
            × ((info.namespace ≡ secret.namespace)
                × (info.secret_name ≡ secret.name)
                × (info.secret_key ≡ key))
      unfolding inspect certificate_info
      inspect-finds secret key value (p, (bytes, q, (cert, r))) =
          (certificate_info threshold now secret key cert, rw (p, q, r) refl, (refl, refl, refl))

      inspect-found :
          (secret : Secret) (key value : String) {info : MonitoredCertificateInfo}
          → inspect S threshold now secret key value ≡ some info
          → IsCertificate (key, value)
      unfolding inspect
      inspect-found secret key value {info} h =
          by_suffix (has_suffix key ".crt") refl (S.pem_decode value) refl
        where
          by_certificate :
              (bytes : String) (r : Result Certificate)
              → S.parse_certificate bytes ≡ r
              → has_suffix key ".crt" ≡ true
              → S.pem_decode value ≡ some bytes
              → IsCertificate (key, value)
          by_certificate bytes (ok cert) r p q = (p, (bytes, q, (cert, r)))
          by_certificate bytes (err e) r p q = absurd (ground (arith, rw (inspect, p, q, r) at h))

          by_suffix :
              (b : Bool)
              → has_suffix key ".crt" ≡ b
              → (o : Option String) → S.pem_decode value ≡ o
              → IsCertificate (key, value)
          by_suffix false p o q = absurd (ground (arith, rw (inspect, p) at h))
          by_suffix true p none q = absurd (ground (arith, rw (inspect, p, q) at h))
          by_suffix true p (some bytes) q =
              by_certificate bytes (S.parse_certificate bytes) refl p q

      inspect→ :
          (secret : Secret) (key value : String)
          → Any IsFor (listed (inspect S threshold now secret key value))
          → (secret.namespace ≡ namespace)
            × (secret.name ≡ name)
            × ((key ≡ field) × IsCertificate (key, value))
      inspect→ secret key value h = by_found (inspect S threshold now secret key value) refl
        where
          by_found :
              (o : Option MonitoredCertificateInfo)
              → inspect S threshold now secret key value ≡ o
              → (secret.namespace ≡ namespace)
                × (secret.name ≡ name)
                × ((key ≡ field) × IsCertificate (key, value))
          by_found none p = absurd (rw p at h)
          by_found (some info) p =
              let holds = inspect-found secret key value p in
              let (other, q, (a, b, c)) = inspect-finds secret key value holds in
              by_entry other a b c holds (rw q at h)
            where
              by_entry :
                  (info : MonitoredCertificateInfo)
                  → info.namespace ≡ secret.namespace
                  → info.secret_name ≡ secret.name
                  → info.secret_key ≡ key
                  → IsCertificate (key, value)
                  → Any IsFor (info ∷ [])
                  → (secret.namespace ≡ namespace)
                    × (secret.name ≡ name)
                    × ((key ≡ field) × IsCertificate (key, value))
              by_entry info a b c holds (inl (d, e, f)) = (sym a ∙ d, sym b ∙ e, (sym c ∙ f, holds))
              by_entry info a b c holds (inr d) = absurd d

      inspect← :
          (secret : Secret) (key value : String)
          → secret.namespace ≡ namespace
          → secret.name ≡ name
          → key ≡ field
          → IsCertificate (key, value)
          → Any IsFor (listed (inspect S threshold now secret key value))
      inspect← secret key value d e f holds =
          let (info, q, (a, b, c)) = inspect-finds secret key value holds in
          rw q (inl (a ∙ d, b ∙ e, c ∙ f))

      certificates_in→ :
          (secret : Secret) (entries : List (String × String))
          → Any IsFor (certificates_in S threshold now secret entries)
          → (secret.namespace ≡ namespace)
            × (secret.name ≡ name)
            × Any (λ e. (e.0 ≡ field) × IsCertificate e) entries
      certificates_in→ secret [] h = absurd h
      certificates_in→ secret ((key, value) ∷ entries) h =
          elim (Any-append→ IsFor (listed (inspect S threshold now secret key value))
            (certificates_in S threshold now secret entries) h) [
              | inl a ↦ let (d, e, f) = inspect→ secret key value a in (d, e, inl f)
              | inr a ↦ let (d, e, f) = certificates_in→ secret entries a in (d, e, inr f)
            ]

      certificates_in← :
          (secret : Secret) (entries : List (String × String))
          → secret.namespace ≡ namespace
          → secret.name ≡ name
          → Any (λ e. (e.0 ≡ field) × IsCertificate e) entries
          → Any IsFor (certificates_in S threshold now secret entries)
      certificates_in← secret [] d e h = absurd h
      certificates_in← secret ((key, value) ∷ entries) d e (inl (f, holds)) =
          Any-append← IsFor (listed (inspect S threshold now secret key value))
            (certificates_in S threshold now secret entries)
            (inl (inspect← secret key value d e f holds))
      certificates_in← secret ((key, value) ∷ entries) d e (inr h) =
          Any-append← IsFor (listed (inspect S threshold now secret key value))
            (certificates_in S threshold now secret entries)
            (inr (certificates_in← secret entries d e h))

      module _ (ns_selector secret_selector : S.Selector) (w : S.World) where
        certificates_of→ :
            (key : NamespacedName)
            → Any IsFor (certificates_of S threshold now ns_selector secret_selector w key)
            → Holds ns_selector secret_selector w key
        certificates_of→ key h = by_secret (S.get_secret key w) refl
          where
            by_match :
                (secret : Secret)
                → S.get_secret key w ≡ ok secret
                → (r : Result Bool) → matches_selectors S ns_selector secret_selector secret w ≡ r
                → Holds ns_selector secret_selector w key
            by_match secret p (err e) q = absurd (rw (p, q) at h)
            by_match secret p (ok false) q = absurd (rw (p, q) at h)
            by_match secret p (ok true) q =
                let (selects, _) = matches_selectors_iff S ns_selector secret_selector w secret in
                (secret, p, selects q, certificates_in→ secret secret.entries (rw (p, q) at h))

            by_secret :
                (r : Result Secret)
                → S.get_secret key w ≡ r
                → Holds ns_selector secret_selector w key
            by_secret (err e) p = absurd (rw p at h)
            by_secret (ok secret) p =
                by_match secret p (matches_selectors S ns_selector secret_selector secret w) refl

        certificates_of← :
            (key : NamespacedName)
            → Holds ns_selector secret_selector w key
            → Any IsFor (certificates_of S threshold now ns_selector secret_selector w key)
        certificates_of← key (secret, p, selected, (d, e, h)) =
            let (_, matched) = matches_selectors_iff S ns_selector secret_selector w secret in
            rw (p, matched selected) (certificates_in← secret secret.entries d e h)

        certificates→ :
            (keys : List NamespacedName)
            → Any IsFor (certificates S threshold now ns_selector secret_selector w keys)
            → Any (Holds ns_selector secret_selector w) keys
        certificates→ [] h = absurd h
        certificates→ (key ∷ keys) h =
            elim (Any-append→ IsFor
              (certificates_of S threshold now ns_selector secret_selector w key)
              (certificates S threshold now ns_selector secret_selector w keys) h) [
                | inl a ↦ inl (certificates_of→ key a)
                | inr a ↦ inr (certificates→ keys a)
              ]

        certificates← :
            (keys : List NamespacedName)
            → Any (Holds ns_selector secret_selector w) keys
            → Any IsFor (certificates S threshold now ns_selector secret_selector w keys)
        certificates← [] h = absurd h
        certificates← (key ∷ keys) (inl h) =
            Any-append← IsFor (certificates_of S threshold now ns_selector secret_selector w key)
              (certificates S threshold now ns_selector secret_selector w keys)
              (inl (certificates_of← key h))
        certificates← (key ∷ keys) (inr h) =
            Any-append← IsFor (certificates_of S threshold now ns_selector secret_selector w key)
              (certificates S threshold now ns_selector secret_selector w keys)
              (inr (certificates← keys h))

        pub certificates_iff :
            (keys : List NamespacedName)
            → Any IsFor (certificates S threshold now ns_selector secret_selector w keys)
              ↔ Any (Holds ns_selector secret_selector w) keys
        certificates_iff keys = (certificates→ keys, certificates← keys)
