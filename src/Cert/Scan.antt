-- ===== src/Cert/Scan.antt =====
-- The loops of Reconcile over the secrets and their entries, of cert-monitor-operator/internal/
-- controller/certificatemonitor_controller.go.
use nacho_operators.Common.{
  ℕ, suc, ◌+◌, ◌-◌, ◌*◌, ◌/◌, String, Bool, not, ◌&&◌, ◌||◌, Option, none, some, List, [], ◌∷◌,
  ◌++◌, ltb, leb, check, if◌then◌else◌, hour, NamespacedName,
}
use Prim.Native.Nat.{◌%◌}
use nacho_operators.Common.Float.{unit, round}
use nacho_operators.Common.Int.{ℤ, pos, negated, leb_ℤ, ltb_ℤ}
use nacho_operators.Common.Strings.{has_suffix}
use nacho_operators.Cert.Types.{Time, MonitoredCertificateInfo, Secret, Certificate}
use nacho_operators.Cert.Services.{Services}
use nacho_operators.Cert.Selectors.{matches_selectors}

abbrev pub day : ℕ
day = 24 * hour

-- The longest `time.Duration`, 2 ^ 63 - 1 nanoseconds.
abbrev pub max_duration : ℕ
max_duration = 9_223_372_036_854_775_807

abbrev pub min : ℕ → ℕ → ℕ
min a b = if leb a b then a else b

-- `d.Hours()`, a float64: the hours and the fraction of an hour are converted on their own.
abbrev pub hours_of : ℕ → ℕ
hours_of d = round 128 (d / hour * unit + round 128 (d % hour * unit) hour) 1

-- `int(d.Hours() / 24)`, which truncates.
unfoldable pub whole_days : ℕ → ℕ
whole_days d = round 128 (hours_of d) 24 / unit

-- `int(expirationDate.Sub(now).Hours() / 24)`: `Sub` saturates, and `int` truncates towards zero.
unfoldable pub days_until : Time → Time → ℤ
days_until expiry now =
    if leb now.instant expiry.instant
    then pos (whole_days (min (expiry.instant - now.instant) max_duration))
    else negated (whole_days (min (now.instant - expiry.instant) (suc max_duration)))

unfoldable pub certificate_info :
    ℤ → Time → Secret → String → Certificate → MonitoredCertificateInfo
certificate_info threshold now secret key cert =
    let expired = ltb cert.not_after.instant now.instant in
    let days = days_until cert.not_after now in
    record {
      namespace = secret.namespace;
      secret_name = secret.name;
      secret_key = key;
      subject_cn = cert.subject_cn;
      issuer_cn = cert.issuer_cn;
      expires_at = cert.not_after;
      days_until_expiration = days;
      is_expired = expired;
      is_near_expiration = not expired && ltb_ℤ (pos 0) threshold && leb_ℤ days threshold;
    }

abbrev pub needs_notice : MonitoredCertificateInfo → Bool
needs_notice info = info.is_near_expiration || info.is_expired

-- `monitoredCertsInfo` and `certsToNotify`
pub record Found : Type 0 where
  pub monitored : List MonitoredCertificateInfo
  pub to_notify : List MonitoredCertificateInfo

abbrev pub nothing_found : Found
nothing_found = record { monitored = []; to_notify = [] }

unfoldable pub add_found : MonitoredCertificateInfo → Found → Found
add_found info found = record {
  monitored = found.monitored ++ (info ∷ []);
  to_notify = if needs_notice info then found.to_notify ++ (info ∷ []) else found.to_notify;
}

unfoldable pub collect : Option MonitoredCertificateInfo → Found → Found
collect none found = found
collect (some info) found = add_found info found

module _ (S : Services) where
  open S use {World, Selector, get_secret, pem_decode, parse_certificate}

  -- The body of the inner loop, up to the certificate that it finds.
  unfoldable pub inspect : ℤ → Time → Secret → String → String → Option MonitoredCertificateInfo
  inspect threshold now secret key value =
      if has_suffix key ".crt"
      then elim (pem_decode value) [
        | none ↦ none
        | some bytes ↦
            check (parse_certificate bytes) (λ _. none)
              (λ cert. some (certificate_info threshold now secret key cert))
      ]
      else none

  unfoldable pub process_entries : ℤ → Time → Secret → List (String × String) → Found → Found
  process_entries threshold now secret [] found = found
  process_entries threshold now secret ((key, value) ∷ entries) found =
      process_entries threshold now secret entries
        (collect (inspect threshold now secret key value) found)

  module _ (threshold : ℤ) (now : Time) (ns_selector secret_selector : Selector) where
    unfoldable pub process_secret : NamespacedName → World → Found → Found
    process_secret key w found =
        check (get_secret key w) (λ _. found)
          λ secret.
            check (matches_selectors S ns_selector secret_selector secret w) (λ _. found)
              λ matched.
                if matched then process_entries threshold now secret secret.entries found else found

    unfoldable pub scan : List NamespacedName → World → Found → Found
    scan [] w found = found
    scan (key ∷ keys) w found = scan keys w (process_secret key w found)
