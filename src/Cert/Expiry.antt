-- ===== src/Cert/Expiry.antt =====
-- When a certificate counts as expired and when as near its expiration.
use nacho_operators.Common.{
  ℕ, ◌+◌, ◌*◌, ◌-◌, ◌≤◌, ◌<◌, String, ◌≡◌, true, ◌↔◌, ◌⊎◌, inl, inr, arith,
}
use nacho_operators.Cert.Durations.{whole_days-lower, whole_days-upper}
use nacho_operators.Common.Int.{pos}
use nacho_operators.Cert.Types.{Time, Certificate, Secret}
use nacho_operators.Cert.Scan.{day, min, max_duration, days_until, certificate_info}

module _ (now : Time) (secret : Secret) (key : String) (cert : Certificate) where
  abbrev expiry : ℕ
  expiry = cert.not_after.instant

  expired_to :
      (t : ℕ)
      → (certificate_info (pos t) now secret key cert).is_expired ≡ true
      → expiry < now.instant
  unfolding certificate_info
  expired_to t h = ground arith

  -- The time left does not fall short of the threshold and one more day by less than two microseconds,
  -- where float64 may round it up to that day.
  abbrev pub IsClear : ℕ → Type 0
  IsClear t =
      (expiry + 2_000 ≤ now.instant + (t + 1) * day) ⊎ (now.instant + (t + 1) * day ≤ expiry)

  -- The time left, as `Sub` gives it.
  abbrev left : ℕ
  left = min (expiry - now.instant) max_duration

  near_to :
      (t : ℕ)
      → t ≤ 106_750
      → (certificate_info (pos t) now secret key cert).is_near_expiration ≡ true
      → (now.instant ≤ expiry) × (0 < t) × (expiry < now.instant + (t + 1) * day)
  unfolding certificate_info days_until
  near_to t b h =
      let long = whole_days-lower left (ground arith) (t + 1) in
      (ground arith, ground arith, ground (arith, long))

  near_from :
      (t : ℕ)
      → t ≤ 106_750
      → IsClear t
      → (now.instant ≤ expiry) × (0 < t) × (expiry < now.instant + (t + 1) * day)
      → (certificate_info (pos t) now secret key cert).is_near_expiration ≡ true
  unfolding certificate_info days_until
  near_from t b (inl clear) (h, p, q) =
      let short = whole_days-upper left (ground arith) (t + 1) (ground arith) in ground arith
  near_from t b (inr long) (h, p, q) = absurd (omega arith)

  expired_from :
      (t : ℕ)
      → expiry < now.instant
      → (certificate_info (pos t) now secret key cert).is_expired ≡ true
  unfolding certificate_info
  expired_from t h = ground arith

  -- For a threshold of at most 106750 days, a certificate is expired exactly if its expiry lies
  -- before the current time, and near its expiration exactly if it is not expired, the threshold is
  -- positive and less than the threshold and one more day are left. The condition is that the time
  -- left does not fall short of the threshold and one more day by less than two microseconds, where
  -- the float64 division of the code may round up to the whole day.
  pub certificate_info_iff :
      (t : ℕ)
      → t ≤ 106_750
      → IsClear t
      → ((certificate_info (pos t) now secret key cert).is_expired ≡ true ↔ expiry < now.instant)
        × ((certificate_info (pos t) now secret key cert).is_near_expiration ≡ true
            ↔ ((now.instant ≤ expiry) × (0 < t) × (expiry < now.instant + (t + 1) * day)))
  certificate_info_iff t b clear =
      ((expired_to t, expired_from t), (near_to t b, near_from t b clear))
