-- ===== src/Cert/Durations.antt =====
-- How float64 rounds the days of a duration, for `int(d.Hours() / 24)` in
-- cert-monitor-operator/internal/controller/certificatemonitor_controller.go.
use Prim.Native.Nat.{◌%◌}
use nacho_operators.Common.{ℕ, ◌+◌, ◌*◌, ◌/◌, ◌^◌, ◌≤◌, ◌<◌, hour, arith}
use nacho_operators.Common.Float.{unit, round, IsNear, round-IsNear, round-floor}
use nacho_operators.Cert.Scan.{day, max_duration, hours_of, whole_days}

module _ (d : ℕ) (bound : d ≤ max_duration) where
  abbrev fraction : ℕ
  fraction = round 128 (d % hour * unit) hour

  fraction-IsNear : IsNear 47 (d % hour * unit) hour fraction
  fraction-IsNear = round-IsNear 128 47 _ hour (omega arith) (omega arith) (omega arith)

  sum_fits : d / hour * unit + fraction < 2 ^ 53 * (2 ^ 69 * 1)
  sum_fits = omega (arith, fraction-IsNear.0, fraction-IsNear.1)

  hours-IsNear : IsNear 69 (d / hour * unit + fraction) 1 (hours_of d)
  hours-IsNear = round-IsNear 128 69 _ 1 (omega arith) (omega arith) sum_fits

  hours_fit : hours_of d < 2 ^ 53 * (2 ^ 64 * 24)
  hours_fit = omega (arith, fraction-IsNear.1, hours-IsNear.1)

  hours_lower : d / hour * unit ≤ hours_of d
  hours_lower = omega (
    arith,
    round-floor 128 69 (d / hour * unit + fraction) 1 (d / hour * 2 ^ 31) (omega arith)
        (omega arith) sum_fits (omega arith),
  )

  -- A duration of that many days has them in float64 as well.
  pub whole_days-lower : (k : ℕ) → k * day ≤ d → k ≤ whole_days d
  unfolding whole_days
  whole_days-lower k h = omega (
    arith,
    round-floor 128 64 (hours_of d) 24 (k * 2 ^ 36) (omega arith) (omega arith) hours_fit
        (omega (arith, hours_lower)),
  )

  -- A duration that is shorter by two microseconds is not rounded up to that many days.
  pub whole_days-upper : (k : ℕ) → d + 2_000 ≤ k * day → whole_days d < k
  unfolding whole_days
  whole_days-upper k h =
      let near : IsNear 64 (hours_of d) 24 (round 128 (hours_of d) 24) =
        round-IsNear 128 64 (hours_of d) 24 (omega arith) (omega arith) hours_fit in
      omega (arith, near.1, hours-IsNear.1, fraction-IsNear.1)
