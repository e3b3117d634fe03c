-- ===== src/Common/Float.antt =====
-- Numbers of type float64 that are not negative, as multiples of 2 ^ -100: what arithmetic gives is
-- rounded to 53 binary digits, half-way cases to the even digit.
use Prim.Native.Nat.{◌%◌}
use native.Mathlib.Nat.{div-add-mod', mod-lt}
use nacho_operators.Common.{
  ℕ, zero, suc, ◌+◌, ◌*◌, ◌/◌, ◌^◌, ◌≤◌, ◌<◌, ◌≡◌, Bool, true, false, refl, ◌&&◌, ◌||◌, ltb, nat_eq,
  if◌then◌else◌, arith,
}

-- The number one.
abbrev pub unit : ℕ
unit = 2 ^ 100

-- The whole number nearest to a quotient.
unfoldable pub to_nearest : ℕ → ℕ → ℕ
to_nearest a b =
    if ltb b (2 * (a % b)) || nat_eq b (2 * (a % b)) && nat_eq (a / b % 2) 1
    then suc (a / b)
    else a / b

-- The float64 nearest to a quotient, given in units; the fuel bounds its exponent.
unfoldable pub round : ℕ → ℕ → ℕ → ℕ
round zero a b = to_nearest a b
round (suc n) a b =
    let rest = round n a (2 * b) in if ltb a (2 ^ 53 * b) then to_nearest a b else 2 * rest

abbrev power : ℕ → ℕ
power zero = 1
power (suc e) = 2 * power e

module _ (a b : ℕ) (h : 0 < b) where
  parts : (a / b * b + a % b ≡ a) × (a % b < b)
  parts = (omega (arith, div-add-mod' a b), mod-lt a h)

  to_nearest-near : (2 * a ≤ 2 * (to_nearest a b * b) + b) × (2 * (to_nearest a b * b) ≤ 2 * a + b)
  unfolding to_nearest
  to_nearest-near = let (whole, less) = parts in (grind arith, grind arith)

  to_nearest-floor : (v : ℕ) → v * b ≤ a → v ≤ to_nearest a b
  unfolding to_nearest
  to_nearest-floor v p = let (whole, less) = parts in grind arith

power-positive : (e : ℕ) → 0 < power e
power-positive zero = omega arith
power-positive (suc e) = omega (arith, power-positive e)

-- What is below 2 ^ (53 + e) is rounded by at most half of 2 ^ e.
abbrev pub IsNear : ℕ → ℕ → ℕ → ℕ → Type 0
IsNear e a b r = (2 * a ≤ 2 * (r * b) + power e * b) × (2 * (r * b) ≤ 2 * a + power e * b)

pub round-IsNear :
    (n e a b : ℕ) → e ≤ n → 0 < b → a < 2 ^ 53 * (power e * b) → IsNear e a b (round n a b)
unfolding round
round-IsNear zero zero a b le h p =
    let (low, high) = to_nearest-near a b h in (omega arith, omega arith)
round-IsNear zero (suc e) a b le h p = absurd (omega arith)
round-IsNear (suc n) zero a b le h p =
    let (low, high) = to_nearest-near a b h in (ground arith, ground arith)
round-IsNear (suc n) (suc e) a b le h p =
    by_size (ltb a (2 ^ 53 * b)) refl
      (round-IsNear n e a (2 * b) (omega arith) (omega arith) (grind arith))
  where
    by_size :
        (t : Bool)
        → ltb a (2 ^ 53 * b) ≡ t
        → IsNear e a (2 * b) (round n a (2 * b))
        → IsNear (suc e) a b (round (suc n) a b)
    by_size true q near =
        let (low, high) = to_nearest-near a b h in
        let more = power-positive e in rw (round, q) (grind arith, grind arith)
    by_size false q (low, high) = rw (round, q) (grind arith, grind arith)

-- It is not rounded below a multiple of 2 ^ e.
pub round-floor :
    (n e a b v : ℕ)
    → e ≤ n
    → 0 < b
    → a < 2 ^ 53 * (power e * b)
    → v * power e * b ≤ a
    → v * power e ≤ round n a b
unfolding round
round-floor zero zero a b v le h p q = to_nearest-floor a b h (v * 1) q
round-floor zero (suc e) a b v le h p q = absurd (omega arith)
round-floor (suc n) zero a b v le h p q =
    let least = to_nearest-floor a b h (v * 1) q in ground arith
round-floor (suc n) (suc e) a b v le h p q =
    by_size (ltb a (2 ^ 53 * b)) refl
      (round-floor n e a (2 * b) v (omega arith) (omega arith) (grind arith) (grind arith))
  where
    by_size :
        (t : Bool)
        → ltb a (2 ^ 53 * b) ≡ t
        → v * power e ≤ round n a (2 * b)
        → v * power (suc e) ≤ round (suc n) a b
    by_size true r least = rw (round, r) (to_nearest-floor a b h (v * power (suc e)) q)
    by_size false r least = rw (round, r) (grind arith)
