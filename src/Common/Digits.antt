-- ===== src/Common/Digits.antt =====
-- How long the decimal verb makes a number.
use Prim.Native.Nat.{ℕ, zero, suc, ◌+◌, ◌*◌, ◌/◌, ◌%◌, ◌≤◌, ◌<◌}
use Prim.Native.String.{String, len}
use text.Mathlib.TextPositions.{len-append}
use nacho_operators.Common.{◌≡◌, refl, Bool, true, false, arith, nat_eq, if◌then◌else◌}
use nacho_operators.Common.Int.{pos}
use nacho_operators.Common.Strings.{digit, decimal_from, decimal}

abbrev pub power_of_ten : ℕ → ℕ
power_of_ten zero = 1
power_of_ten (suc k) = 10 * power_of_ten k

len_if : (b : Bool) (s t : String) → len s ≡ 1 → len t ≡ 1 → len (if b then s else t) ≡ 1
len_if true s t p q = p
len_if false s t p q = q

len-digit : (n : ℕ) → len (digit n) ≡ 1
len-digit n = len_if (nat_eq n 0) _ _ refl (
    len_if (nat_eq n 1) _ _ refl (
      len_if (nat_eq n 2) _ _ refl (
        len_if (nat_eq n 3) _ _ refl (
          len_if (nat_eq n 4) _ _ refl (
            len_if (nat_eq n 5) _ _ refl (
              len_if (nat_eq n 6) _ _ refl
                (len_if (nat_eq n 7) _ _ refl (len_if (nat_eq n 8) _ _ refl refl))))))))

len-decimal_from : (k f n : ℕ) → n < power_of_ten (suc k) → len (decimal_from f n) ≤ suc k
unfolding decimal_from
len-decimal_from k zero n b = omega arith
len-decimal_from zero (suc f) n b = ground (arith, len-digit n)
len-decimal_from (suc k) (suc f) n b = ground (
  arith,
  len-digit n,
  len-digit (n % 10),
  len-append (decimal_from f (n / 10)) (digit (n % 10)),
  len-decimal_from k f (n / 10) (omega arith),
)

pub len-decimal : (k n : ℕ) → n < power_of_ten (suc k) → len (decimal (pos n)) ≤ suc k
unfolding decimal
len-decimal k n b = len-decimal_from k (n + 1) n b
