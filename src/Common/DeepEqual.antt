-- ===== src/Common/DeepEqual.antt =====
-- `reflect.DeepEqual`, on the types that the statuses of the operators share.
use mathlib.Core.Bool.{Bool, true, false, not, ◌&&◌}
use mathlib.Core.Option.{Option, none, some}
use mathlib.Core.List.{List, [], ◌∷◌}
use text.Mathlib.Text.{◌==◌}
use nacho_operators.Common.Tests.{nat_eq}
use nacho_operators.Common.Int.{ℤ, pos, negsuc}
use nacho_operators.Common.Meta.{Form, utc, local, clock, Time, Condition}

abbrev pub bool : Bool → Bool → Bool
bool true b = b
bool false b = not b

abbrev pub integer : ℤ → ℤ → Bool
integer (pos m) (pos n) = nat_eq m n
integer (negsuc m) (negsuc n) = nat_eq m n
integer _ _ = false

abbrev pub form : Form → Form → Bool
form utc utc = true
form local local = true
form clock clock = true
form _ _ = false

abbrev pub time : Time → Time → Bool
time s t = nat_eq s.instant t.instant && form s.form t.form

-- Two nil pointers, or pointers to equal values.
abbrev pub optional {ℓ} : {A : Type ℓ} → (A → A → Bool) → Option A → Option A → Bool
optional eq none none = true
optional eq (some a) (some b) = eq a b
optional eq _ _ = false

abbrev pub list {ℓ} : {A : Type ℓ} → (A → A → Bool) → List A → List A → Bool
list eq [] [] = true
list eq (x ∷ xs) (y ∷ ys) = eq x y && list eq xs ys
list eq _ _ = false

unfoldable pub condition : Condition → Condition → Bool
condition a b =
    (a.kind == b.kind)
    && (a.status == b.status)
    && integer a.observed_generation b.observed_generation
    && time a.last_transition_time b.last_transition_time
    && (a.reason == b.reason)
    && (a.message == b.message)
