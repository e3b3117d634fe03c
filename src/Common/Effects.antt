-- ===== src/Common/Effects.antt =====
-- Go's `(value, error)` results, the errors, and calls that read or change the world.
use Prim.Native.String.{String}
use mathlib.Core.Path.{◌≡◌, ap}

-- `api` is an error value of a library, told apart by a reason; `errorf` is `fmt.Errorf` without
-- `%w`, and `wrapped` is `fmt.Errorf` with it.
pub data Error : Type 0 where
  api : String → Error
  errorf : String → Error
  wrapped : String → Error → Error

pub data Result {ℓ} (A : Type ℓ) : Type ℓ where
  ok : A → Result A
  err : Error → Result A

pub ok-injective {ℓ} : {A : Type ℓ} {a b : A} → ok a ≡ ok b → a ≡ b
ok-injective {a} e = ap (λ r. elim r [ ok x ↦ x | err _ ↦ a ]) e

-- `if err != nil { bad } else { good }` on a value that is at hand.
abbrev pub check {ℓ κ} : {A : Type ℓ} {B : Type κ} → Result A → (Error → B) → (A → B) → B
check (ok a) bad good = good a
check (err e) bad good = bad e

-- A call that may change the world of `W`.
abbrev pub Go {ℓ κ} : Type ℓ → Type κ → Type (ℓ ⊔ κ)
Go W A = W → A × W

abbrev pub pure {ℓ κ} : {W : Type ℓ} {A : Type κ} → A → Go W A
pure a w = (a, w)

-- `if err := call; err != nil { bad } else { good }`
abbrev pub attempt {ℓ κ μ} :
    {W : Type ℓ} {A : Type κ} {B : Type μ}
    → Go W (Result B)
    → (Error → Go W A)
    → (B → Go W A)
    → Go W A
attempt call bad good w = let (r, w') = call w in check r (λ e. bad e w') (λ b. good b w')

-- One call, then another that reads its value.
infixl 5 ◌>>=◌ ◌>>◌
abbrev pub ◌>>=◌ {ℓ κ μ} : {W : Type ℓ} {A : Type κ} {B : Type μ} → Go W A → (A → Go W B) → Go W B
◌>>=◌ call next w = let (a, w') = call w in next a w'

abbrev pub ◌>>◌ {ℓ κ} : {W : Type ℓ} {B : Type κ} → Go W (Unit {0}) → Go W B → Go W B
call >> next = call >>= λ _. next
