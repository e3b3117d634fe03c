-- ===== src/Common/Texts.antt =====
-- Lists of texts.
use Prim.Native.String.{String}
use mathlib.Core.Path.{◌≡◌, refl}
use mathlib.Core.Bool.{Bool, false, ◌||◌}
use mathlib.Core.List.{List, [], ◌∷◌, ◌++◌}
use native.Mathlib.Omega.{arith}
use text.Mathlib.Text.{◌==◌}
use text.Mathlib.TextEquality.{eq_iff}

abbrev pub contains : List String → String → Bool
contains [] v = false
contains (u ∷ us) v = u == v || contains us v

pub contains-append :
    (us vs : List String) (v : String) → contains (us ++ vs) v ≡ (contains us v || contains vs v)
contains-append [] vs v = refl
contains-append (u ∷ us) vs v = ground (arith, contains-append us vs v)

-- No text is listed twice.
abbrev pub Distinct : List String → Type 0
Distinct [] = Unit
Distinct (v ∷ vs) = (contains vs v ≡ false) × Distinct vs

pub append-Distinct :
    (v : String) (vs : List String)
    → contains vs v ≡ false
    → Distinct vs
    → Distinct (vs ++ (v ∷ []))
append-Distinct v [] h d = (refl, tt)
append-Distinct v (u ∷ us) h (fresh, d) = (
  rw contains-append (ground (arith, eq_iff u v, eq_iff v u)),
  append-Distinct v us (ground arith) d,
)
