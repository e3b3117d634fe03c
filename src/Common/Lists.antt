-- ===== src/Common/Lists.antt =====
-- Lists measured by native numbers, under the library's names, and predicates by recursion.
use Prim.Native.Nat.{ℕ, suc, ◌+◌}
use mathlib.Core.Path.{◌≡◌, refl, ap}
use mathlib.Core.Bool.{Bool, true, false, ◌&&◌, ◌||◌}
use mathlib.Core.Logic.{◌⊎◌, inl, inr}
use mathlib.Core.List.{List, [], ◌∷◌, ◌++◌}
use native.Mathlib.Omega.{arith}
use nacho_operators.Common.Tests.{if◌then◌else◌}

module _ {ℓ} {A : Type ℓ} where
  abbrev pub length : List A → ℕ
  length [] = 0
  length (x ∷ xs) = suc (length xs)

  pub length-append : (xs ys : List A) → length (xs ++ ys) ≡ length xs + length ys
  length-append [] ys = omega arith
  length-append (x ∷ xs) ys = omega (arith, length-append xs ys)

  -- `for … { if test { kept = append(kept, x) } }`
  abbrev pub keep : (A → Bool) → List A → List A
  keep p [] = []
  keep p (x ∷ xs) = let rest = keep p xs in if p x then x ∷ rest else rest

  abbrev pub every : (A → Bool) → List A → Bool
  every p [] = true
  every p (x ∷ xs) = p x && every p xs

  abbrev pub exists : (A → Bool) → List A → Bool
  exists p [] = false
  exists p (x ∷ xs) = p x || exists p xs

  pub keep-append : (p : A → Bool) (xs ys : List A) → keep p (xs ++ ys) ≡ keep p xs ++ keep p ys
  keep-append p [] ys = refl
  keep-append p (x ∷ xs) ys = ground (arith, keep-append p xs ys)

  pub every-keep : (p : A → Bool) (xs : List A) → every p (keep p xs) ≡ true
  every-keep p [] = refl
  every-keep p (x ∷ xs) = ground (arith, every-keep p xs)

  -- Some element has a property.
  abbrev pub Any : (A → Type 0) → List A → Type 0
  Any P [] = ⊥
  Any P (x ∷ xs) = P x ⊎ Any P xs

  pub Any-append← : (P : A → Type 0) (xs ys : List A) → Any P xs ⊎ Any P ys → Any P (xs ++ ys)
  Any-append← P [] ys (inl h) = absurd h
  Any-append← P [] ys (inr h) = h
  Any-append← P (x ∷ xs) ys (inl (inl h)) = inl h
  Any-append← P (x ∷ xs) ys (inl (inr h)) = inr (Any-append← P xs ys (inl h))
  Any-append← P (x ∷ xs) ys (inr h) = inr (Any-append← P xs ys (inr h))

  pub Any-append→ : (P : A → Type 0) (xs ys : List A) → Any P (xs ++ ys) → Any P xs ⊎ Any P ys
  Any-append→ P [] ys h = inr h
  Any-append→ P (x ∷ xs) ys (inl h) = inl (inl h)
  Any-append→ P (x ∷ xs) ys (inr h) = elim (Any-append→ P xs ys h) [
    | inl a ↦ inl (inr a)
    | inr b ↦ inr b
  ]

  pub Any-split :
      (P : A → Type 0) (xs : List A)
      → Any P xs
      → (x : A) × (before : List A) × (after : List A) × (xs ≡ before ++ (x ∷ after)) × P x
  Any-split P [] h = absurd h
  Any-split P (x ∷ xs) (inl p) = (x, [], xs, refl, p)
  Any-split P (x ∷ xs) (inr h) =
      let (y, before, after, e, p) = Any-split P xs h in
      (y, x ∷ before, after, ap (λ ys. x ∷ ys) e, p)

  pub Any-map : (P Q : A → Type 0) (xs : List A) → ((x : A) → P x → Q x) → Any P xs → Any Q xs
  Any-map P Q [] f h = absurd h
  Any-map P Q (x ∷ xs) f (inl p) = inl (f x p)
  Any-map P Q (x ∷ xs) f (inr h) = inr (Any-map P Q xs f h)
