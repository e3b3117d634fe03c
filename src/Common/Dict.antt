-- ===== src/Common/Dict.antt =====
-- Go's `map[string]V` as an association list. A nil map is the empty one: the code reads both
-- alike, and makes a map before each write to one that may be nil.
use Prim.Native.String.{String}
use mathlib.Core.Path.{◌≡◌, refl}
use mathlib.Core.Option.{Option, none, some}
use mathlib.Core.List.{List, [], ◌∷◌}
use native.Mathlib.Omega.{arith}
use text.Mathlib.Text.{◌==◌}
use text.Mathlib.TextEquality.{eq_iff}
use nacho_operators.Common.Tests.{if◌then◌else◌}

abbrev pub Dict {ℓ} : Type ℓ → Type ℓ
Dict V = List (String × V)

module _ {ℓ} {V : Type ℓ} where
  -- `found, ok := m[key]`
  unfoldable pub lookup : String → Dict V → Option V
  lookup key [] = none
  lookup key ((head, found) ∷ rest) = if head == key then some found else lookup key rest

  -- `delete(m, key)`
  unfoldable pub remove : String → Dict V → Dict V
  remove key [] = []
  remove key ((head, old) ∷ rest) =
      let others = remove key rest in if head == key then others else (head, old) ∷ others

  -- `m[key] = new`
  unfoldable pub insert : String → V → Dict V → Dict V
  insert key new [] = (key, new) ∷ []
  insert key new ((head, old) ∷ rest) =
      let others = insert key new rest in
      if head == key then (head, new) ∷ rest else (head, old) ∷ others

  pub lookup-insert :
      (put key : String) (new : V) (m : Dict V)
      → lookup key (insert put new m) ≡ (if put == key then some new else lookup key m)
  unfolding lookup insert
  lookup-insert put key new [] = refl
  lookup-insert put key new ((head, old) ∷ rest) =
      ground
        (arith, eq_iff put key, lookup-insert put key new rest, eq_iff head key, eq_iff head put)

  -- Writing a new key and deleting it again gives the map back.
  pub remove-insert :
      (key : String) (new : V) (m : Dict V)
      → lookup key m ≡ none
      → remove key (insert key new m) ≡ m
  unfolding lookup insert remove
  remove-insert key new [] h = ground (arith, eq_iff key key)
  remove-insert key new ((head, old) ∷ rest) h = ground (arith, remove-insert key new rest)

  -- A key that is written twice with one value stays as the first write left it.
  pub insert_idem :
      (key : String) (new : V) (m : Dict V) → insert key new (insert key new m) ≡ insert key new m
  unfolding insert
  insert_idem key new [] = ground (arith, eq_iff key key)
  insert_idem key new ((head, old) ∷ rest) = ground (arith, insert_idem key new rest)
