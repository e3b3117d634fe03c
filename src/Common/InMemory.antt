-- ===== src/Common/InMemory.antt =====
-- What the clusters in memory of the tests share.
use Prim.Native.String.{String}
use mathlib.Core.Bool.{Bool, true, false}
use mathlib.Core.Option.{Option, none, some}
use mathlib.Core.List.{[], ◌∷◌}
use text.Mathlib.Text.{◌==◌}
use nacho_operators.Common.Tests.{if◌then◌else◌}
use nacho_operators.Common.Lists.{every}
use nacho_operators.Common.Dict
use nacho_operators.Common.Dict.{Dict}
use nacho_operators.Common.Effects.{Error, api, errorf, wrapped, Result, ok, err}
use nacho_operators.Common.Control.{Labels, LabelSelector}

abbrev pub not_found : Error
not_found = api "NotFound"

abbrev pub found {ℓ} : {A : Type ℓ} → Option A → Result A
found none = err not_found
found (some a) = ok a

abbrev pub is_not_found : Error → Bool
is_not_found (api reason) = reason == "NotFound"
is_not_found (errorf text) = false
is_not_found (wrapped text e) = is_not_found e

abbrev pub ignore_not_found : Error → Option Error
ignore_not_found e = if is_not_found e then none else some e

abbrev has_label : Dict String → String × String → Bool
has_label ls (k, v) = elim (Dict.lookup k ls) [ none ↦ false | some u ↦ u == v ]

-- No selector matches nothing, and one with no requirement matches everything.
abbrev pub plain_labels : Labels
plain_labels = record {
  Selector = Option LabelSelector;
  label_selector_as_selector = λ s. ok s;
  everything = some (record { match_labels = []; match_expressions = [] });
  matches = λ s ls. elim s [ none ↦ false | some l ↦ every (has_label ls) l.match_labels ];
  is_empty =
      λ s. elim s [ none ↦ false | some l ↦ elim l.match_labels [ [] ↦ true | _ ∷ _ ↦ false ] ];
  selector_string = λ s. "";
}
