-- ===== src/Common/Control.antt =====
-- What the three controllers share of controller-runtime and of the API types: the result of a
-- reconciliation, durations, object keys, and label selectors.
use Prim.Native.Nat.{ℕ, ◌*◌}
use Prim.Native.String.{String}
use mathlib.Core.Bool.{Bool, true, false}
use mathlib.Core.Option.{Option, none, some}
use mathlib.Core.List.{List}
use nacho_operators.Common.Dict.{Dict}
use nacho_operators.Common.Effects.{Error, Result}

-- Instants and durations count nanoseconds.
abbrev pub second : ℕ
second = 1_000_000_000

abbrev pub minute : ℕ
minute = 60 * second

abbrev pub hour : ℕ
hour = 60 * minute

-- `ctrl.Result`
pub record CtrlResult : Type 0 where
  pub requeue : Bool
  pub requeue_after : ℕ

-- What a handler returns, `(ctrl.Result, error)`, or a panic.
pub data Outcome : Type 0 where
  returns : CtrlResult → Option Error → Outcome
  panics : Outcome

-- `ctrl.Result{}, nil`
abbrev pub finished : Outcome
finished = returns (record { requeue = false; requeue_after = 0 }) none

-- `ctrl.Result{RequeueAfter: d}, nil`
abbrev pub again_after : ℕ → Outcome
again_after d = returns (record { requeue = false; requeue_after = d }) none

-- `ctrl.Result{Requeue: true}, nil`
abbrev pub again : Outcome
again = returns (record { requeue = true; requeue_after = 0 }) none

-- `ctrl.Result{Requeue: true}, err`
abbrev pub again_with : Error → Outcome
again_with e = returns (record { requeue = true; requeue_after = 0 }) (some e)

-- `ctrl.Result{}, err`, where `err` may be nil
abbrev pub fails_with : Option Error → Outcome
fails_with e = returns (record { requeue = false; requeue_after = 0 }) e

-- `types.NamespacedName`
pub record NamespacedName : Type 0 where
  pub namespace : String
  pub name : String

-- `metav1.LabelSelector`
pub record Requirement : Type 0 where
  pub key : String
  pub operator : String
  pub values : List String

pub record LabelSelector : Type 0 where
  pub match_labels : Dict String
  pub match_expressions : List Requirement

-- Package labels, and the conversion from the API type; a nil pointer is `none`.
pub record Labels : Type 1 where
  pub Selector : Type 0
  pub label_selector_as_selector : Option LabelSelector → Result Selector
  pub everything : Selector
  pub matches : Selector → Dict String → Bool
  pub is_empty : Selector → Bool
  pub selector_string : Selector → String
