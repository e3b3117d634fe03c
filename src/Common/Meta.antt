-- ===== src/Common/Meta.antt =====
-- What the operators share of package time, of the API machinery's types and of package http: the
-- fields that they read or write.
use Prim.Native.Nat.{ℕ}
use Prim.Native.String.{String}
use mathlib.Core.Option.{Option}
use nacho_operators.Common.Int.{ℤ}

-- What `reflect.DeepEqual` compares of a `time.Time` besides the instant: X.509 times are in UTC, a
-- time that was decoded from JSON is local, and `time.Now` carries a monotonic reading too.
pub data Form : Type 0 where
  utc local clock : Form

-- Instants count nanoseconds from the zero time.
pub record Time : Type 0 where
  pub instant : ℕ
  pub form : Form

-- `metav1.Condition`
pub record Condition : Type 0 where
  pub kind : String
  pub status : String
  pub observed_generation : ℤ
  pub last_transition_time : Time
  pub reason : String
  pub message : String

pub record Request : Type 0 where
  pub url : String
  pub authorization : Option String
  pub body : String

pub record Response : Type 0 where
  pub status_code : ℕ
  pub body : String
