-- ===== src/Conflicts/Detector.antt =====
-- app/conflicts/detector.py, with the groups of loader.py as they are after validation. The facts of
-- the documents are a table of rows, newest first, that carries each document's type.
use nbfc_compliance_agent.Prelude.{
  ℕ, ◌*◌, ◌==◌, ltb, leb, String, str_eq, Bool, true, false, not, ◌&&◌, Option, none, some, List,
  if◌then◌else◌,
}
use nbfc_compliance_agent.Prelude.Int.{ℤ, pos, sub_ℕ, ◌-ℤ◌, abs, floor_div, leb_ℤ}
use nbfc_compliance_agent.Prelude.Raises.{Raises, returned, raised, conflict_comparison_error}
use nbfc_compliance_agent.Domain.Enums.{ConflictType, value_mismatch, date_order, tolerance_breach}
use nbfc_compliance_agent.Domain.Facts.{
  Date, DateTime, FactValue, date_value, datetime_value, time_value, money_value, rate_value,
  int_value, days_value, bool_value, enum_value, string_value, hour,
}

pub data Operator : Type 0 where
  equal equal_within in_order : Operator

pub data Direction : Type 0 where
  after before strictly_increasing : Direction

pub record ConflictMember : Type 0 where
  pub doc_type : String
  pub field : String

-- `params`, with the keys that the code reads.
pub record Params : Type 0 where
  pub tolerance : Option ℤ
  pub direction : Option Direction
  pub within_days : Option ℤ

pub record ConflictGroup : Type 0 where
  pub key : String
  pub members : List ConflictMember
  pub operator : Operator
  pub tolerance : Option ℤ
  pub params : Params
  pub raises_check : String

pub record FetchedFact : Type 0 where
  pub id : ℕ
  pub value : FactValue

-- What `_scalar_of` returns, by its Python type.
pub data Scalar : Type 0 where
  number : ℤ → Scalar
  day : Date → Scalar
  moment : DateTime → Scalar
  time_of_day : ℕ → Scalar
  truth : Bool → Scalar
  word : String → Scalar

unfoldable pub scalar_of : FactValue → Scalar
scalar_of (money_value paise currency) = number paise
scalar_of (rate_value bps) = number bps
scalar_of (days_value days) = number days
scalar_of (int_value n) = number n
scalar_of (date_value d) = day d
scalar_of (datetime_value t) = moment t
scalar_of (time_value t) = time_of_day t
scalar_of (bool_value b) = truth b
scalar_of (enum_value s) = word s
scalar_of (string_value s) = word s

-- `value.kind`, as a number.
unfoldable pub kind_of : FactValue → ℕ
kind_of (date_value d) = 0
kind_of (datetime_value t) = 1
kind_of (time_value t) = 2
kind_of (money_value paise currency) = 3
kind_of (rate_value bps) = 4
kind_of (int_value n) = 5
kind_of (days_value days) = 6
kind_of (bool_value b) = 7
kind_of (enum_value s) = 8
kind_of (string_value s) = 9

unfoldable pub equal_ints : ℤ → ℤ → Bool
equal_ints a b = leb_ℤ a b && leb_ℤ b a

-- `av == bv`
unfoldable pub equal_scalars : Scalar → Scalar → Bool
unfolding equal_ints
equal_scalars (number a) (number b) = equal_ints a b
equal_scalars (day a) (day b) = a == b
equal_scalars (moment a) (moment b) = a.instant == b.instant
equal_scalars (time_of_day a) (time_of_day b) = a == b
equal_scalars (truth a) (truth b) = if a then b else not b
equal_scalars (word a) (word b) = str_eq a b
equal_scalars _ _ = false

-- Two dates or two datetimes as points, with the number of points in a day.
unfoldable pub points : Scalar → Scalar → Option (ℕ × ℕ × ℕ)
points (day a) (day b) = some (a, b, 1)
points (moment a) (moment b) = some (a.instant, b.instant, 24 * hour)
points _ _ = none

-- `(bv - av).days`
unfoldable pub days_of : ℕ × ℕ × ℕ → ℤ
days_of (a, b, unit) = floor_div (sub_ℕ b a) unit

within : Option ℤ → ℤ → Bool
within none days = true
within (some limit) days = leb_ℤ days limit

unfoldable pub in_direction : Params → ℕ × ℕ × ℕ → Raises Bool
unfolding within
in_direction params (a, b, unit) = elim params.direction [
  | some after ↦
      returned (if leb b a then false else within params.within_days (days_of (a, b, unit)))
  | some before ↦ returned (ltb b a)
  | some strictly_increasing ↦ raised conflict_comparison_error
  | none ↦ raised conflict_comparison_error
]

default_zero : Option ℤ → ℤ
default_zero none = pos 0
default_zero (some t) = t

compare_within : ℤ → Scalar → Scalar → Raises Bool
compare_within tolerance (number a) (number b) = returned (leb_ℤ (abs (a -ℤ b)) tolerance)
compare_within tolerance _ _ = raised conflict_comparison_error

compare_order : Params → Option (ℕ × ℕ × ℕ) → Raises Bool
compare_order params none = raised conflict_comparison_error
compare_order params (some p) = in_direction params p

-- True where the two are consistent.
unfoldable pub compare : Operator → FactValue → FactValue → Params → Raises Bool
unfolding compare_within compare_order default_zero
compare op a b params =
    if kind_of a == kind_of b
    then elim op [
      | equal ↦ returned (equal_scalars (scalar_of a) (scalar_of b))
      | equal_within ↦ compare_within (default_zero params.tolerance) (scalar_of a) (scalar_of b)
      | in_order ↦ compare_order params (points (scalar_of a) (scalar_of b))
    ]
    else raised conflict_comparison_error

pub data Delta : Type 0 where
  dates : Scalar → Scalar → (days : ℤ) → Delta
  numbers : Scalar → Scalar → (diff : ℤ) → Delta
  texts : Scalar → Scalar → Delta

as_int : Bool → ℤ
as_int true = pos 1
as_int false = pos 0

-- _delta_for, of two values of one kind.
unfoldable pub delta_for : FactValue → FactValue → Delta
unfolding as_int
delta_for a b = elim (points (scalar_of a) (scalar_of b)) [
  | some p ↦ dates (scalar_of a) (scalar_of b) (days_of p)
  | none ↦ other (scalar_of a) (scalar_of b)
]
  where
    other : Scalar → Scalar → Delta
    other (number x) (number y) = numbers (number x) (number y) (x -ℤ y)
    other (truth x) (truth y) = numbers (truth x) (truth y) (as_int x -ℤ as_int y)
    other x y = texts x y

unfoldable pub conflict_type_for : Operator → ConflictType
conflict_type_for equal_within = tolerance_breach
conflict_type_for in_order = date_order
conflict_type_for equal = value_mismatch

pub record DetectedConflict : Type 0 where
  pub group_key : String
  pub field_key : String
  pub fact_a_id : ℕ
  pub fact_b_id : ℕ
  pub conflict_type : ConflictType
  pub operator : Operator
  pub delta : Delta
  pub raises_check : String
