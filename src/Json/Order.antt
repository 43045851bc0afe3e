-- ===== src/Json/Order.antt =====
-- `NumericValue`, `numeric_value`, `compare_integer_float` and `numeric_compare` of crates/core/src/lib.rs.
pub mod Exact
use agent_capability_gate.Prelude.{
  ℕ, ◌*◌, ◌/◌, ◌%◌, ◌^◌, compare, Ordering, true, false, not, ◌&&◌, Option, none, some, leb, eqb,
  if◌then◌else◌, ℤ, magnitude, is_negative, compare_ℤ, reverse_order,
}
use agent_capability_gate.Json.Numbers.{
  F64, finite, infinite, nan, is_finite, signed_compare, partial_cmp, Number, as_i128, as_f64,
}

pub data NumericValue : Type 0 where
  integer : ℤ → NumericValue
  float : F64 → NumericValue

numeric_float : Option F64 → Option NumericValue
numeric_float none = none
numeric_float (some x) = if is_finite x then some (float x) else none

unfoldable pub numeric_value : Number → Option NumericValue
unfolding numeric_float
numeric_value n = elim (as_i128 n) [ some z ↦ some (integer z) | none ↦ numeric_float (as_f64 n) ]

-- `then_with`, for the comparison of the fractional part
abbrev then_with : Ordering → Ordering → Ordering
then_with Ordering.eq o = o
then_with other o = other

-- The order of an integer's magnitude and a float's magnitude num / 2 ^ shift.
magnitude_order : ℕ → ℕ → ℕ → Ordering
magnitude_order m num shift =
    if leb (2 ^ 127 * 2 ^ shift) num
    then Ordering.lt
    else then_with (compare m (num / 2 ^ shift))
        (if eqb (num % 2 ^ shift) 0 then Ordering.eq else Ordering.lt)

-- The source asserts that the float is finite, and `numeric_compare` calls it so; `nan` has no order.
unfoldable pub compare_integer_float : ℤ → F64 → Ordering
unfolding magnitude_order
compare_integer_float z (finite neg num shift) =
    let float_negative = neg && not (eqb num 0) in
    let order = magnitude_order (magnitude z) num shift in
    if eqb (magnitude z) 0 then signed_compare neg num false 0 else elim (is_negative z) [
      | true ↦ if float_negative then reverse_order order else Ordering.lt
      | false ↦ if float_negative then Ordering.gt else order
    ]
compare_integer_float z (infinite neg) = if neg then Ordering.gt else Ordering.lt
compare_integer_float z nan = Ordering.eq

compare_values : NumericValue → NumericValue → Option Ordering
compare_values (integer a) (integer b) = some (compare_ℤ a b)
compare_values (integer a) (float y) = some (compare_integer_float a y)
compare_values (float x) (integer b) = some (reverse_order (compare_integer_float b x))
compare_values (float x) (float y) = partial_cmp x y

compare_options : Option NumericValue → Option NumericValue → Option Ordering
compare_options (some a) (some b) = compare_values a b
compare_options _ _ = none

unfoldable pub numeric_compare : Number → Number → Option Ordering
unfolding compare_values compare_options numeric_value compare_integer_float
numeric_compare left right = compare_options (numeric_value left) (numeric_value right)
