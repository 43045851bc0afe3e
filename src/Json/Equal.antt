-- ===== src/Json/Equal.antt =====
-- `schema_values_equal` of crates/core/src/lib.rs. Objects of one size are compared by looking each key of
-- the left one up in the right one.
use agent_capability_gate.Prelude.{
  Bool, true, false, ◌&&◌, Option, none, some, List, [], ◌∷◌, Ordering, eqb, length, Map, get,
}
use agent_capability_gate.Json.{
  Value, number, array, object, Items, nil, item, Fields, end, field, items, fields, value_eq,
}
use agent_capability_gate.Json.Order.{numeric_compare}

abbrev order_is_equal : Option Ordering → Bool
order_is_equal (some Ordering.eq) = true
order_is_equal _ = false

-- `zip` stops at the shorter list; the lengths have been compared before.
abbrev equal_to_head : (Value → Bool) → List Value → Bool
equal_to_head same [] = true
equal_to_head same (w ∷ ws) = same w

abbrev rest_of : List Value → List Value
rest_of [] = []
rest_of (w ∷ ws) = ws

abbrev equal_to_entry : (Value → Bool) → Option Value → Bool
equal_to_entry same none = false
equal_to_entry same (some w) = same w

unfoldable mutual
  pub schema_values_equal : Value → Value → Bool
  schema_values_equal (number m) (number n) = order_is_equal (numeric_compare m n)
  schema_values_equal (array vs) (array ws) =
      eqb (length (items vs)) (length (items ws)) && items_equal vs (items ws)
  schema_values_equal (object fs) (object gs) =
      eqb (length (fields fs)) (length (fields gs)) && fields_equal fs (fields gs)
  schema_values_equal v w = value_eq v w

  pub items_equal : Items → List Value → Bool
  items_equal nil ws = true
  items_equal (item v vs) ws =
      equal_to_head (schema_values_equal v) ws && items_equal vs (rest_of ws)

  pub fields_equal : Fields → Map Value → Bool
  fields_equal end m = true
  fields_equal (field k v fs) m =
      equal_to_entry (schema_values_equal v) (get k m) && fields_equal fs m
