-- ===== src/Json/Limits.antt =====
-- `value_exceeds_depth`, `contains_nul` and `canonicalize` of crates/core/src/lib.rs.
use agent_capability_gate.Prelude.{
  ℕ, zero, suc, ◌-◌, Bool, true, false, ◌||◌, has_nul, if◌then◌else◌, pos,
}
use agent_capability_gate.Json.{
  Value, number, string, array, object, Items, nil, item, Fields, end, field, is_some_and,
}
use agent_capability_gate.Json.Numbers.{Number, int, as_f64, is_zero, round_to_f64}

-- `MAX_JSON_DEPTH` and `MAX_SCHEMA_DEPTH`
abbrev pub max_schema_depth : ℕ
max_schema_depth = 32

-- Recursion on the levels that are left, `max_schema_depth + 1 - depth`, in place of `depth`.
mutual
  exceeds : Value → ℕ → Bool
  exceeds v zero = true
  exceeds (array vs) (suc left) = items_exceed vs left
  exceeds (object fs) (suc left) = fields_exceed fs left
  exceeds v (suc left) = false

  items_exceed : Items → ℕ → Bool
  items_exceed nil left = false
  items_exceed (item v vs) left = exceeds v left || items_exceed vs left

  fields_exceed : Fields → ℕ → Bool
  fields_exceed end left = false
  fields_exceed (field k v fs) left = exceeds v left || fields_exceed fs left

unfoldable pub value_exceeds_depth : Value → ℕ → Bool
unfolding exceeds
value_exceeds_depth v depth = exceeds v (suc max_schema_depth - depth)

unfoldable mutual
  pub contains_nul : Value → Bool
  contains_nul (string s) = has_nul s
  contains_nul (array vs) = items_contain_nul vs
  contains_nul (object fs) = fields_contain_nul fs
  contains_nul v = false

  pub items_contain_nul : Items → Bool
  items_contain_nul nil = false
  items_contain_nul (item v vs) = contains_nul v || items_contain_nul vs

  pub fields_contain_nul : Fields → Bool
  fields_contain_nul end = false
  fields_contain_nul (field k v fs) = contains_nul v || fields_contain_nul fs

-- Zero in any form becomes the integer 0.
unfoldable pub canonical_number : Number → Number
unfolding round_to_f64
canonical_number n = if is_some_and (as_f64 n) is_zero then int (pos 0) else n

unfoldable mutual
  pub canonicalize : Value → Value
  canonicalize (number n) = number (canonical_number n)
  canonicalize (array vs) = array (canonicalize_items vs)
  canonicalize (object fs) = object (canonicalize_fields fs)
  canonicalize v = v

  pub canonicalize_items : Items → Items
  canonicalize_items nil = nil
  canonicalize_items (item v vs) = item (canonicalize v) (canonicalize_items vs)

  pub canonicalize_fields : Fields → Fields
  canonicalize_fields end = end
  canonicalize_fields (field k v fs) = field k (canonicalize v) (canonicalize_fields fs)
