-- ===== src/Boundary/Limits.antt =====
-- `request_within_limits` of crates/boundary/src/main.rs.
pub mod Exact
use agent_capability_gate.Prelude.{
  ℕ, suc, String, len, Bool, true, false, ◌&&◌, length, leb, ltb, if◌then◌else◌,
}
use agent_capability_gate.Json.{
  Value, null, bool, number, string, array, object, Items, nil, item, items, Fields, end, field,
}
use agent_capability_gate.Diagnostics.{max_string_bytes, max_array_items}

-- Every key is short enough.
abbrev pub keys_within : Fields → Bool
keys_within end = true
keys_within (field k v fs) = leb (len k) max_string_bytes && keys_within fs

unfoldable mutual
  pub request_within_limits : Value → ℕ → ℕ → Bool
  request_within_limits (string s) depth max_depth =
      if ltb max_depth depth then false else leb (len s) max_string_bytes
  request_within_limits (array vs) depth max_depth =
      let rest = items_within vs (suc depth) max_depth in
      if ltb max_depth depth then false else leb (length (items vs)) max_array_items && rest
  request_within_limits (object fs) depth max_depth =
      let rest = values_within fs (suc depth) max_depth in
      if ltb max_depth depth then false else keys_within fs && rest
  request_within_limits v depth max_depth = if ltb max_depth depth then false else true

  pub items_within : Items → ℕ → ℕ → Bool
  items_within nil depth max_depth = true
  items_within (item v vs) depth max_depth =
      request_within_limits v depth max_depth && items_within vs depth max_depth

  pub values_within : Fields → ℕ → ℕ → Bool
  values_within end depth max_depth = true
  values_within (field k v fs) depth max_depth =
      request_within_limits v depth max_depth && values_within fs depth max_depth
