-- ===== src/Exposure/Intersect.antt =====
-- `intersect_property_schema` of crates/core/src/lib.rs, one function for each group of keywords.
use agent_capability_gate.Prelude.{
  ℕ, ◌-◌, max, min, String, ◌==◌, ◌+++◌, Bool, true, false, not, ◌&&◌, ◌||◌, Option, none, some,
  List, filter, any, is_empty, Map, get, insert, is_some, ok, ◌>>=◌, ◌>>◌, fail_if, ok_or, is_gt,
  is_lt, pos, if◌then◌else◌,
}
use agent_capability_gate.Json.{
  Value, number, as_object, as_array, as_str, as_number, value_eq, is_some_and, of_map, of_list,
  ◌>>?◌,
}
use agent_capability_gate.Json.Numbers.{Number, int, as_u64, u64_mod}
use agent_capability_gate.Json.Order.{numeric_compare}
use agent_capability_gate.Json.Equal.{schema_values_equal}
use agent_capability_gate.Json.Limits.{canonicalize}
use agent_capability_gate.Diagnostics.{Checked, invalid}
use agent_capability_gate.Schema.Regex.{RegexEngine}
use agent_capability_gate.Schema.Compile.{compile_schema_permissive}

abbrev unwrap_or : Option ℕ → ℕ → ℕ
unwrap_or (some n) d = n
unwrap_or none d = d

abbrev two_differ : Option Value → Option Value → Bool
two_differ (some a) (some b) = not (value_eq a b)
two_differ _ _ = false

merge_pattern : String → Map Value → Option Value → String → Checked (Map Value)
merge_pattern kind result none path = ok result
merge_pattern kind result (some value) path = do
  fail_if (not (kind == "string")) (invalid path "pattern requires string property")
  ok (insert "pattern" value result)

-- The greater of two lower limits, and the lesser of two upper ones; without a limit, `u64`'s bounds.
unfoldable pub merged_length : String → Option ℕ → ℕ → ℕ
merged_length key current incoming =
    if key == "minLength"
    then max (unwrap_or current 0) incoming
    else min (unwrap_or current (u64_mod - 1)) incoming

unfoldable pub merge_length :
    String → String → Map Value → Option Value → String → Checked (Map Value)
unfolding merged_length
merge_length key kind result none path = ok result
merge_length key kind result (some value) path = do
  fail_if (not (kind == "string")) (invalid path (key +++ " requires string property"))
  incoming ← ok_or (as_number value >>? as_u64) (invalid path "length must be integer")
  ok (
      insert key
        (number (int (pos (merged_length key (get key result >>? as_number >>? as_u64) incoming))))
        result)

-- Whether the incoming bound takes the place of the current one.
unfoldable pub chooses_incoming : String → Option Number → Number → Bool
chooses_incoming key none incoming = true
chooses_incoming key (some current) incoming =
    let order = numeric_compare incoming current in
    if key == "minimum"
    then is_some_and order is_gt
    else if key == "maximum"
    then is_some_and order is_lt
    else true

unfoldable pub merge_bound :
    String → String → Map Value → Option Value → String → Checked (Map Value)
unfolding chooses_incoming
merge_bound key kind result none path = ok result
merge_bound key kind result (some value) path = do
  fail_if (not (kind == "integer") && not (kind == "number"))
      (invalid path (key +++ " requires numeric property"))
  incoming ← ok_or (as_number value) (invalid path "numeric bound must be number")
  ok (
      let current = get key result >>? as_number in
      if chooses_incoming key current incoming || not (is_some current)
      then insert key (number incoming) result
      else result)

-- The values that both lists have, in the order of the existing list.
abbrev common_values : Option (List Value) → List Value → List Value
common_values (some existing) incoming =
    filter (λ candidate. any (λ v. schema_values_equal v candidate) incoming) existing
common_values none incoming = incoming

merge_enum : Map Value → Option Value → String → Checked (Map Value)
merge_enum result none path = ok result
merge_enum result (some value) path = do
  incoming ← ok_or (as_array value) (invalid path "enum must be array")
  let common = common_values (get "enum" result >>? as_array) incoming
  fail_if (is_empty common) (invalid path "constraint intersection is empty")
  ok (insert "enum" (of_list common) result)

merge_keywords : String → Map Value → Map Value → String → Checked (Map Value)
unfolding merge_pattern merge_length merge_bound merge_enum
merge_keywords kind property constraints path = do
  with_pattern ← merge_pattern kind property (get "pattern" constraints) path
  with_min ← merge_length "minLength" kind with_pattern (get "minLength" constraints) path
  with_max ← merge_length "maxLength" kind with_min (get "maxLength" constraints) path
  with_minimum ← merge_bound "minimum" kind with_max (get "minimum" constraints) path
  with_maximum ← merge_bound "maximum" kind with_minimum (get "maximum" constraints) path
  merge_enum with_maximum (get "enum" constraints) path

module _ (engine : RegexEngine) where
  unfoldable pub intersect_property_schema : Value → Value → String → Checked Value
  unfolding merge_keywords
  intersect_property_schema property constraint path = do
    result ← ok_or (as_object property) (invalid path "property schema must be object")
    kind ← ok_or (get "type" result >>? as_str) (invalid path "property type is required")
    constraints ← ok_or (as_object constraint) (invalid path "constraint must be object")
    fail_if (two_differ (get "pattern" result) (get "pattern" constraints))
        (invalid path "cannot intersect two patterns safely")
    merged ← merge_keywords kind result constraints path
    compiled ← compile_schema_permissive engine (of_map merged) path false 2
    ok (canonicalize (of_map merged))
