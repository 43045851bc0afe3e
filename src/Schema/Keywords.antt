-- ===== src/Schema/Keywords.antt =====
-- The checks of single schema keywords in crates/core/src/lib.rs: `validate_schema_keyword_applicability`,
-- `schema_value_compatible`, `usize_value`, `numeric_bound`, and the loops of `compile_schema_impl`
-- over `required` and `enum`.
use agent_capability_gate.Prelude.{
  ℕ, ◌+◌, String, Bool, true, false, not, ◌&&◌, Option, none, some, List, [], ◌∷◌, ◌++◌, find, any,
  Map, get, contains_key, is_some, ok, ◌>>=◌, ◌>>◌, fail_if, ok_or, decimal,
}
use agent_capability_gate.Json.{
  Value, bool, as_object, as_array, as_str, as_bool, as_number, is_null, is_some_and, ◌>>?◌,
  value_eq,
}
use agent_capability_gate.Json.Numbers.{Number, is_finite, as_i64, as_u64, as_f64, round_to_f64}
use agent_capability_gate.Json.Equal.{schema_values_equal}
use agent_capability_gate.Diagnostics.{invalid, Checked, reject_found, ◌/+◌}
use agent_capability_gate.Schema.{
  SchemaKind, an_object, an_array, a_string, an_integer, a_number, a_boolean, a_null,
  is_object_kind, is_array_kind, is_string_kind, is_integer_kind, is_numeric_kind,
}

-- `keywords.iter().find(|key| obj.contains_key(key))`, where the kind does not allow them
abbrev reject_keywords : Bool → List String → Map Value → String → String → Checked (Unit {0})
reject_keywords true keywords obj path message = ok tt
reject_keywords false keywords obj path message =
    reject_found (find (λ key. contains_key key obj) keywords) path message

-- A keyword that is there and is not of the wanted form.
abbrev pub malformed : String → (Value → Bool) → Map Value → Bool
malformed key test obj = is_some_and (get key obj) (λ v. not (test v))

abbrev pub is_false : Option Value → Bool
is_false (some v) = value_eq v (bool false)
is_false none = false

check_object_keywords : Map Value → String → Checked (Unit {0})
check_object_keywords obj path = do
  fail_if (malformed "properties" (λ v. is_some (as_object v)) obj)
      (invalid (path /+ "properties") "properties must be an object")
  fail_if (malformed "required" (λ v. is_some (as_array v)) obj)
      (invalid (path /+ "required") "required must be an array")
  fail_if (not (is_false (get "additionalProperties" obj)))
      (invalid (path /+ "additionalProperties") "must be false")

check_array_keywords : Map Value → String → Checked (Unit {0})
check_array_keywords obj path = do
  fail_if (malformed "items" (λ v. is_some (as_object v)) obj)
      (invalid (path /+ "items") "items must be a schema object")
  fail_if (malformed "uniqueItems" (λ v. is_some (as_bool v)) obj)
      (invalid (path /+ "uniqueItems") "uniqueItems must be boolean")

abbrev when : Bool → Checked (Unit {0}) → Checked (Unit {0})
when true m = m
when false m = ok tt

unfoldable pub validate_schema_keyword_applicability :
    Map Value → SchemaKind → String → Checked (Unit {0})
unfolding check_object_keywords check_array_keywords
validate_schema_keyword_applicability obj kind path = do
  reject_keywords (is_object_kind kind) ("properties" ∷ "required" ∷ "additionalProperties" ∷ [])
      obj path "keyword is only valid for object schemas"
  reject_keywords (is_array_kind kind) ("items" ∷ "minItems" ∷ "maxItems" ∷ "uniqueItems" ∷ []) obj
      path "keyword is only valid for array schemas"
  reject_keywords (is_string_kind kind) ("minLength" ∷ "maxLength" ∷ "pattern" ∷ []) obj path
      "keyword is only valid for string schemas"
  reject_keywords (is_numeric_kind kind) ("minimum" ∷ "maximum" ∷ []) obj path
      "keyword is only valid for numeric schemas"
  when (is_object_kind kind) (check_object_keywords obj path)
  when (is_array_kind kind) (check_array_keywords obj path)

unfoldable pub schema_value_compatible : SchemaKind → Value → Bool
unfolding round_to_f64
schema_value_compatible an_object v = is_some (as_object v)
schema_value_compatible an_array v = is_some (as_array v)
schema_value_compatible a_string v = is_some (as_str v)
schema_value_compatible an_integer v = is_some (as_number v >>? as_i64)
schema_value_compatible a_number v = is_some_and (as_number v >>? as_f64) is_finite
schema_value_compatible a_boolean v = is_some (as_bool v)
schema_value_compatible a_null v = is_null v

-- `usize` has 64 bits, so `usize::try_from` does not fail.
unfoldable pub usize_value : Option Value → String → String → Checked (Option ℕ)
usize_value none path name = ok none
usize_value (some v) path name = do
  n ← ok_or (as_number v >>? as_u64) (invalid (path /+ name) "must be non-negative integer")
  ok (some n)

unfoldable pub numeric_bound : Option Value → String → String → SchemaKind → Checked (Option Number)
unfolding round_to_f64
numeric_bound none path name kind = ok none
numeric_bound (some v) path name kind = do
  n ← ok_or (as_number v) (invalid (path /+ name) "must be finite number")
  fail_if (is_integer_kind kind && not (is_some (as_i64 n)))
      (invalid (path /+ name) "integer bound must fit signed 64 bit range")
  fail_if (not (is_integer_kind kind) && not (is_some_and (as_f64 n) is_finite))
      (invalid (path /+ name) "must be finite number")
  ok (some n)

-- The names in `required`.
unfoldable pub required_names : List Value → String → Checked (List String)
required_names [] path = ok []
required_names (v ∷ vs) path = do
  name ← ok_or (as_str v) (invalid (path /+ "required") "required names must be strings")
  names ← required_names vs path
  ok (name ∷ names)

-- The loop over `enum`; `previous` is `values[..index]`.
unfoldable pub check_enum : SchemaKind → String → ℕ → List Value → List Value → Checked (Unit {0})
check_enum kind path index previous [] = ok tt
check_enum kind path index previous (v ∷ vs) = do
  fail_if (not (schema_value_compatible kind v))
      (invalid (path /+ "enum" /+ decimal index) "enum value is incompatible with schema type")
  fail_if (any (λ p. schema_values_equal p v) previous)
      (invalid (path /+ "enum" /+ decimal index) "enum must not contain duplicate values")
  check_enum kind path (index + 1) (previous ++ v ∷ []) vs
