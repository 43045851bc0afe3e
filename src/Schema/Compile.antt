-- ===== src/Schema/Compile.antt =====
-- `compile_schema_impl` of crates/core/src/lib.rs, with its two callers. In place of `depth` the recursion
-- has the levels that are left, `max_schema_depth + 1 - depth`: none is left exactly when the depth
-- exceeds the maximum.

pub mod Closed
pub mod Public
mod Parts
unfoldable pub use Parts.*
use agent_capability_gate.Prelude.{
  ℕ, zero, suc, ◌-◌, ◌*◌, String, len, ◌==◌, Bool, true, false, not, ◌&&◌, ◌||◌, Option, none, some,
  List, [], ◌∷◌, any, find, is_empty, length, eqb, ltb, Map, get, contains_key, keys, insert,
  set_contains, set_of, map, ok, err, ◌>>=◌, ◌>>◌, fail_if, ok_or, is_gt, if◌then◌else◌,
}
use agent_capability_gate.Json.{
  Value, bool, string, as_object, as_array, as_str, as_bool, is_some_and, ◌>>?◌, of_map, of_list,
}
use agent_capability_gate.Json.Numbers.{Number}
use agent_capability_gate.Json.Order.{numeric_compare}
use agent_capability_gate.Json.Limits.{max_schema_depth, canonicalize}
use agent_capability_gate.Pointer.{escape_ptr}
use agent_capability_gate.Diagnostics.{invalid, Checked, reject_found, ◌/+◌, max_array_items}
use agent_capability_gate.Schema.{
  SchemaKind, an_object, an_array, a_string, an_integer, a_number, a_boolean, a_null,
  is_object_kind, is_array_kind, CompiledSchema, schema, SchemaProperties, no_property, property,
  SchemaItems, no_items, each_item,
}
use agent_capability_gate.Schema.Regex.{RegexEngine}
use agent_capability_gate.Schema.Keywords.{
  is_false, validate_schema_keyword_applicability, usize_value, numeric_bound, required_names,
  check_enum,
}

-- What is known of a schema once its kind is.
record Head : Type 0 where
  obj : Map Value
  name : String
  kind : SchemaKind

-- The part up to the kind: the object, its keywords and its type.
compile_head : Value → String → Bool → Checked Head
compile_head value path root = do
  obj ← ok_or (as_object value) (invalid path "schema must be object")
  reject_found (find (λ key. not (listed key schema_keywords)) (keys obj)) path
      "unsupported schema keyword"
  name ← ok_or (get "type" obj >>? as_str) (invalid (path /+ "type") "type is required")
  kind ← schema_kind name path
  fail_if (root && not (is_object_kind kind)) (invalid path "root schema must be object")
  validate_schema_keyword_applicability obj kind path
  ok (record { obj = obj; name = name; kind = kind })

module _ (engine : RegexEngine) where
  compile_pattern : Option Value → String → Checked (Option String)
  compile_pattern none path = ok none
  compile_pattern (some v) path = do
    p ← ok_or (as_str v) (invalid (path /+ "pattern") "pattern must be string")
    fail_if (ltb (16 * 1024) (len p)) (invalid (path /+ "pattern") "pattern exceeds 16 KiB")
    fail_if (not (engine.builds p)) (
        invalid (path /+ "pattern")
          "pattern is not supported by linear regex engine or exceeds compiled size limit")
    ok (some p)

  -- `public_json`
  pub public_schema : SchemaKind → String → Map Value → List String → Value
  public_schema kind name obj required =
      let typed = insert "type" (string name) obj in
      let closed =
        insert "required" (of_list (map string required))
          (insert "additionalProperties" (bool false) typed) in
      canonicalize (of_map (if is_object_kind kind then closed else typed))

  -- The part behind the items: lengths, numeric bounds, `enum`, `pattern` and the public schema.
  pub compile_rest :
      SchemaKind
      → String
      → Map Value
      → String
      → List String
      → SchemaProperties
      → Option ℕ
      → Option ℕ
      → SchemaItems
      → Checked CompiledSchema
  unfolding compile_enum compile_pattern public_schema
  compile_rest kind name obj path required properties min_items max_items items = do
    min_length ← usize_value (get "minLength" obj) path "minLength"
    max_length ← usize_value (get "maxLength" obj) path "maxLength"
    fail_if (above min_length max_length) (invalid path "minLength exceeds maxLength")
    minimum ← numeric_bound (get "minimum" obj) path "minimum" kind
    maximum ← numeric_bound (get "maximum" obj) path "maximum" kind
    fail_if (exceeds_bound minimum maximum) (invalid path "minimum exceeds maximum")
    enum_values ← compile_enum kind (get "enum" obj) path
    pattern ← compile_pattern (get "pattern" obj) path
    ok (
        schema
          (record {
            kind = kind;
            required = required;
            min_items = min_items;
            max_items = max_items;
            unique_items = is_some_and (get "uniqueItems" obj >>? as_bool) (λ b. b);
            min_length = min_length;
            max_length = max_length;
            minimum = minimum;
            maximum = maximum;
            enum_values = enum_values;
            pattern = pattern;
            public_json = public_schema kind name obj required;
          })
          properties items)

  -- The part behind the kind, with the compilation of the schemas one level down.
  compile_body :
      Bool
      → (Value → String → Checked CompiledSchema)
      → SchemaKind
      → String
      → Map Value
      → String
      → Checked CompiledSchema
  unfolding compile_object compile_items compile_rest
  compile_body strict compile kind name obj path = do
    object_part ← compile_object strict compile (is_object_kind kind) obj path
    min_items ← usize_value (get "minItems" obj) path "minItems"
    max_items ← usize_value (get "maxItems" obj) path "maxItems"
    fail_if (above min_items max_items) (invalid path "minItems exceeds maxItems")
    fail_if (over_array_limit min_items || over_array_limit max_items)
        (invalid path "array limit exceeds 1024")
    items ← compile_items compile (is_array_kind kind) obj path
    compile_rest kind name obj path object_part.0 object_part.1 min_items max_items items

  compile_at : Bool → ℕ → Value → String → Bool → Checked CompiledSchema
  unfolding compile_head compile_body
  compile_at strict zero value path root = err (invalid path "schema depth exceeds 32")
  compile_at strict (suc left) value path root = do
    head ← compile_head value path root
    compile_body strict (λ v p. compile_at strict left v p false) head.kind head.name head.obj path

  unfoldable pub compile_schema_impl : Value → String → Bool → ℕ → Bool → Checked CompiledSchema
  unfolding compile_at
  compile_schema_impl value path root depth require_all =
      compile_at require_all (suc max_schema_depth - depth) value path root

  unfoldable pub compile_schema : Value → String → Bool → ℕ → Checked CompiledSchema
  unfolding compile_schema_impl
  compile_schema value path root depth = compile_schema_impl value path root depth true

  unfoldable pub compile_schema_permissive : Value → String → Bool → ℕ → Checked CompiledSchema
  unfolding compile_schema_impl
  compile_schema_permissive value path root depth = compile_schema_impl value path root depth false
