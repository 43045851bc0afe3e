-- ===== src/Schema/Compile/Parts.antt =====
-- The parts of `compile_schema_impl` of crates/core/src/lib.rs that read one group of keywords: the type,
-- `required` and `properties`, `items`, `enum`, and the tests on pairs of bounds.
use agent_capability_gate.Prelude.{
  ℕ, String, ◌==◌, Bool, true, false, not, ◌&&◌, ◌||◌, Option, none, some, List, [], ◌∷◌, any,
  is_empty, length, eqb, ltb, Map, get, contains_key, keys, set_contains, set_of, ok, err, ◌>>=◌,
  ◌>>◌, fail_if, ok_or, is_gt, if◌then◌else◌,
}
use agent_capability_gate.Json.{Value, as_object, as_array, is_some_and, ◌>>?◌}
use agent_capability_gate.Json.Numbers.{Number}
use agent_capability_gate.Json.Order.{numeric_compare}
use agent_capability_gate.Pointer.{escape_ptr}
use agent_capability_gate.Diagnostics.{invalid, Checked, ◌/+◌, max_array_items}
use agent_capability_gate.Schema.{
  SchemaKind, an_object, an_array, a_string, an_integer, a_number, a_boolean, a_null,
  CompiledSchema, SchemaProperties, no_property, property, SchemaItems, no_items, each_item,
}
use agent_capability_gate.Schema.Keywords.{is_false, required_names, check_enum}

abbrev pub listed : String → List String → Bool
listed key names = any (λ name. name == key) names

abbrev pub schema_keywords : List String
schema_keywords =
    "type" ∷ "title" ∷ "description" ∷ "properties" ∷ "required" ∷ "additionalProperties" ∷ "items"
    ∷ "minItems" ∷ "maxItems" ∷ "uniqueItems" ∷ "enum" ∷ "minimum" ∷ "maximum" ∷ "minLength"
    ∷ "maxLength" ∷ "pattern" ∷ []

unfoldable pub schema_kind : String → String → Checked SchemaKind
schema_kind name path =
    if name == "object"
    then ok an_object
    else if name == "array"
    then ok an_array
    else if name == "string"
    then ok a_string
    else if name == "integer"
    then ok an_integer
    else if name == "number"
    then ok a_number
    else if name == "boolean"
    then ok a_boolean
    else if name == "null"
    then ok a_null
    else err (invalid (path /+ "type") "unsupported type")

-- The condition on `required` under which a schema is refused; `names` is `required_vec`.
unfoldable pub rejects_required : Bool → List String → Map Value → Bool
rejects_required strict names props =
    let required = set_of names in
    not (eqb (length required) (length names))
    || strict
      && (not (eqb (length required) (length props))
          || any (λ k. not (set_contains k required)) (keys props))
    || any (λ k. not (contains_key k props)) required

-- A pair of bounds that are both there, the first above the second.
abbrev pub above : Option ℕ → Option ℕ → Bool
above (some a) (some b) = ltb b a
above _ _ = false

abbrev pub exceeds_bound : Option Number → Option Number → Bool
exceeds_bound (some a) (some b) = is_some_and (numeric_compare a b) is_gt
exceeds_bound _ _ = false

abbrev pub over_array_limit : Option ℕ → Bool
over_array_limit n = is_some_and n (λ x. ltb max_array_items x)

-- The loop over `props`; the map of the compiled schemas has the order of `props`.
unfoldable pub compile_properties :
    (Value → String → Checked CompiledSchema) → Map Value → String → Checked SchemaProperties
compile_properties compile [] path = ok no_property
compile_properties compile ((k, v) ∷ props) path = do
  s ← compile v (path /+ "properties" /+ escape_ptr k)
  rest ← compile_properties compile props path
  ok (property k s rest)

-- The part for object schemas: `required` and `properties`.
unfoldable pub compile_object :
    Bool
    → (Value → String → Checked CompiledSchema)
    → Bool
    → Map Value
    → String
    → Checked (List String × SchemaProperties)
compile_object strict compile false obj path = ok ([], no_property)
compile_object strict compile true obj path = do
  props ←
      ok_or (get "properties" obj >>? as_object)
        (invalid (path /+ "properties") "object properties are required")
  values ←
      ok_or (get "required" obj >>? as_array) (invalid (path /+ "required") "required is required")
  names ← required_names values path
  fail_if (rejects_required strict names props)
      (invalid (path /+ "required") "all properties must be required")
  fail_if (not (is_false (get "additionalProperties" obj)))
      (invalid (path /+ "additionalProperties") "must be false")
  properties ← compile_properties compile props path
  ok (set_of names, properties)

unfoldable pub compile_items :
    (Value → String → Checked CompiledSchema) → Bool → Map Value → String → Checked SchemaItems
compile_items compile false obj path = ok no_items
compile_items compile true obj path = do
  v ← ok_or (get "items" obj) (invalid (path /+ "items") "items is required")
  s ← compile v (path /+ "items")
  ok (each_item s)

unfoldable pub compile_enum : SchemaKind → Option Value → String → Checked (List Value)
compile_enum kind none path = ok []
compile_enum kind (some v) path = do
  values ← ok_or (as_array v) (invalid (path /+ "enum") "enum must be an array")
  fail_if (is_empty values) (invalid (path /+ "enum") "enum must not be empty")
  check_enum kind path 0 [] values
  ok values
