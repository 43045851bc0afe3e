-- ===== src/Schema/Validate.antt =====
-- `validate_value` and `validate_input` of crates/core/src/lib.rs.
pub mod Conforms
pub mod Respected
use agent_capability_gate.Prelude.{
  ℕ, zero, suc, ◌+◌, String, len, count, ◌==◌, ◌+++◌, Bool, true, false, not, ◌&&◌, ◌||◌, Option,
  none, some, List, [], ◌∷◌, ◌++◌, any, is_empty, length, ltb, leb, Map, get, contains_key, keys,
  Result, ok, err, is_gt, is_lt, decimal, if◌then◌else◌,
}
use agent_capability_gate.Json.{
  Value, null, bool, number, string, array, object, Items, Fields, items, fields, as_number,
  is_some_and, ◌>>?◌,
}
use agent_capability_gate.Json.Numbers.{Number, is_whole, as_i64, as_f64, round_to_f64}
use agent_capability_gate.Json.Order.{numeric_compare}
use agent_capability_gate.Json.Equal.{schema_values_equal}
use agent_capability_gate.Pointer.{escape_ptr}
use agent_capability_gate.Diagnostics.{ValidationIssue, ◌/+◌, max_string_bytes, max_diagnostics}
use agent_capability_gate.Schema.{
  SchemaKind, an_object, an_array, a_string, an_integer, a_number, a_boolean, a_null, kind_name,
  SchemaNode, CompiledSchema, schema, SchemaProperties, no_property, property, properties_list,
  SchemaItems, no_items, each_item,
}
use agent_capability_gate.Schema.Regex.{RegexEngine}
use agent_capability_gate.Schema.Keywords.{schema_value_compatible}

abbrev pub Issues : Type 0
Issues = List ValidationIssue

-- `issues.push(…)` if the test holds
abbrev push_if : Bool → String → String → Issues → Issues
push_if true path constraint issues = issues ++ record { path = path; constraint = constraint } ∷ []
push_if false path constraint issues = issues

-- `compatible`: an integer's test reads the value as `f64` too.
unfoldable pub has_kind : SchemaKind → Value → Bool
unfolding schema_value_compatible round_to_f64
has_kind an_integer v =
    schema_value_compatible an_integer v && is_some_and (as_number v >>? as_f64) is_whole
has_kind kind v = schema_value_compatible kind v

-- A value that is listed in a nonempty `enum`, or any value without one.
unfoldable pub in_enum : List Value → Value → Bool
in_enum values v = is_empty values || any (λ candidate. schema_values_equal candidate v) values

-- The loops over `required` and over the keys of the object.
unfoldable pub check_required : List String → Map Value → String → Issues → Issues
check_required [] obj path issues = issues
check_required (k ∷ ks) obj path issues =
    check_required ks obj path
      (push_if (not (contains_key k obj)) (path /+ escape_ptr k) "required" issues)

unfoldable pub check_additional : List String → Map CompiledSchema → String → Issues → Issues
check_additional [] properties path issues = issues
check_additional (k ∷ ks) properties path issues = check_additional ks properties path (
    push_if (not (contains_key k properties)) (path /+ escape_ptr k) "additionalProperties:false"
      issues)

-- The loop of `uniqueItems`: an item that equals one before it. It stops at the first.
unfoldable pub has_duplicate : List Value → List Value → Bool
has_duplicate previous [] = false
has_duplicate previous (v ∷ vs) =
    any (λ candidate. schema_values_equal candidate v) previous
    || has_duplicate (previous ++ v ∷ []) vs

abbrev under : Option ℕ → ℕ → Bool
under bound n = is_some_and bound (λ b. ltb n b)

abbrev over : Option ℕ → ℕ → Bool
over bound n = is_some_and bound (λ b. ltb b n)

unfoldable pub check_array : SchemaNode → List Value → String → Issues → Issues
unfolding has_duplicate
check_array n vs path issues = push_if (n.unique_items && has_duplicate [] vs) path "uniqueItems" (
    push_if (over n.max_items (length vs)) path "maxItems"
      (push_if (under n.min_items (length vs)) path "minItems" issues))

unfoldable pub check_number : SchemaNode → Number → String → Issues → Issues
check_number n x path issues =
    push_if (is_some_and n.maximum (λ b. is_some_and (numeric_compare x b) is_gt)) path "maximum" (
      push_if (is_some_and n.minimum (λ b. is_some_and (numeric_compare x b) is_lt)) path "minimum"
        issues)

-- The loop over an array's items, with the check of one item.
unfoldable pub validate_each :
    (Value → String → Issues → Issues) → ℕ → List Value → String → Issues → Issues
validate_each check index [] path issues = issues
validate_each check index (v ∷ vs) path issues =
    validate_each check (suc index) vs path (check v (path /+ decimal index) issues)

abbrev validate_found : (Value → Issues → Issues) → Option Value → Issues → Issues
validate_found check none issues = issues
validate_found check (some v) issues = check v issues

-- The early returns of `validate_value`: at the limit of issues, and at a value of another kind.
abbrev enter : SchemaNode → Value → String → Issues → (Issues → Issues) → Issues
enter n v path issues check =
    if leb max_diagnostics (length issues)
    then issues
    else if has_kind n.kind v
    then check (push_if (not (in_enum n.enum_values v)) path "enum" issues)
    else push_if true path ("type:" +++ kind_name n.kind) issues

abbrev pub accepted : Issues → Result Issues (Unit {0})
accepted [] = ok tt
accepted (i ∷ is) = err (i ∷ is)

module _ (engine : RegexEngine) where
  unfoldable pub check_string : SchemaNode → String → String → Issues → Issues
  check_string n s path issues =
      push_if (is_some_and n.pattern (λ p. not (engine.is_match p s))) path "pattern" (
        push_if (over n.max_length (count s)) path "maxLength" (
          push_if (under n.min_length (count s)) path "minLength"
            (push_if (ltb max_string_bytes (len s)) path "stringBytes" issues)))

  -- The match on the kind. The unwrapped conversions cannot fail, since the value has the kind.
  unfoldable pub check_shape :
      SchemaNode
      → Map CompiledSchema
      → (Map Value → String → Issues → Issues)
      → (List Value → String → Issues → Issues)
      → SchemaKind
      → Value
      → String
      → Issues
      → Issues
  unfolding check_string
  check_shape n ps check_properties check_items an_object (object fs) path issues =
      check_properties (fields fs) path (
        check_additional (keys (fields fs)) ps path
          (check_required n.required (fields fs) path issues))
  check_shape n ps check_properties check_items an_array (array vs) path issues =
      check_items (items vs) path (check_array n (items vs) path issues)
  check_shape n ps check_properties check_items a_string (string s) path issues =
      check_string n s path issues
  check_shape n ps check_properties check_items an_integer (number x) path issues =
      check_number n x path issues
  check_shape n ps check_properties check_items a_number (number x) path issues =
      check_number n x path issues
  check_shape n ps check_properties check_items _ _ path issues = issues

  unfoldable mutual
    pub validate_value : CompiledSchema → Value → String → Issues → Issues
    validate_value (schema n ps is) v path issues = enter n v path issues (
        check_shape n (properties_list ps) (validate_properties ps) (validate_items is) n.kind v
          path)

    pub validate_properties : SchemaProperties → Map Value → String → Issues → Issues
    validate_properties no_property obj path issues = issues
    validate_properties (property k s ps) obj path issues =
        validate_properties ps obj path
          (validate_found (λ v. validate_value s v (path /+ escape_ptr k)) (get k obj) issues)

    pub validate_items : SchemaItems → List Value → String → Issues → Issues
    validate_items no_items vs path issues = issues
    validate_items (each_item s) vs path issues = validate_each (validate_value s) 0 vs path issues

  unfoldable pub validate_input : CompiledSchema → Value → Result Issues (Unit {0})
  validate_input s v = accepted (validate_value s v "" [])
