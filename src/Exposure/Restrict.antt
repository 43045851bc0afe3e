-- ===== src/Exposure/Restrict.antt =====
-- `derive_restricted_public_tool` and `restricted_compatibility` of crates/core/src/lib.rs: the public tool
-- of a version-2 exposure.
pub mod Total
use agent_capability_gate.Prelude.{
  String, ◌==◌, Bool, true, false, not, ◌&&◌, ◌||◌, Option, none, some, List, [], ◌∷◌, ◌++◌, any,
  filter, find, is_empty, map, Map, get, contains_key, keys, insert, is_some, set_contains, Result,
  ok, err, ◌>>=◌, ◌>>◌, fail_if, ok_or, if◌then◌else◌,
}
use agent_capability_gate.Json.{
  Value, bool, string, as_object, as_array, as_str, get_field, is_some_and, of_map, of_list, ◌>>?◌,
}
use agent_capability_gate.Json.Limits.{value_exceeds_depth, contains_nul, canonicalize}
use agent_capability_gate.Pointer.{escape_ptr}
use agent_capability_gate.Diagnostics.{Checked, invalid, reject_found, ◌/+◌}
use agent_capability_gate.Schema.{CompiledSchema, node_of}
use agent_capability_gate.Schema.Regex.{RegexEngine}
use agent_capability_gate.Schema.Compile.{compile_schema_permissive}
use agent_capability_gate.Schema.Validate.{validate_value}
use agent_capability_gate.Faults.{Fault, lift, unwrap}
use agent_capability_gate.Config.{McpRestriction, McpExposureMode, proxy, restriction, McpExposure}
use agent_capability_gate.Exposure.{has_name}
use agent_capability_gate.Exposure.Intersect.{intersect_property_schema}
use agent_capability_gate.Exposure.V2.{reject_first}

-- A schema within the limits that the derivation reads.
abbrev pub bounded : Value → Bool
bounded v = is_some (as_object v) && not (value_exceeds_depth v 1) && not (contains_nul v)

-- A property of the restriction that the upstream schema lacks.
abbrev pub foreign : McpRestriction → Map Value → Option String
foreign r properties =
    find (λ key. not (contains_key key properties)) (keys r.inputs ++ keys r.fixed)

-- A required property that is neither an input nor fixed.
abbrev pub unsatisfied : McpRestriction → List String → Option String
unsatisfied r required =
    find (λ key. not (contains_key key r.inputs) && not (contains_key key r.fixed)) required

-- The text of the public schema, in key order.
abbrev pub restricted_text : Map Value → List String → Value
restricted_text properties required = of_map (
    ("additionalProperties", bool false)
    ∷ ("properties", of_map properties)
    ∷ ("required", of_list (map string required))
    ∷ ("type", string "object")
    ∷ [])

module _ (engine : RegexEngine) where
  unfoldable pub check_fixed_values : Map Value → Map Value → Result Fault (Unit {0})
  check_fixed_values [] properties = ok tt
  check_fixed_values ((key, value) ∷ rest) properties = do
    property ← unwrap (get key properties)
    compiled ← lift (
        compile_schema_permissive engine property ("/tool/inputSchema/properties" /+ escape_ptr key)
          false 2)
    lift (reject_first (validate_value engine compiled value ("/fixed" /+ key) []))
    check_fixed_values rest properties

  unfoldable pub public_inputs : Map Value → Map Value → Map Value → Result Fault (Map Value)
  public_inputs [] properties done = ok done
  public_inputs ((key, constraint) ∷ rest) properties done = do
    property ← unwrap (get key properties)
    shown ← lift (intersect_property_schema engine property constraint ("/restrict/inputs" /+ key))
    public_inputs rest properties (insert key shown done)

  restrict_v2 : McpRestriction → Value → Map Value → Result Fault Value
  unfolding check_fixed_values public_inputs
  restrict_v2 r input_schema result = do
    upstream ← lift (compile_schema_permissive engine input_schema "/tool/inputSchema" true 1)
    upstream_object ← lift (
        ok_or (as_object input_schema)
          (invalid "/tool/inputSchema" "upstream inputSchema must be object"))
    properties ← lift (
        ok_or (get "properties" upstream_object >>? as_object)
          (invalid "/tool/inputSchema/properties" "required"))
    lift (reject_found (foreign r properties) "/restrict" "property is absent from upstream schema")
    lift (
        reject_found (unsatisfied r (node_of upstream).required) "/restrict"
          "upstream required property is neither exposed nor fixed")
    lift (
        fail_if (any (λ key. not (set_contains key (node_of upstream).required)) (keys r.inputs))
          (invalid "/restrict/inputs" "optional upstream properties cannot be exposed as inputs"))
    check_fixed_values r.fixed properties
    shown ← public_inputs r.inputs properties []
    let required = filter (λ key. contains_key key r.inputs) (node_of upstream).required
    public_schema ← lift (
        compile_schema_permissive engine (restricted_text shown required) "/tool/inputSchema" true
          1)
    ok (canonicalize (of_map (insert "inputSchema" (node_of public_schema).public_json result)))

  unfoldable pub derive_restricted_public_tool : McpExposure → Value → Result Fault Value
  unfolding restrict_v2
  derive_restricted_public_tool exposure upstream_tool = do
    tool ← lift (ok_or (as_object upstream_tool) (invalid "/tool" "upstream tool must be object"))
    name ←
        lift (
          ok_or (get "name" tool >>? as_str)
            (invalid "/tool/name" "upstream tool name is required"))
    lift (
        fail_if (not (name == exposure.upstream_tool))
          (invalid "/tool/name" "upstream tool name does not match exposure"))
    input_schema ← lift (
        ok_or (get "inputSchema" tool)
          (invalid "/tool/inputSchema" "upstream inputSchema is required"))
    lift (
        fail_if (not (bounded input_schema))
          (invalid "/tool/inputSchema" "upstream inputSchema is not bounded JSON object"))
    let result = insert "name" (string exposure.public_name) tool
    elim exposure.mode [
      | proxy ↦ ok (canonicalize (of_map result))
      | restriction r ↦ restrict_v2 r input_schema result
    ]

  -- Whether a property that can be compiled accepts the fixed value.
  abbrev admits : Checked CompiledSchema → String → Value → Bool
  admits (err d) key value = true
  admits (ok compiled) key value =
      is_empty (validate_value engine compiled value ("/fixed" /+ key) [])

  unfoldable pub fixed_admitted : Map Value → Map Value → Bool
  fixed_admitted [] properties = true
  fixed_admitted ((key, value) ∷ rest) properties =
      let later = fixed_admitted rest properties in
      elim (get key properties) [
        | none ↦ later
        | some property ↦
            admits
              (compile_schema_permissive engine property
                ("/tool/inputSchema/properties" /+ escape_ptr key) false 2)
              key value
            && later
      ]

  properties_compatible : McpRestriction → Option (Map Value) → Bool
  unfolding fixed_admitted
  properties_compatible r none = true
  properties_compatible r (some properties) =
      not (is_some (foreign r properties)) && fixed_admitted r.fixed properties

  names_of : List Value → List String
  names_of [] = []
  names_of (v ∷ vs) = let rest = names_of vs in elim (as_str v) [ none ↦ rest | some s ↦ s ∷ rest ]

  required_compatible : McpRestriction → Option (List Value) → Bool
  unfolding names_of
  required_compatible r none = true
  required_compatible r (some values) = not (is_some (unsatisfied r (names_of values)))

  schema_compatible : McpRestriction → Option (Map Value) → Bool
  unfolding properties_compatible required_compatible
  schema_compatible r none = true
  schema_compatible r (some schema_json) =
      properties_compatible r (get "properties" schema_json >>? as_object)
      && required_compatible r (get "required" schema_json >>? as_array)

  unfoldable pub restricted_compatibility : McpExposure → Value → Bool
  unfolding schema_compatible
  restricted_compatibility exposure new_upstream =
      let named = has_name exposure.upstream_tool new_upstream in
      elim exposure.mode [
        | proxy ↦ named
        | restriction r ↦
            named && schema_compatible r (get_field "inputSchema" new_upstream >>? as_object)
      ]
