-- ===== src/Exposure/Project.antt =====
-- `derive_v3_public_tool` of crates/core/src/lib.rs: the public tool of a version-3 exposure.
pub mod Hidden
pub mod Exposed
use agent_capability_gate.Prelude.{
  String, Bool, true, false, not, ◌&&◌, ◌||◌, Option, none, some, List, [], ◌∷◌, is_empty, find,
  map, Map, get, contains_key, keys, insert, set_contains, set_insert, Result, ok, err, ◌>>=◌, ◌>>◌,
  fail_if, ok_or, replace_err, if◌then◌else◌, is_some,
}
use agent_capability_gate.Json.{
  Value, bool, string, as_object, as_str, get_field, of_map, of_list, ◌>>?◌,
}
use agent_capability_gate.Json.Limits.{value_exceeds_depth, contains_nul, canonicalize}
use agent_capability_gate.Pointer.{escape_ptr}
use agent_capability_gate.Diagnostics.{◌/+◌}
use agent_capability_gate.Schema.{node_of}
use agent_capability_gate.Schema.Regex.{RegexEngine}
use agent_capability_gate.Schema.Compile.{compile_schema_permissive}
use agent_capability_gate.Schema.Validate.{validate_value}
use agent_capability_gate.Config.{
  McpPropertyRuleV3, expose, fixed, omit, McpRestrictionV3, McpExposureV3,
}
use agent_capability_gate.Exposure.{has_name}
use agent_capability_gate.Exposure.Intersect.{intersect_property_schema}

pub data V3ProjectionIssue : Type 0 where
  property_not_in_upstream required_property_unsatisfied fixed_value_invalid : V3ProjectionIssue
  schema_constraint_conflict unsupported_schema tool_not_found : V3ProjectionIssue

pub issue_text : V3ProjectionIssue → String
issue_text property_not_in_upstream = "PROPERTY_NOT_IN_UPSTREAM"
issue_text required_property_unsatisfied = "REQUIRED_PROPERTY_UNSATISFIED"
issue_text fixed_value_invalid = "FIXED_VALUE_INVALID"
issue_text schema_constraint_conflict = "SCHEMA_CONSTRAINT_CONFLICT"
issue_text unsupported_schema = "UNSUPPORTED_SCHEMA"
issue_text tool_not_found = "TOOL_NOT_FOUND"

abbrev pub Projection : Type 0 → Type 0
Projection A = Result V3ProjectionIssue A

-- `schema_object.entry(key).or_insert(value)`
abbrev pub or_insert : String → Value → Map Value → Map Value
or_insert key value m = if contains_key key m then m else insert key value m

-- The upstream schema is read as closed, unless it says more of additional properties than a Boolean.
pub close_object : Option Value → Map Value → Projection (Map Value)
close_object none m = ok (insert "additionalProperties" (bool false) m)
close_object (some (bool true)) m = ok (insert "additionalProperties" (bool false) m)
close_object (some (bool false)) m = ok m
close_object (some v) m = err unsupported_schema

-- A schema that the projection can read: an object within the limits.
abbrev pub usable : Value → Bool
usable v = is_some (as_object v) && not (value_exceeds_depth v 1) && not (contains_nul v)

abbrev pub filter_usable : Option Value → Option Value
filter_usable none = none
filter_usable (some v) = if usable v then some v else none

pub schema_source : Map Value → Projection (Map Value)
unfolding close_object
schema_source tool = do
  input_schema ← ok_or (filter_usable (get "inputSchema" tool)) unsupported_schema
  obj ← ok_or (as_object input_schema) unsupported_schema
  let with_properties = or_insert "properties" (of_map []) obj
  let with_required = or_insert "required" (of_list []) with_properties
  close_object (get "additionalProperties" with_required) with_required

-- The rule for a property, the default one if it is not listed and unlisted ones are exposed.
unfoldable pub rule_for : McpRestrictionV3 → String → Option McpPropertyRuleV3
rule_for r name = elim (get name r.properties) [
  | some rule ↦ some rule
  | none ↦ if r.expose_unlisted_properties then some (expose (of_map []) false) else none
]

-- The public properties and the required names that the loop has collected.
pub record Projected : Type 0 where
  pub properties : Map Value
  pub required : List String

describe : Value → Option String → Projection Value
describe property none = ok property
describe property (some text) = do
  obj ← ok_or (as_object property) unsupported_schema
  ok (of_map (insert "description" (string text) obj))

-- The text of the public schema, in key order.
abbrev pub public_text : Projected → Value
public_text p = of_map (
    ("additionalProperties", bool false)
    ∷ ("properties", of_map p.properties)
    ∷ ("required", of_list (map string p.required))
    ∷ ("type", string "object")
    ∷ [])

abbrev pub with_description : Option String → Map Value → Map Value
with_description none m = m
with_description (some text) m = insert "description" (string text) m

module _ (engine : RegexEngine) where
  -- The schema that a client sees for an exposed property.
  pub expose_property : String → Value → Value → Projection Value
  unfolding describe
  expose_property name upstream_property constraints = do
    public_property ←
        replace_err
          (intersect_property_schema engine upstream_property constraints
            ("/restrict/properties" /+ escape_ptr name))
          schema_constraint_conflict
    compiled ←
        replace_err
          (compile_schema_permissive engine public_property
            ("/tool/inputSchema/properties" /+ escape_ptr name) false 2)
          unsupported_schema
    describe public_property (get_field "description" constraints >>? as_str)

  -- A fixed value has to be one that the upstream property accepts.
  pub check_fixed : String → Value → Value → Projection (Unit {0})
  check_fixed name upstream_property value = do
    property ←
        replace_err
          (compile_schema_permissive engine upstream_property
            ("/tool/inputSchema/properties" /+ escape_ptr name) false 2)
          unsupported_schema
    fail_if (not (is_empty (validate_value engine property value ("/fixed" /+ name) [])))
        fixed_value_invalid

  -- One round of the loop over the upstream properties.
  unfoldable pub project_property :
      Option McpPropertyRuleV3 → Bool → String → Value → Projected → Projection Projected
  unfolding expose_property check_fixed
  project_property none upstream_requires name property done = do
    fail_if upstream_requires required_property_unsatisfied
    ok done
  project_property (some (expose constraints requires)) upstream_requires name property done = do
    public_property ← expose_property name property constraints
    ok (record {
      properties = insert name public_property done.properties;
      required =
          if upstream_requires || requires then set_insert name done.required else done.required;
    })
  project_property (some (fixed value)) upstream_requires name property done = do
    check_fixed name property value
    ok done
  project_property (some omit) upstream_requires name property done = do
    fail_if upstream_requires required_property_unsatisfied
    ok done

  unfoldable pub project_properties :
      McpRestrictionV3 → List String → Map Value → Projected → Projection Projected
  unfolding project_property
  project_properties r required [] done = ok done
  project_properties r required ((name, property) ∷ rest) done = do
    next ← project_property (rule_for r name) (set_contains name required) name property done
    project_properties r required rest next

  -- The public tool under a restriction.
  unfoldable pub restrict_tool :
      McpExposureV3 → McpRestrictionV3 → Map Value → Map Value → Projection Value
  unfolding schema_source project_properties rule_for
  restrict_tool exposure r tool result = do
    source ← schema_source tool
    upstream ←
        replace_err (compile_schema_permissive engine (of_map source) "/tool/inputSchema" true 1)
          unsupported_schema
    properties ← ok_or (get "properties" source >>? as_object) unsupported_schema
    fail_if (is_some (find (λ name. not (contains_key name properties)) (keys r.properties)))
        property_not_in_upstream
    projected ←
        project_properties r (node_of upstream).required properties
          (record { properties = []; required = [] })
    public_schema ←
        replace_err
          (compile_schema_permissive engine (public_text projected) "/tool/inputSchema" true 1)
          schema_constraint_conflict
    ok (
        canonicalize (
          of_map (
            with_description exposure.description
              (insert "inputSchema" (node_of public_schema).public_json result))))

  unfoldable pub derive_v3_public_tool : McpExposureV3 → Value → Projection Value
  unfolding restrict_tool
  derive_v3_public_tool exposure upstream_tool = do
    tool ← ok_or (as_object upstream_tool) unsupported_schema
    fail_if (not (has_name exposure.upstream_tool upstream_tool)) tool_not_found
    let result = insert "name" (string exposure.public_name) tool
    elim exposure.restriction [
      | none ↦ ok (canonicalize (of_map result))
      | some r ↦ restrict_tool exposure r tool result
    ]
