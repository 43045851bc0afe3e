-- ===== src/Exposure/V2.antt =====
-- `resolve_v2_mcp` of crates/core/src/lib.rs.
pub mod Forwarded
pub mod Total
use agent_capability_gate.Prelude.{
  String, Bool, true, false, not, ◌||◌, Option, none, some, [], ◌∷◌, any, Map, get, contains_key,
  keys, insert, Result, ok, err, ◌>>=◌, ◌>>◌, fail_if, ok_or,
}
use agent_capability_gate.Json.{Value, as_object, get_field, of_map, ◌>>?◌}
use agent_capability_gate.Diagnostics.{Checked, invalid, ◌/+◌}
use agent_capability_gate.Schema.Regex.{RegexEngine}
use agent_capability_gate.Schema.Compile.{compile_schema_permissive}
use agent_capability_gate.Schema.Validate.{Issues, validate_value, validate_input}
use agent_capability_gate.Faults.{Fault, lift, first_issue}
use agent_capability_gate.Config.{
  McpRestriction, McpExposureMode, proxy, restriction, ValidatedConfig, ResolvedMcpInvocation,
}
use agent_capability_gate.Exposure.{has_name, upstream_call}
use agent_capability_gate.Exposure.Intersect.{intersect_property_schema}

-- The public schema has exactly the properties that are inputs, and none that is fixed.
unfoldable pub mismatched : McpRestriction → Map Value → Bool
mismatched r properties =
    any (λ key. not (contains_key key r.inputs)) (keys properties)
    || any (λ key. not (contains_key key properties)) (keys r.inputs)
    || any (λ key. contains_key key properties) (keys r.fixed)

-- `issues.first()` as an error
abbrev pub reject_first : Issues → Checked (Unit {0})
reject_first [] = ok tt
reject_first (i ∷ is) = err (invalid i.path i.constraint)

-- The loop over the fixed values: a client may not supply one.
unfoldable pub insert_fixed_v2 : Map Value → Map Value → Map Value → Checked (Map Value)
insert_fixed_v2 [] arguments forwarded = ok forwarded
insert_fixed_v2 ((key, value) ∷ rest) arguments forwarded = do
  fail_if (contains_key key arguments)
      (invalid ("/arguments" /+ key) "fixed property cannot be supplied")
  insert_fixed_v2 rest arguments (insert key value forwarded)

module _ (engine : RegexEngine) where
  -- The check of one supplied input against its own constraint.
  check_input : Map Value → String → Value → Option Value → Checked (Unit {0})
  check_input properties key constraint none = ok tt
  check_input properties key constraint (some value) = do
    property ←
        ok_or (get key properties) (invalid ("/tool/inputSchema/properties" /+ key) "missing")
    constrained ← intersect_property_schema engine property constraint ("/restrict/inputs" /+ key)
    compiled ← compile_schema_permissive engine constrained "/property" false 2
    reject_first (validate_value engine compiled value ("/arguments" /+ key) [])

  unfoldable pub check_inputs : Map Value → Map Value → Map Value → Checked (Unit {0})
  unfolding check_input
  check_inputs [] properties arguments = ok tt
  check_inputs ((key, constraint) ∷ rest) properties arguments = do
    check_input properties key constraint (get key arguments)
    check_inputs rest properties arguments

  -- The arguments that a call forwards: all of them where the exposure is a proxy.
  unfoldable pub forward_v2 : McpExposureMode → Value → Map Value → Result Fault (Map Value)
  unfolding check_inputs
  forward_v2 proxy public_tool arguments = ok arguments
  forward_v2 (restriction r) public_tool arguments = do
    schema_json ←
        lift (ok_or (get_field "inputSchema" public_tool) (invalid "/tool/inputSchema" "required"))
    compiled ← lift (compile_schema_permissive engine schema_json "/tool/inputSchema" true 1)
    first_issue (validate_input engine compiled (of_map arguments))
    properties ← lift (
        ok_or (get_field "properties" schema_json >>? as_object)
          (invalid "/tool/inputSchema/properties" "required"))
    lift (
        fail_if (mismatched r properties)
          (invalid "/tool/inputSchema" "schema does not match restriction"))
    lift (check_inputs r.inputs properties arguments)
    lift (insert_fixed_v2 r.fixed arguments arguments)

  unfoldable pub resolve_v2_mcp :
      ValidatedConfig → String → Value → Value → Result Fault ResolvedMcpInvocation
  unfolding forward_v2
  resolve_v2_mcp config public_name public_tool arguments = do
    exposure ← lift (ok_or (get public_name config.v2_exposures) (invalid "/tool" "unknown tool"))
    target ← lift (
        ok_or (get exposure.target_id config.upstream_targets)
          (invalid "/tool" "unknown MCP target"))
    given ← lift (ok_or (as_object arguments) (invalid "/arguments" "MCP arguments must be object"))
    lift (
        fail_if (not (has_name public_name public_tool))
          (invalid "/tool/name" "public tool name does not match exposure"))
    forwarded ← forward_v2 exposure.mode public_tool given
    ok (upstream_call target exposure.upstream_tool forwarded)
